-- ===== src/Sentinel/Mjpeg/Chunks.antt =====
-- What the reader of the stream keeps when its buffer grows by a chunk.
use cat_sentinel.Prelude.{
  ◌+◌, ◌≤◌, ◌≡◌, refl, inl, inr, ◌&&◌, [], ◌∷◌, ◌++◌, none, some, arith, length, ◌==◌, Bool-cases,
  Option-cases,
}
use cat_sentinel.Sentinel.Mjpeg.{Bytes, after_soi, until_eoi, last_two}

pub after_soi-append :
    (buffer chunk post : Bytes)
    → after_soi buffer ≡ some post
    → after_soi (buffer ++ chunk) ≡ some (post ++ chunk)
unfolding after_soi
after_soi-append [] chunk post h = cc h
after_soi-append (x ∷ []) chunk post h = cc h
after_soi-append (x ∷ y ∷ r) chunk post h = ground (arith, after_soi-append (y ∷ r) chunk post)

-- A start marker that is split between the buffer and the chunk is in the last two bytes kept.
pub after_soi-last_two :
    (buffer chunk : Bytes)
    → after_soi buffer ≡ none
    → after_soi (last_two buffer ++ chunk) ≡ after_soi (buffer ++ chunk)
unfolding after_soi last_two
after_soi-last_two (x ∷ y ∷ z ∷ r) chunk h = ground (arith, after_soi-last_two (y ∷ z ∷ r) chunk)
after_soi-last_two [] chunk h = refl
after_soi-last_two (x ∷ []) chunk h = refl
after_soi-last_two (x ∷ y ∷ []) chunk h = refl

pub last_two-append :
    (buffer chunk : Bytes) → last_two (last_two buffer ++ chunk) ≡ last_two (buffer ++ chunk)
unfolding last_two
last_two-append (x ∷ y ∷ z ∷ r) chunk = last_two-append (y ∷ z ∷ r) chunk
last_two-append [] chunk = refl
last_two-append (x ∷ []) chunk = refl
last_two-append (x ∷ y ∷ []) chunk = refl

pub length-last_two-le : (buffer : Bytes) → length (last_two buffer) ≤ length buffer
unfolding last_two
length-last_two-le (x ∷ y ∷ z ∷ r) = omega (arith, length-last_two-le (y ∷ z ∷ r))
length-last_two-le [] = omega arith
length-last_two-le (x ∷ []) = omega arith
length-last_two-le (x ∷ y ∷ []) = omega arith

pub until_eoi-append :
    (post chunk body rest : Bytes)
    → until_eoi post ≡ some (body, rest)
    → until_eoi (post ++ chunk) ≡ some (body, rest ++ chunk)
unfolding until_eoi
until_eoi-append [] chunk body rest h = cc h
until_eoi-append (x ∷ []) chunk body rest h = cc h
until_eoi-append (x ∷ y ∷ r) chunk body rest h = elim (Bool-cases (x == 0xff && y == 0xd9)) [
  | inl marker ↦ ground arith
  | inr no_marker ↦ elim (Option-cases (until_eoi (y ∷ r))) [
    | inl open_end ↦ absurd (ground arith)
    | inr ((b, r'), e) ↦ ground (arith, until_eoi-append (y ∷ r) chunk b r' e)
  ]
]

pub length-after_soi :
    (buffer post : Bytes) → after_soi buffer ≡ some post → length post + 2 ≤ length buffer
unfolding after_soi
length-after_soi [] post h = cc h
length-after_soi (x ∷ []) post h = cc h
length-after_soi (x ∷ y ∷ r) post h = ground (arith, length-after_soi (y ∷ r) post)

pub length-until_eoi :
    (post body rest : Bytes)
    → until_eoi post ≡ some (body, rest)
    → length body + length rest + 2 ≡ length post
unfolding until_eoi
length-until_eoi [] body rest h = cc h
length-until_eoi (x ∷ []) body rest h = cc h
length-until_eoi (x ∷ y ∷ r) body rest h = elim (Bool-cases (x == 0xff && y == 0xd9)) [
  | inl marker ↦ ground arith
  | inr no_marker ↦ elim (Option-cases (until_eoi (y ∷ r))) [
    | inl open_end ↦ absurd (ground arith)
    | inr ((b, r'), e) ↦ ground (arith, length-until_eoi (y ∷ r) b r' e)
  ]
]
