-- ===== src/Sentinel/Mjpeg/RoundTrip.antt =====
-- What the writer of the stream sends is what its reader yields.
use mathlib.Core.List.{append_assoc, append-nil}
use cat_sentinel.Prelude.{
  ℕ, zero, suc, ◌+◌, ◌≤◌, ◌≡◌, refl, ap, subst, ◌∙◌, inl, inr, List, [], ◌∷◌, ◌++◌, map, none, some,
  arith, Bool, true, false, ◌&&◌, length, length-append, Option-cases, ◌==◌, All, Bool-cases, ltb,
  All-append, ◌/◌, ◌%◌, if◌then◌else◌,
}
use cat_sentinel.Sentinel.Mjpeg.{
  Bytes, after_soi, until_eoi, framed, drain, feed, feed_all, part, part_start, digits,
}
use cat_sentinel.Sentinel.Mjpeg.Stream.{concat, feed_all-concat, drain_frame, drain_skip}

-- No end marker stands in the body, or is begun by its last byte.
abbrev pub NoEnd : Bytes → Type 0
NoEnd body = until_eoi (body ++ 0xff ∷ []) ≡ none

abbrev pub NoMarker : Bytes → Type 0
NoMarker = All (λ x. (x == 0xff) ≡ false)

NoMarker-append : (xs ys : Bytes) → NoMarker xs → NoMarker ys → NoMarker (xs ++ ys)
NoMarker-append = All-append (λ x. (x == 0xff) ≡ false)

digits-NoMarker : (fuel n : ℕ) → n ≤ fuel → NoMarker (digits fuel n)
unfolding digits
digits-NoMarker zero n h = (ground arith, tt)
digits-NoMarker (suc fuel) n h = elim (Bool-cases (ltb n 10)) [
  | inl small ↦ subst NoMarker {x = (48 + n) ∷ []} (ground arith) (ground arith, tt)
  | inr large ↦ subst NoMarker {x = digits fuel (n / 10) ++ ((48 + n % 10) ∷ [])} (ground arith) (
      NoMarker-append (digits fuel (n / 10)) ((48 + n % 10) ∷ [])
        (digits-NoMarker fuel (n / 10) (omega arith)) (ground arith, tt))
]

after_soi_header :
    (header post : Bytes) → NoMarker header → after_soi (header ++ 0xff ∷ 0xd8 ∷ post) ≡ some post
unfolding after_soi
after_soi_header [] post h = refl
after_soi_header (x ∷ []) post (h, _) = ground (arith, h)
after_soi_header (x ∷ y ∷ r) post (h, hs) = ground (arith, h, after_soi_header (y ∷ r) post hs)

until_eoi_body :
    (body rest : Bytes) → NoEnd body → until_eoi (body ++ 0xff ∷ 0xd9 ∷ rest) ≡ some (body, rest)
unfolding until_eoi
until_eoi_body [] rest h = refl
until_eoi_body (x ∷ []) rest h = elim (Bool-cases (x == 0xff)) [
  | inl e ↦ ground arith
  | inr e ↦ ground arith
]
until_eoi_body (x ∷ y ∷ r) rest h = elim (Bool-cases (x == 0xff && y == 0xd9)) [
  | inl marker ↦ absurd (ground arith)
  | inr no_marker ↦ elim (Option-cases (until_eoi (y ∷ (r ++ 0xff ∷ [])))) [
    | inl e ↦ ground (arith, until_eoi_body (y ∷ r) rest e)
    | inr (p, e) ↦ absurd (ground arith)
  ]
]

after_soi-none : (header : Bytes) → NoMarker header → after_soi header ≡ none
unfolding after_soi
after_soi-none [] h = refl
after_soi-none (x ∷ []) h = refl
after_soi-none (x ∷ y ∷ r) (h, hs) = ground (arith, h, after_soi-none (y ∷ r) hs)

-- The stream for the JPEG images with these bodies.
abbrev pub stream_of : List Bytes → Bytes
stream_of bodies = concat (map (λ body. part (framed body)) bodies)

-- What stands before the start marker of a part.
abbrev header_of : Bytes → Bytes
header_of frame = part_start ++ digits (length frame) (length frame) ++ (13 ∷ 10 ∷ 13 ∷ 10 ∷ [])

no_marker : Bytes → Bool
no_marker [] = true
no_marker (x ∷ xs) = let rest = no_marker xs in if x == 0xff then false else rest

no_marker-NoMarker : (xs : Bytes) → no_marker xs ≡ true → NoMarker xs
unfolding no_marker
no_marker-NoMarker [] h = tt
no_marker-NoMarker (x ∷ xs) h = (ground arith, no_marker-NoMarker xs (ground arith))

header-NoMarker : (frame : Bytes) → NoMarker (header_of frame)
unfolding no_marker
header-NoMarker frame =
    NoMarker-append (part_start ++ digits (length frame) (length frame)) (13 ∷ 10 ∷ 13 ∷ 10 ∷ [])
      (NoMarker-append part_start (digits (length frame) (length frame))
        (no_marker-NoMarker part_start refl)
        (digits-NoMarker (length frame) (length frame) (omega arith)))
      (no_marker-NoMarker (13 ∷ 10 ∷ 13 ∷ 10 ∷ []) refl)

part-split :
    (pre body rest : Bytes)
    → pre ++ (part (framed body) ++ rest)
      ≡ (pre ++ header_of (framed body)) ++ 0xff ∷ 0xd8 ∷ (body ++ 0xff ∷ 0xd9 ∷ (13 ∷ 10 ∷ rest))
unfolding part
part-split pre body rest = simp append_assoc

-- The next part is read in one round of the loop, and leaves the line end behind it.
part_read :
    (fuel : ℕ) (pre body rest : Bytes)
    → NoMarker pre
    → NoEnd body
    → drain (suc fuel) (pre ++ (part (framed body) ++ rest))
      ≡ (framed body ∷ (drain fuel (13 ∷ 10 ∷ rest)).0, (drain fuel (13 ∷ 10 ∷ rest)).1)
part_read fuel pre body rest p h =
    let header = pre ++ header_of (framed body) in
    ap (drain (suc fuel)) (part-split pre body rest)
    ∙ drain_frame fuel (header ++ 0xff ∷ 0xd8 ∷ (body ++ 0xff ∷ 0xd9 ∷ (13 ∷ 10 ∷ rest)))
        (body ++ 0xff ∷ 0xd9 ∷ (13 ∷ 10 ∷ rest)) body (13 ∷ 10 ∷ rest)
        (after_soi_header header (body ++ 0xff ∷ 0xd9 ∷ (13 ∷ 10 ∷ rest))
          (NoMarker-append pre (header_of (framed body)) p (header-NoMarker (framed body))))
        (until_eoi_body body (13 ∷ 10 ∷ rest) h)

length-part :
    (pre body rest : Bytes) → length rest + 4 ≤ length (pre ++ (part (framed body) ++ rest))
length-part pre body rest =
    let tail = 0xff ∷ 0xd9 ∷ (13 ∷ 10 ∷ rest) in
    omega (
      arith,
      ap length (part-split pre body rest),
      length-append (pre ++ header_of (framed body)) (0xff ∷ 0xd8 ∷ (body ++ tail)),
      length-append body tail,
    )

drain_parts :
    (fuel : ℕ) (pre : Bytes) (bodies : List Bytes)
    → NoMarker pre
    → All NoEnd bodies
    → length (pre ++ stream_of bodies) ≤ fuel
    → (drain fuel (pre ++ stream_of bodies)).0 ≡ map framed bodies
unfolding drain no_marker
drain_parts zero [] [] p h l = refl
drain_parts zero (x ∷ pre) [] p h l = absurd (omega (arith, l))
drain_parts (suc fuel) pre [] p h l =
    ap (λ d. d.0)
      (drain_skip fuel (pre ++ []) (ap after_soi (append-nil pre) ∙ after_soi-none pre p))
drain_parts zero pre (b ∷ bs) p (h, hs) l =
    absurd (omega (arith, l, length-part pre b (stream_of bs)))
drain_parts (suc fuel) pre (b ∷ bs) p (h, hs) l =
    ap (λ d. d.0) (part_read fuel pre b (stream_of bs) p h)
    ∙ ap (λ fs. framed b ∷ fs)
        (drain_parts fuel (13 ∷ 10 ∷ []) bs (no_marker-NoMarker (13 ∷ 10 ∷ []) refl) hs
          (omega (arith, l, length-part pre b (stream_of bs))))

-- The reader yields exactly the images that the writer sent, in order, however the stream is cut
-- into chunks, when no image's body has an end marker of its own.
pub feed_all-stream_of :
    (bodies : List Bytes) (c : Bytes) (cs : List Bytes)
    → All NoEnd bodies
    → concat (c ∷ cs) ≡ stream_of bodies
    → (feed_all [] (c ∷ cs)).0 ≡ map framed bodies
unfolding feed
feed_all-stream_of bodies c cs h e =
    ap (λ d. d.0) (feed_all-concat [] c cs)
    ∙ ap (λ s. (drain (length s) s).0) e
    ∙ drain_parts (length (stream_of bodies)) [] bodies tt h (omega arith)
