-- ===== src/Sentinel/Mjpeg/Stream.antt =====
-- The frames do not depend on how the stream is cut into chunks.
use mathlib.Core.List.{append_assoc, append-nil}
use cat_sentinel.Prelude.{
  ℕ, zero, suc, ◌+◌, ◌≤◌, ◌≡◌, refl, ap, subst, sym, ◌∙◌, inl, inr, List, [], ◌∷◌, ◌++◌, none, some,
  arith, length, length-append, Option-cases,
}
use cat_sentinel.Sentinel.Mjpeg.{
  Bytes, after_soi, until_eoi, last_two, framed, breaks, yields, round, drain, feed, feed_all,
}
use cat_sentinel.Sentinel.Mjpeg.Chunks.{
  after_soi-append, after_soi-last_two, last_two-append, length-last_two-le, until_eoi-append,
  length-after_soi, length-until_eoi,
}

-- The three outcomes of a round of the loop.
pub drain_skip :
    (fuel : ℕ) (buffer : Bytes)
    → after_soi buffer ≡ none
    → drain (suc fuel) buffer ≡ ([], last_two buffer)
unfolding drain round
drain_skip fuel buffer h = ground (arith, h)

drain_open :
    (fuel : ℕ) (buffer post : Bytes)
    → after_soi buffer ≡ some post
    → until_eoi post ≡ none
    → drain (suc fuel) buffer ≡ ([], 0xff ∷ 0xd8 ∷ post)
unfolding drain round
drain_open fuel buffer post h k = ground (arith, h, k)

pub drain_frame :
    (fuel : ℕ) (buffer post body rest : Bytes)
    → after_soi buffer ≡ some post
    → until_eoi post ≡ some (body, rest)
    → drain (suc fuel) buffer ≡ (framed body ∷ (drain fuel rest).0, (drain fuel rest).1)
unfolding drain round
drain_frame fuel buffer post body rest h k = ground (arith, h, k)

length-rest-le :
    (buffer post body rest : Bytes)
    → after_soi buffer ≡ some post
    → until_eoi post ≡ some (body, rest)
    → length rest + 4 ≤ length buffer
length-rest-le buffer post body rest h k =
    omega (arith, length-after_soi buffer post h, length-until_eoi post body rest k)

-- What the loop leaves is no longer than what it got.
length-drain-le : (fuel : ℕ) (buffer : Bytes) → length (drain fuel buffer).1 ≤ length buffer
unfolding drain
length-drain-le zero buffer = omega arith
length-drain-le (suc fuel) buffer = elim (Option-cases (after_soi buffer)) [
  | inl no_start ↦ ground (arith, drain_skip fuel buffer no_start, length-last_two-le buffer)
  | inr (post, h) ↦ elim (Option-cases (until_eoi post)) [
    | inl no_end ↦
        ground (arith, drain_open fuel buffer post h no_end, length-after_soi buffer post h)
    | inr ((body, rest), k) ↦ ground (
      arith,
      drain_frame fuel buffer post body rest h k,
      length-rest-le buffer post body rest h k,
      length-drain-le fuel rest,
    )
  ]
]

-- Fuel for the length of the buffer is enough.
drain-suc :
    (fuel : ℕ) (buffer : Bytes) → length buffer ≤ fuel → drain (suc fuel) buffer ≡ drain fuel buffer
unfolding drain last_two after_soi
drain-suc zero [] h = refl
drain-suc zero (x ∷ r) h = absurd (omega (arith, h))
drain-suc (suc fuel) buffer h = elim (Option-cases (after_soi buffer)) [
  | inl no_start ↦ drain_skip (suc fuel) buffer no_start ∙ sym (drain_skip fuel buffer no_start)
  | inr (post, s) ↦ elim (Option-cases (until_eoi post)) [
    | inl no_end ↦
        drain_open (suc fuel) buffer post s no_end ∙ sym (drain_open fuel buffer post s no_end)
    | inr ((body, rest), k) ↦
        drain_frame (suc fuel) buffer post body rest s k
        ∙ ap (λ d. (framed body ∷ d.0, d.1))
            (drain-suc fuel rest (omega (arith, h, length-rest-le buffer post body rest s k)))
        ∙ sym (drain_frame fuel buffer post body rest s k)
  ]
]

drain-later :
    (extra fuel more : ℕ) (buffer : Bytes)
    → length buffer ≤ fuel
    → more ≡ extra + fuel
    → drain more buffer ≡ drain fuel buffer
drain-later zero fuel more buffer h e = ap (λ n. drain n buffer) (omega (arith, e))
drain-later (suc extra) fuel zero buffer h e = absurd (omega (arith, e))
drain-later (suc extra) fuel (suc more) buffer h e =
    drain-suc more buffer (omega (arith, h, e))
    ∙ drain-later extra fuel more buffer h (omega (arith, e))

-- Any two amounts of fuel that are at least the buffer's length give the same.
pub drain-fuel :
    (f g : ℕ) (buffer : Bytes)
    → length buffer ≤ f
    → length buffer ≤ g
    → drain f buffer ≡ drain g buffer
drain-fuel f g buffer hf hg =
    sym (drain-later g f (g + f) buffer hf refl) ∙ drain-later f g (g + f) buffer hg (omega arith)

-- The loop without fuel: it runs from the buffer to its `break`, with these frames and this rest.
pub data Runs : Bytes → List Bytes × Bytes → Type 0 where
  at_break : {buffer left : Bytes} → round buffer ≡ breaks left → Runs buffer ([], left)
  at_frame :
      {buffer frame rest left : Bytes} {frames : List Bytes}
      → round buffer ≡ yields frame rest
      → Runs rest (frames, left)
      → Runs buffer (frame ∷ frames, left)

-- The reader's loop over a buffer ends with a `break`, whatever the buffer holds: the rounds of the
-- source's loop, which has no fuel, lead from the buffer to the frames and the rest that `drain` gives on
-- any fuel from the buffer's length on.
pub drain-Runs :
    (fuel : ℕ) (buffer : Bytes) → length buffer ≤ fuel → Runs buffer (drain fuel buffer)
unfolding drain round last_two after_soi
drain-Runs zero [] h = at_break refl
drain-Runs zero (x ∷ r) h = absurd (omega (arith, h))
drain-Runs (suc fuel) buffer h = elim (Option-cases (after_soi buffer)) [
  | inl no_start ↦
      subst (Runs buffer) (sym (drain_skip fuel buffer no_start))
        (at_break (ground (arith, no_start)))
  | inr (post, s) ↦ elim (Option-cases (until_eoi post)) [
    | inl no_end ↦
        subst (Runs buffer) (sym (drain_open fuel buffer post s no_end))
          (at_break (ground (arith, s, no_end)))
    | inr ((body, rest), k) ↦
        subst (Runs buffer) (sym (drain_frame fuel buffer post body rest s k)) (
          at_frame (ground (arith, s, k))
            (drain-Runs fuel rest (omega (arith, h, length-rest-le buffer post body rest s k))))
  ]
]

-- All of the bytes of a stream.
abbrev pub concat : List Bytes → Bytes
concat [] = []
concat (c ∷ cs) = c ++ concat cs

-- A pass that has yielded and left `d`, followed by one over what is left and the next chunk.
abbrev pub resumed : (fuel : ℕ) → List Bytes × Bytes → Bytes → List Bytes × Bytes
resumed fuel d chunk = (d.0 ++ (drain fuel (d.1 ++ chunk)).0, (drain fuel (d.1 ++ chunk)).1)

drain-open :
    (fuel : ℕ) (a b post : Bytes)
    → after_soi a ≡ some post
    → after_soi b ≡ some post
    → drain (suc fuel) a ≡ drain (suc fuel) b
drain-open fuel a b post h k = elim (Option-cases (until_eoi post)) [
  | inl no_end ↦ drain_open fuel a post h no_end ∙ sym (drain_open fuel b post k no_end)
  | inr ((body, rest), e) ↦
      drain_frame fuel a post body rest h e ∙ sym (drain_frame fuel b post body rest k e)
]

drain-same :
    (fuel : ℕ) (a b : Bytes)
    → after_soi a ≡ after_soi b
    → last_two a ≡ last_two b
    → drain (suc fuel) a ≡ drain (suc fuel) b
drain-same fuel a b s l = elim (Option-cases (after_soi b)) [
  | inl no_start ↦
      drain_skip fuel a (s ∙ no_start) ∙ ap (λ x. ([], x)) l ∙ sym (drain_skip fuel b no_start)
  | inr (post, k) ↦ drain-open fuel a b post (s ∙ k) k
]

shorter :
    (fuel : ℕ) (buffer rest chunk : Bytes)
    → length (buffer ++ chunk) ≤ suc fuel
    → length rest + 4 ≤ length buffer
    → length (rest ++ chunk) ≤ fuel
shorter fuel buffer rest chunk h k =
    omega (arith, h, k, length-append buffer chunk, length-append rest chunk)

-- One pass over the buffer and the next chunk is a pass over the buffer, and one over what is left.
pub drain-append :
    (fuel : ℕ) (buffer chunk : Bytes)
    → length (buffer ++ chunk) ≤ fuel
    → drain fuel (buffer ++ chunk) ≡ resumed fuel (drain fuel buffer) chunk
unfolding drain last_two after_soi
drain-append zero [] [] h = refl
drain-append zero [] (y ∷ c) h = absurd (omega (arith, h))
drain-append zero (x ∷ r) chunk h = absurd (omega (arith, h))
drain-append (suc fuel) buffer chunk h = elim (Option-cases (after_soi buffer)) [
  | inl no_start ↦
      drain-same fuel (buffer ++ chunk) (last_two buffer ++ chunk)
        (sym (after_soi-last_two buffer chunk no_start)) (sym (last_two-append buffer chunk))
      ∙ ap (λ d. resumed (suc fuel) d chunk) (sym (drain_skip fuel buffer no_start))
  | inr (post, s) ↦ elim (Option-cases (until_eoi post)) [
    | inl no_end ↦
        drain-open fuel (buffer ++ chunk) (0xff ∷ 0xd8 ∷ post ++ chunk) (post ++ chunk)
          (after_soi-append buffer chunk post s) refl
        ∙ ap (λ d. resumed (suc fuel) d chunk) (sym (drain_open fuel buffer post s no_end))
    | inr ((body, rest), k) ↦
        drain_frame fuel (buffer ++ chunk) (post ++ chunk) body (rest ++ chunk)
          (after_soi-append buffer chunk post s) (until_eoi-append post chunk body rest k)
        ∙ ap (λ d. (framed body ∷ d.0, d.1))
            (drain-append fuel rest chunk
                (shorter fuel buffer rest chunk h (length-rest-le buffer post body rest s k))
              ∙ ap (λ d. ((drain fuel rest).0 ++ d.0, d.1))
                  (sym (
                    drain-suc fuel ((drain fuel rest).1 ++ chunk) (
                      shorter fuel buffer (drain fuel rest).1 chunk h (
                        omega (
                          arith,
                          length-drain-le fuel rest,
                          length-rest-le buffer post body rest s k,
                        ))))))
        ∙ ap (λ d. resumed (suc fuel) d chunk) (sym (drain_frame fuel buffer post body rest s k))
  ]
]

fits :
    (buffer c d left : Bytes)
    → length left ≤ length (buffer ++ c)
    → length (left ++ d) ≤ length (buffer ++ (c ++ d))
fits buffer c d left h = omega (
  arith,
  h,
  length-append buffer (c ++ d),
  length-append buffer c,
  length-append c d,
  length-append left d,
)

-- A chunk in two pieces gives the frames of the whole chunk, and leaves the same buffer.
feed-append :
    (buffer c d : Bytes)
    → feed buffer (c ++ d)
      ≡ ((feed buffer c).0 ++ (feed (feed buffer c).1 d).0, (feed (feed buffer c).1 d).1)
unfolding feed
feed-append buffer c d =
    let whole = length (buffer ++ (c ++ d)) in
    let left = (feed buffer c).1 in
    let left_fits = fits buffer c d left (length-drain-le (length (buffer ++ c)) (buffer ++ c)) in
    ap (λ x. drain whole x) (sym (append_assoc buffer c d))
    ∙ drain-append whole (buffer ++ c) d (fits buffer c d (buffer ++ c) (omega arith))
    ∙ ap (λ x. resumed whole x d)
        (drain-fuel whole (length (buffer ++ c)) (buffer ++ c)
          (omega
            (arith, fits buffer c d (buffer ++ c) (omega arith), length-append (buffer ++ c) d))
          (omega arith))
    ∙ ap (λ x. ((feed buffer c).0 ++ x.0, x.1))
        (drain-fuel whole (length (left ++ d)) (left ++ d) left_fits (omega arith))

-- However a stream is cut into chunks, once a chunk has come in, the reader has yielded the frames,
-- and keeps the buffer, of one pass over all of its bytes.
pub feed_all-concat :
    (buffer c : Bytes) (cs : List Bytes) → feed_all buffer (c ∷ cs) ≡ feed buffer (concat (c ∷ cs))
unfolding feed_all
feed_all-concat buffer c [] =
    ap (λ x. (x, (feed buffer c).1)) (append-nil (feed buffer c).0)
    ∙ ap (feed buffer) (sym (append-nil c))
feed_all-concat buffer c (d ∷ cs) =
    ap (λ x. ((feed buffer c).0 ++ x.0, x.1)) (feed_all-concat (feed buffer c).1 d cs)
    ∙ sym (feed-append buffer c (concat (d ∷ cs)))
