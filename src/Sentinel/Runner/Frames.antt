-- ===== src/Sentinel/Runner/Frames.antt =====
-- Which frames the loop processes.
use cat_sentinel.Prelude.{
  ℕ, zero, suc, ◌+◌, ◌-◌, ◌≤◌, ◌≡◌, refl, sym, ap, ◌∙◌, Bool, true, false, List, [], ◌∷◌, ◌++◌, map,
  Option, none, some, arith, length, length-append, take, take_all, if◌then◌else◌,
}
use cat_sentinel.Prelude.Floats.{Floats}
use cat_sentinel.Sentinel.Mjpeg.{Bytes}
use cat_sentinel.Sentinel.Tracker.{SetOrder}
use cat_sentinel.Sentinel.Pipeline.{Pipeline, World, process_frame}
use cat_sentinel.Sentinel.Runner.{
  decoded_frames, Connection, Loop, over_frames, after_frames, run_forever,
}

module _ {A : Type 0} where
  -- The values among them.
  unfoldable pub values : List (Option A) → List A
  values [] = []
  values (none ∷ os) = values os
  values (some a ∷ os) = a ∷ values os

  values-take-append :
      (k : ℕ) (xs : List A) (os : List (Option A))
      → values (take k (map some xs ++ os)) ≡ take k xs ++ values (take (k - length xs) os)
  unfolding values
  values-take-append zero xs os =
      ap (λ n. values (take n os)) {x = 0} {y = 0 - length xs} (omega arith)
  values-take-append (suc k) [] os =
      ap (λ n. values (take n os)) {x = suc k} {y = suc k - 0} (omega arith)
  values-take-append (suc k) (x ∷ xs) os =
      ap (λ r. x ∷ r) (values-take-append k xs os)
      ∙ ap (λ n. x ∷ take k xs ++ values (take n os)) {x = k - length xs}
          {y = suc k - suc (length xs)} (omega arith)

  pub length-map-some : (xs : List A) → length (map some xs) ≡ length xs
  length-map-some [] = refl
  length-map-some (x ∷ xs) = ap suc (length-map-some xs)

-- The connections that end with an exception.
unfoldable pub failures : List Connection → ℕ
failures [] = 0
failures (c ∷ cs) = let rest = failures cs in if c.fails then suc rest else rest

module _ {Image : Type 0} (decode : Bytes → Option Image) where
  -- The looks at the stop flag that a connection brings: one before it, and one before each frame.
  unfoldable pub looks_of : List Connection → List (Option Image)
  looks_of [] = []
  looks_of (c ∷ cs) = none ∷ (map some (decoded_frames decode c.raw_jpegs) ++ looks_of cs)

  -- All frames of all connections.
  unfoldable pub frames_of : List Connection → List Image
  frames_of [] = []
  frames_of (c ∷ cs) = decoded_frames decode c.raw_jpegs ++ frames_of cs

  values-looks_of :
      (k : ℕ) (cs : List Connection)
      → length (looks_of cs) ≤ k
      → values (take k (looks_of cs)) ≡ frames_of cs
  unfolding looks_of frames_of values
  values-looks_of zero [] h = refl
  values-looks_of (suc k) [] h = refl
  values-looks_of zero (c ∷ cs) h = absurd (omega (arith, h))
  values-looks_of (suc k) (c ∷ cs) h =
      let fs = decoded_frames decode c.raw_jpegs in
      let n = length-append (map some fs) (looks_of cs) in
      let m = length-map-some fs in
      values-take-append k fs (looks_of cs)
      ∙ ap (λ x. x ++ values (take (k - length fs) (looks_of cs)))
          (take_all k fs (omega (arith, h, n, m)))
      ∙ ap (λ x. fs ++ x) (values-looks_of (k - length fs) cs (omega (arith, h, n, m)))

module _ (F : Floats) (S : SetOrder) {Image : Type 0} (decode : Bytes → Option Image)
    (meets : (n : ℕ) → Image → World F) where
  -- The frames processed one after another, counted from `n`.
  unfoldable pub process_all : ℕ → List Image → Pipeline F → Pipeline F
  process_all n [] s = s
  process_all n (f ∷ fs) s = process_all (suc n) fs (process_frame F (meets n f) S s)

  process_all-append :
      (n : ℕ) (fs gs : List Image) (s : Pipeline F)
      → process_all n (fs ++ gs) s ≡ process_all (n + length fs) gs (process_all n fs s)
  unfolding process_all
  process_all-append n [] gs s = ap (λ m. process_all m gs s) (omega arith)
  process_all-append n (f ∷ fs) gs s =
      process_all-append (suc n) fs gs (process_frame F (meets n f) S s)
      ∙ ap (λ m. process_all m gs (process_all (suc n) fs (process_frame F (meets n f) S s)))
          (omega arith)

  -- The loop over one connection, in terms of what it is given.
  over_frames_lem :
      (k : ℕ) (fs : List Image) (l : Loop F)
      → l.checks ≡ k
      → let r = (over_frames F S decode meets fs l).1 in
        (r.pipeline ≡ process_all l.processed (take k fs) l.pipeline)
        × (r.processed ≡ l.processed + length (take k fs))
        × (r.checks ≡ k - length fs)
  unfolding over_frames process_all
  over_frames_lem zero [] l e = ground (arith, e)
  over_frames_lem (suc k) [] l e = ground (arith, e)
  over_frames_lem zero (f ∷ fs) l e = ground (arith, e)
  over_frames_lem (suc k) (f ∷ fs) l e = ground (
    arith,
    e,
    over_frames_lem k fs
        (record l {
          checks = k;
          processed = suc l.processed;
          pipeline = process_frame F (meets l.processed f) S l.pipeline;
        })
        refl,
  )

  after_frames_lem :
      (fails : Bool) (r : Bool × Loop F)
      → ((after_frames F fails r).pipeline ≡ r.1.pipeline)
        × ((after_frames F fails r).processed ≡ r.1.processed)
        × ((after_frames F fails r).checks ≡ r.1.checks)
  after_frames_lem fails (true, l) = (refl, refl, refl)
  after_frames_lem true (false, l) = (refl, refl, refl)
  after_frames_lem false (false, l) = (refl, refl, refl)

  -- The loop processes the frames that lie before its first look at a set flag, connection after
  -- connection and in order: those among the first `checks` looks. No exception of a stream loses a frame
  -- that came before it, or ends the loop.
  pub run_forever-values :
      (k : ℕ) (cs : List Connection) (l : Loop F)
      → l.checks ≡ k
      → (run_forever F S decode meets cs l).pipeline
        ≡ process_all l.processed (values (take k (looks_of decode cs))) l.pipeline
  unfolding run_forever looks_of values process_all
  run_forever-values zero [] l e = refl
  run_forever-values (suc k) [] l e = refl
  run_forever-values zero (c ∷ cs) l e = ground (arith, e)
  run_forever-values (suc k) (c ∷ cs) l e =
      let fs = decoded_frames decode c.raw_jpegs in
      let l1 : Loop F = record l { checks = k } in
      let r = over_frames F S decode meets fs l1 in
      let l2 = after_frames F c.fails r in
      let (p, n, m) = over_frames_lem k fs l1 refl in
      let (p', n', m') = after_frames_lem c.fails r in
      let later = values (take (k - length fs) (looks_of decode cs)) in
      let step : run_forever F S decode meets (c ∷ cs) l ≡ run_forever F S decode meets cs l2 =
        ground (arith, e) in
      ap (λ x. x.pipeline) step
      ∙ run_forever-values (k - length fs) cs l2 (m' ∙ m)
      ∙ ap (λ i. process_all i later l2.pipeline) (n' ∙ n)
      ∙ ap (process_all (l.processed + length (take k fs)) later) (p' ∙ p)
      ∙ sym (process_all-append l.processed (take k fs) later l.pipeline)
      ∙ ap (λ ys. process_all l.processed ys l.pipeline)
          (sym (values-take-append k fs (looks_of decode cs)))

  over_frames-through :
      (k : ℕ) (fs : List Image) (l : Loop F)
      → l.checks ≡ k
      → length fs ≤ k
      → ((over_frames F S decode meets fs l).0 ≡ false)
        × ((over_frames F S decode meets fs l).1.sleeps ≡ l.sleeps)
  unfolding over_frames
  over_frames-through k [] l e h = (refl, refl)
  over_frames-through zero (f ∷ fs) l e h = absurd (omega (arith, h))
  over_frames-through (suc k) (f ∷ fs) l e h = ground (
    arith,
    e,
    over_frames-through k fs
        (record l {
          checks = k;
          processed = suc l.processed;
          pipeline = process_frame F (meets l.processed f) S l.pipeline;
        })
        refl (omega (arith, h)),
  )

  after_frames-sleeps :
      (fails : Bool) (r : Bool × Loop F)
      → r.0 ≡ false
      → (after_frames F fails r).sleeps ≡ (if fails then suc r.1.sleeps else r.1.sleeps)
  after_frames-sleeps fails (true, l) e = absurd (ground (arith, e))
  after_frames-sleeps true (false, l) e = refl
  after_frames-sleeps false (false, l) e = refl

  run_forever-sleeps :
      (k : ℕ) (cs : List Connection) (l : Loop F)
      → l.checks ≡ k
      → length (looks_of decode cs) ≤ k
      → (run_forever F S decode meets cs l).sleeps ≡ l.sleeps + failures cs
  unfolding run_forever looks_of failures
  run_forever-sleeps k [] l e h = omega arith
  run_forever-sleeps zero (c ∷ cs) l e h = absurd (omega (arith, h))
  run_forever-sleeps (suc k) (c ∷ cs) l e h =
      let fs = decoded_frames decode c.raw_jpegs in
      let l1 : Loop F = record l { checks = k } in
      let r = over_frames F S decode meets fs l1 in
      let n = length-append (map some fs) (looks_of decode cs) in
      let m = length-map-some fs in
      let (_, _, checks) = over_frames_lem k fs l1 refl in
      let (_, _, checks') = after_frames_lem c.fails r in
      let (through, still) = over_frames-through k fs l1 refl (omega (arith, h, n, m)) in
      let slept = after_frames-sleeps c.fails r through in
      let rest =
        run_forever-sleeps (k - length fs) cs (after_frames F c.fails r) (checks' ∙ checks)
          (omega (arith, h, n, m)) in
      ground (arith, e, rest, slept, still)

  -- If no stop comes before the end of the last connection, then every frame of every connection that
  -- decodes is processed, in order, and the loop sleeps once for each connection that ended with an
  -- exception, and for no other.
  pub run_forever-all :
      (cs : List Connection) (l : Loop F)
      → length (looks_of decode cs) ≤ l.checks
      → ((run_forever F S decode meets cs l).pipeline
          ≡ process_all l.processed (frames_of decode cs) l.pipeline)
        × ((run_forever F S decode meets cs l).sleeps ≡ l.sleeps + failures cs)
  run_forever-all cs l h = (
    run_forever-values l.checks cs l refl
        ∙ ap (λ fs. process_all l.processed fs l.pipeline) (values-looks_of decode l.checks cs h),
    run_forever-sleeps l.checks cs l refl h,
  )
