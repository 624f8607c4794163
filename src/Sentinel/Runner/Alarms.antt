-- ===== src/Sentinel/Runner/Alarms.antt =====
-- The alerts that the loop raises over all its frames.
use cat_sentinel.Prelude.{
  ℕ, suc, ◌+◌, ◌≤◌, ◌≡◌, ◌∙◌, refl, ap, List, [], ◌∷◌, ◌++◌, Option, length, take, arith,
}
use cat_sentinel.Prelude.Floats.{Floats}
use cat_sentinel.Sentinel.Mjpeg.{Bytes}
use cat_sentinel.Sentinel.Tracker.{SetOrder}
use cat_sentinel.Sentinel.Alerts.Posts.{Post, AreSpaced, Follows-AreSpaced}
use cat_sentinel.Sentinel.Pipeline.{Pipeline, World, process_frame}
use cat_sentinel.Sentinel.Pipeline.Cadence.{IsFresh, Raises, nil-Raises, append-Raises, frame_posts}
use cat_sentinel.Sentinel.Pipeline.Cadence.Tracks.{process_frame-Raises}
use cat_sentinel.Sentinel.Runner.{Connection, Loop, run_forever}
use cat_sentinel.Sentinel.Runner.Frames.{values, looks_of, process_all, run_forever-values}

module _ (F : Floats) (S : SetOrder) {Image : Type 0} (decode : Bytes → Option Image)
    (meets : (n : ℕ) → Image → World F) where
  -- The alerts of the frames, counted from `n`.
  unfoldable pub all_posts : ℕ → List Image → Pipeline F → List Post
  all_posts n [] s = []
  all_posts n (f ∷ fs) s =
      frame_posts F (meets n f) S s ++ all_posts (suc n) fs (process_frame F (meets n f) S s)

  -- The alerts of a run: of the frames before its first look at a set flag.
  abbrev pub run_posts : List Connection → Loop F → List Post
  run_posts cs l = all_posts l.processed (values (take l.checks (looks_of decode cs))) l.pipeline

  module _
      (forward : (n : ℕ) (f : Image) (k : ℕ)
        → (meets n f).clock k ≤ (meets n f).clock (suc k)) where
    process_all-Raises :
        (n : ℕ) (fs : List Image) (s : Pipeline F)
        → IsFresh F s
        → Raises F s (process_all F S decode meets n fs s) (all_posts n fs s)
    unfolding all_posts process_all
    process_all-Raises n [] s f = nil-Raises F s s f (omega arith) refl refl
    process_all-Raises n (x ∷ xs) s f =
        let s' = process_frame F (meets n x) S s in
        let first = process_frame-Raises F (meets n x) (forward n x) S s f in
        append-Raises F s s' (process_all F S decode meets (suc n) xs s')
          (frame_posts F (meets n x) S s) (all_posts (suc n) xs s') first
          (process_all-Raises (suc n) xs s' first.fresh)

    -- However many frames, connections and failures the loop goes through: the alerts that it adds to the
    -- table, in their order, are such that behind one whose webhook call came back, any other for the same
    -- cat and zone is at least `cooldown_seconds` later, from the mark of the one to the check of the other;
    -- and it adds no other alert. If the clock does not run backwards from one call to the next, and no
    -- alert has a uuid that is handed out later.
    pub run_forever-AreSpaced :
        (cs : List Connection) (l : Loop F)
        → IsFresh F l.pipeline
        → AreSpaced l.pipeline.cooldown.cooldown_seconds (run_posts cs l)
          × (length (run_forever F S decode meets cs l).pipeline.alerts
              ≡ length l.pipeline.alerts + length (run_posts cs l))
    run_forever-AreSpaced cs l f =
        let frames = values (take l.checks (looks_of decode cs)) in
        let all = process_all-Raises l.processed frames l.pipeline f in
        (
          Follows-AreSpaced (run_posts cs l) l.pipeline.cooldown
              (process_all F S decode meets l.processed frames l.pipeline).cooldown all.follows,
          ap (λ s. length s.alerts) (run_forever-values F S decode meets l.checks cs l refl)
              ∙ all.counted,
        )
