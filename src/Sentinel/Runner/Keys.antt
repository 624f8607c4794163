-- ===== src/Sentinel/Runner/Keys.antt =====
-- The foreign keys over all the frames of the loop.
use cat_sentinel.Prelude.{ℕ, suc, ◌≤◌, refl, sym, subst, List, [], ◌∷◌, Option, take, arith}
use cat_sentinel.Prelude.Floats.{Floats}
use cat_sentinel.Sentinel.Mjpeg.{Bytes}
use cat_sentinel.Sentinel.Tracker.{SetOrder}
use cat_sentinel.Sentinel.Pipeline.{Pipeline, World, process_frame}
use cat_sentinel.Sentinel.Pipeline.References.{IsTame, Refers}
use cat_sentinel.Sentinel.Pipeline.References.Kept.{process_frame-Refers}
use cat_sentinel.Sentinel.Runner.{Connection, Loop, run_forever}
use cat_sentinel.Sentinel.Runner.Frames.{values, looks_of, process_all, run_forever-values}

module _ (F : Floats) (S : SetOrder) {Image : Type 0} (decode : Bytes → Option Image)
    (meets : (n : ℕ) → Image → World F) (start : ℕ)
    (tame : (n : ℕ) (f : Image) → IsTame start (meets n f).others) where
  process_all-Refers :
      (n : ℕ) (fs : List Image) (s : Pipeline F)
      → start ≤ s.next_uuid
      → Refers F s
      → Refers F (process_all F S decode meets n fs s)
  unfolding process_all
  process_all-Refers n [] s begun v = v
  process_all-Refers n (f ∷ fs) s begun v =
      let (v', later) = process_frame-Refers F (meets n f) S start s (tame n f) begun v in
      process_all-Refers (suc n) fs (process_frame F (meets n f) S s) (omega (arith, begun, later))
        v'

  -- Whatever the frames hold and wherever they fail, every row that the loop writes meets its foreign
  -- keys, and refers to rows of its own camera: a detection to its cat and, exactly if it is in a danger
  -- zone, to that zone, an alert to its cat and its zone, an activity to its cat. If it was so before, the
  -- ids of the zones differ, no zone changes while the loop runs, and the other sessions delete no cat, move none to another camera or track,
  -- keep one row for each track of a camera, and take no uuid that the loop hands out.
  pub run_forever-Refers :
      (cs : List Connection) (l : Loop F)
      → start ≤ l.pipeline.next_uuid
      → Refers F l.pipeline
      → Refers F (run_forever F S decode meets cs l).pipeline
  run_forever-Refers cs l begun v =
      subst (Refers F) (sym (run_forever-values F S decode meets l.checks cs l refl)) (
        process_all-Refers l.processed (values (take l.checks (looks_of decode cs))) l.pipeline
          begun v)
