-- ===== src/Sentinel/Lifespan/Served.antt =====
-- What the application of cat-sentinel does with its pipeline, from its start to its end.
use cat_sentinel.Prelude.{ℕ, ◌≡◌, Bool, true, false, List, Option, none, some, Outcome, ok, take}
use cat_sentinel.Prelude.Floats.{Floats}
use cat_sentinel.Sentinel.Mjpeg.{Bytes}
use cat_sentinel.Sentinel.Tracker.{SetOrder}
use cat_sentinel.Sentinel.Pipeline.{Pipeline, World}
use cat_sentinel.Sentinel.Runner.{Connection, Loop, run_forever}
use cat_sentinel.Sentinel.Runner.Frames.{values, looks_of, process_all}
use cat_sentinel.Sentinel.Lifespan.{
  Settings, Task, running, finished, App, new_app, new_pipeline, await_cancelled,
}

module _ (F : Floats) (Err : Type 0) (S : SetOrder) {Image : Type 0} (decode : Bytes → Option Image)
    (meets : (n : ℕ) → Image → World F) where
  -- The state that the cancellation leaves: the frame under way is cut short, if the task runs.
  abbrev pub cut_short : (cut : Pipeline F → Pipeline F) → Task Err → Pipeline F → Pipeline F
  cut_short cut running s = cut s
  cut_short cut (finished o) s = s

  -- The pipeline has gone through the frames before the stop and the task has ended.
  abbrev pub HasServed :
      Settings F
      → (checks : ℕ) → List Connection
      → Task Err
      → (cut : Pipeline F → Pipeline F) → (database : Pipeline F)
      → Outcome Err (Unit {0}) × App F Err
      → Type 0
  HasServed settings checks cs t cut database (r, a) =
      (l : Loop F) × (a.pipeline ≡ some l)
      × (l.pipeline
          ≡ cut_short cut t (
              process_all F S decode meets 0 (values (take checks (looks_of decode cs)))
                (new_pipeline F settings none database)))
      × ((later : List Connection) → run_forever F S decode meets later l ≡ l)
      × (a.task ≡ some (finished r))

  -- By whether the settings enable the pipeline.
  abbrev pub Serves :
      (enabled : Bool)
      → Settings F
      → (checks : ℕ) → List Connection
      → Task Err
      → (cut : Pipeline F → Pipeline F) → (database : Pipeline F)
      → Outcome Err (Unit {0}) × App F Err
      → Type 0
  Serves true settings checks cs t cut database r =
      (r.0 ≡ await_cancelled F Err t) × HasServed settings checks cs t cut database r
  Serves false settings checks cs t cut database r = r ≡ (ok tt, new_app F Err)
