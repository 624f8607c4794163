-- ===== src/Sentinel/Lifespan/Tests.antt =====
-- A run with the default settings, and a restart over the rows of an earlier run.
use cat_sentinel.Prelude.{
  ℕ, suc, ◌≡◌, refl, false, List, [], ◌∷◌, Option, none, some, lookup, arith, ℕ_discrete,
}
use cat_sentinel.Prelude.Int.{pos}
use cat_sentinel.Prelude.Floats.{scaled}
use cat_sentinel.Sentinel.Mjpeg.{Bytes}
use cat_sentinel.Sentinel.Tracker.{in_order, new_tracker}
use cat_sentinel.Sentinel.Cats.{new_cat}
use cat_sentinel.Sentinel.Cats.Race
use cat_sentinel.Sentinel.Pipeline.{Detection, Pipeline}
use cat_sentinel.Sentinel.Pipeline.Tests.{cat_seen, idle, world, known, known_after, known_frame}
use cat_sentinel.Sentinel.Runner.{Connection}
use cat_sentinel.Sentinel.Lifespan.{Settings, default_settings, new_pipeline}
use cat_sentinel.Sentinel.Lifespan.Restart.{frame_body-new_pipeline}

abbrev settings : Settings scaled
unfolding scaled
settings = default_settings scaled (pos 1) (pos 5625) (pos 1)

abbrev decode : Bytes → Option ℕ
decode [] = none
decode (x ∷ xs) = some x

abbrev connections : List Connection
connections = record { raw_jpegs = (1 ∷ []) ∷ (2 ∷ []) ∷ []; fails = false } ∷ []

-- The frame under way has taken a number for a new cat.
abbrev halfway : Pipeline scaled → Pipeline scaled
halfway s = record s { next_uuid = suc s.next_uuid }

known-IsValid : Race.IsValid known.cats
unfolding known idle lookup ℕ_discrete
known-IsValid = record { distinct = (refl, tt); unique = λ i j v w e f q. ground (arith, e, f) }

frame_body-new_pipeline_example :
    (d : Detection scaled) × (known_after.detections ≡ d ∷ known.detections) × (d.cat_id ≡ 4)
unfolding known idle settings new_pipeline new_tracker lookup ℕ_discrete
frame_body-new_pipeline_example =
    frame_body-new_pipeline scaled in_order world settings known known_after cat_seen 4
      (new_cat "default" 1) known-IsValid refl refl known_frame
