-- ===== src/Sentinel/Runner/Tests.antt =====
-- Two connections, the first of which fails after a frame that does not decode.
use cat_sentinel.Prelude.{
  length, lookup, ◌*◌, ℕ, ◌+◌, ◌≡◌, refl, true, false, List, [], ◌∷◌, Option, none, some, arith,
}
use cat_sentinel.Prelude.Int.{pos}
use cat_sentinel.Prelude.Floats.{scaled}
use cat_sentinel.Sentinel.Mjpeg.{Bytes}
use cat_sentinel.Sentinel.Tracker.{in_order, new_tracker}
use cat_sentinel.Sentinel.Alerts.{responded}
use cat_sentinel.Sentinel.Alerts.Posts.{AreSpaced}
use cat_sentinel.Sentinel.Pipeline
use cat_sentinel.Sentinel.Pipeline.{
  Pipeline, World, in_zone, matched_zone, confidence_of, cat_for_track, ask_cooldown, mark_cooldown,
  fire_alert, alert_for, alert_if, process_track, process_tracks, frame_body, process_frame,
}
use cat_sentinel.Sentinel.Runner.{Connection, Loop, run_forever, decoded_frames}
use cat_sentinel.Sentinel.Runner.Frames.{
  looks_of, frames_of, failures, process_all, run_forever-all,
}
use cat_sentinel.Sentinel.Pipeline.References.{IsTame, Refers}
use cat_sentinel.Sentinel.Runner.Keys.{run_forever-Refers}
use cat_sentinel.Sentinel.Runner.Alarms.{run_posts, run_forever-AreSpaced}

-- The first byte is the image; no byte, no image.
abbrev decode : Bytes → Option ℕ
decode [] = none
decode (x ∷ xs) = some x

abbrev meets : ℕ → ℕ → World scaled
meets n image = record {
  detections = some [];
  encodes = true;
  clock = λ i. n;
  webhook = λ id. responded 200;
  others = λ t. t;
}

abbrev connections : List Connection
connections =
    record { raw_jpegs = (1 ∷ []) ∷ [] ∷ []; fails = true }
    ∷ record { raw_jpegs = (2 ∷ []) ∷ (3 ∷ []) ∷ []; fails = false }
    ∷ []

abbrev idle : Pipeline scaled
unfolding scaled new_tracker
idle = record {
  camera_id = "default";
  tracker = new_tracker scaled (pos 5625) 30;
  cooldown = record { cooldown_seconds = 60; last_fired = [] };
  zones = [];
  cats = [];
  detections = [];
  activities = [];
  alerts = [];
  next_uuid = 10;
  clock_calls = 0;
  published = 0;
}

abbrev looking : ℕ → Loop scaled
looking checks = record { checks = checks; processed = 0; sleeps = 0; pipeline = idle }

all_frames : frames_of decode connections ≡ 1 ∷ 2 ∷ 3 ∷ []
unfolding frames_of decoded_frames
all_frames = refl

run_forever-all_example :
    ((run_forever scaled in_order decode meets connections (looking 9)).pipeline
      ≡ process_all scaled in_order decode meets 0 (frames_of decode connections) idle)
    × ((run_forever scaled in_order decode meets connections (looking 9)).sleeps
        ≡ 0 + failures connections)
unfolding looks_of decoded_frames
run_forever-all_example =
    run_forever-all scaled in_order decode meets connections (looking 9) (omega arith)

-- A cat that stays in a zone, over three frames half a minute apart.
abbrev half_minutes : ℕ → ℕ → World scaled
half_minutes n image = record Pipeline.Tests.world { clock = λ i. 35 * n + i }

abbrev watching : Loop scaled
watching = record (looking 9) { pipeline = Pipeline.Tests.idle }

run_forever-AreSpaced_example :
    AreSpaced 60 (run_posts scaled in_order decode half_minutes connections watching)
    × (length (run_forever scaled in_order decode half_minutes connections watching).pipeline.alerts
        ≡ 0 + length (run_posts scaled in_order decode half_minutes connections watching))
unfolding lookup Pipeline.Tests.idle
run_forever-AreSpaced_example =
    run_forever-AreSpaced scaled in_order decode half_minutes (λ n f k. omega arith) connections
      watching (λ i h. refl)

alone : IsTame 0 (λ t. t)
alone = record {
  valid = λ t v. v;
  grows = λ t v j c found. (c, found, refl);
  unused = λ t n h u. u;
}

idle-Refers : Refers scaled Pipeline.Tests.idle
unfolding lookup Pipeline.Tests.idle
idle-Refers = record {
  cats_valid = record { distinct = tt; unique = λ i j v w e. cc e };
  zones_distinct = (refl, tt);
  unused = λ i h. refl;
  detections = tt;
  activities = tt;
  alerts = λ i a e. cc e;
}

run_forever-Refers_example :
    Refers scaled (run_forever scaled in_order decode half_minutes connections watching).pipeline
run_forever-Refers_example =
    run_forever-Refers scaled in_order decode half_minutes 0 (λ n f. alone) connections watching
      (omega arith) idle-Refers
