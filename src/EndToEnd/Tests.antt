-- ===== src/EndToEnd/Tests.antt =====
-- Three states of the camera, with two frames, and a pipeline that finds nothing in them.
use mathlib.Core.List.{append-nil}
use cat_sentinel.Prelude.{ℕ, ◌≡◌, refl, true, List, [], ◌∷◌, Option, none, some, arith}
use cat_sentinel.Prelude.Int.{pos}
use cat_sentinel.Prelude.Floats.{scaled}
use cat_sentinel.Camera.Bridge.{RtspCamera, new_camera, is_running}
use cat_sentinel.Camera.Viewer.{get_frame, mjpeg_generator}
use cat_sentinel.Camera.Viewer.Polled.{squeeze, met}
use cat_sentinel.Sentinel.Mjpeg.{Bytes, framed, until_eoi}
use cat_sentinel.Sentinel.Mjpeg.Stream.{concat}
use cat_sentinel.Sentinel.Tracker.{in_order, new_tracker}
use cat_sentinel.Sentinel.Alerts.{responded}
use cat_sentinel.Sentinel.Pipeline.{Pipeline, World}
use cat_sentinel.Sentinel.Runner.{decoded_frames, Loop, run_forever}
use cat_sentinel.Sentinel.Runner.Frames.{process_all}
use cat_sentinel.EndToEnd.Frames.{read_from, run_forever-mjpeg_generator}

-- The third byte of these images tells them apart.
abbrev decode : Bytes → Option ℕ
decode (a ∷ b ∷ c ∷ rest) = some c
decode _ = none

abbrev meets : ℕ → ℕ → World scaled
meets n image = record {
  detections = some [];
  encodes = true;
  clock = λ i. n;
  webhook = λ id. responded 200;
  others = λ t. t;
}

abbrev idle : Pipeline scaled
unfolding scaled new_tracker
idle = record {
  camera_id = "default";
  tracker = new_tracker scaled (pos 5625) 30;
  cooldown = record { cooldown_seconds = 60; last_fired = [] };
  zones = [];
  cats = [];
  detections = [];
  activities = [];
  alerts = [];
  next_uuid = 10;
  clock_calls = 0;
  published = 0;
}

abbrev looking : ℕ → Loop scaled
looking checks = record { checks = checks; processed = 0; sleeps = 0; pipeline = idle }

abbrev jpeg_of : ℕ → Bytes
jpeg_of n = framed (n ∷ [])

abbrev showing : ℕ → RtspCamera
unfolding new_camera
showing n = record new_camera { thread_alive = true; latest_jpeg = some n }

-- The last state is that of a camera that has been stopped.
abbrev states : List RtspCamera
states =
    record new_camera { thread_alive = true }
    ∷ showing 1
    ∷ showing 1
    ∷ showing 2
    ∷ new_camera
    ∷ showing 3
    ∷ []

abbrev stream : Bytes
stream = concat (mjpeg_generator jpeg_of none states)

sent : concat (stream ∷ []) ≡ stream
sent = append-nil stream

run_forever-mjpeg_generator_example :
    (run_forever scaled in_order decode meets
      (read_from (stream ∷ []) true ∷ [])
      (looking 9)).pipeline
    ≡ process_all scaled in_order decode meets 0
        (decoded_frames decode (squeeze (met jpeg_of states)))
        idle
unfolding until_eoi squeeze met get_frame is_running new_camera showing
run_forever-mjpeg_generator_example =
    run_forever-mjpeg_generator scaled in_order decode meets jpeg_of states stream [] true
      (looking 9) (λ n. (n ∷ [], refl, ground arith)) sent (omega arith)
