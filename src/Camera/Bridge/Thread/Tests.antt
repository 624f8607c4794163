-- ===== src/Camera/Bridge/Thread/Tests.antt =====
-- A recording over two connections, the first of which breaks.
use cat_sentinel.Prelude.{ℕ, ◌≡◌, refl, true, List, [], ◌∷◌, none, some}
use cat_sentinel.Camera.Bridge.{
  RtspCamera, new_camera, process_frame, connection_opened, connection_failed, connection_closed,
}
use cat_sentinel.Camera.Bridge.Thread.{
  Decoded, Connection, refused, connected, Loop, over_frames, after_try, attempt, wait, run_thread,
}
use cat_sentinel.Camera.Bridge.Thread.Lasting.{Lasts, run_thread-Lasts}

abbrev decoded : ℕ → Decoded
decoded n = record {
  raises = none;
  encodes = true;
  now = n;
  frame = record { jpeg = n; frame_size = (640, 480) };
}

abbrev recording : RtspCamera
unfolding new_camera
recording = record new_camera {
  thread_alive = true;
  recording = true;
  record_filename = some "a.mp4";
  record_started_monotonic = some 1;
  output = some (record { path = "a.mp4"; stream_size = (640, 480); muxed = 1 ∷ [] });
}

abbrev connections : List Connection
connections =
    connected (decoded 2 ∷ []) (some "timed out")
    ∷ refused "no route"
    ∷ connected (decoded 3 ∷ decoded 4 ∷ []) none
    ∷ []

abbrev looping : Loop
looping = record { checks = 7; sleeps = 0; camera = recording }

-- The seventh look is the one before the frame 3; the next finds the stop event set.
recorded :
    (run_thread connections looping).camera.output
    ≡ some (record { path = "a.mp4"; stream_size = (640, 480); muxed = 1 ∷ 2 ∷ 3 ∷ [] })
unfolding run_thread attempt over_frames after_try wait process_frame connection_opened
    connection_failed connection_closed recording
recorded = refl

run_thread-Lasts_example : Lasts recording (run_thread connections looping).camera
run_thread-Lasts_example = run_thread-Lasts 7 connections looping refl
