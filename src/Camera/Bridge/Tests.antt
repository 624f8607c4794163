-- ===== src/Camera/Bridge/Tests.antt =====
-- Runs of the camera bridge.
use cat_sentinel.Prelude.{ℕ, ◌≡◌, refl, true, false, List, [], ◌∷◌, some}
use cat_sentinel.Camera.Bridge.{
  all_well, Frame, new_camera, start, start_recording, stop_recording, flush_and_close,
  flush_output, after_flush, stop, close_recording, after_close, process_frame,
  get_recording_status,
}
use cat_sentinel.Camera.Bridge.Keeps.{
  Step, started, stopped, recording_started, recording_stopped, decoded, opened, step, run, IsValid,
  run_camera-IsValid,
}

abbrev frame : ℕ → Frame
frame n = record { jpeg = n; frame_size = (640, 480) }

-- A recording of two frames, with one frame before it that is not in the file.
abbrev recorded : List Step
recorded =
    started
    ∷ opened
    ∷ decoded true 1 (frame 1)
    ∷ recording_started true 2 "a.mp4"
    ∷ decoded true 3 (frame 2)
    ∷ decoded false 4 (frame 3)
    ∷ decoded true 5 (frame 4)
    ∷ recording_stopped all_well 6
    ∷ []

recorded_file :
    (run recorded new_camera).files
    ≡ record { path = "a.mp4"; stream_size = (640, 480); muxed = 2 ∷ 4 ∷ [] } ∷ []
unfolding run step new_camera start start_recording stop_recording flush_and_close flush_output
    after_flush process_frame
recorded_file = refl

-- After `stop` during a recording, the status still has the file's name and goes on counting.
abbrev cut_off : List Step
cut_off = started ∷ recording_started true 2 "a.mp4" ∷ stopped all_well ∷ []

cut_off_status : get_recording_status 90 (run cut_off new_camera) ≡ record {
  is_recording = false;
  filename = some "a.mp4";
  started_at = some 2;
  elapsed_seconds = some 88;
}
unfolding run step new_camera start start_recording stop close_recording after_close flush_and_close
    flush_output get_recording_status
cut_off_status = refl

run_camera-IsValid_example : IsValid (run recorded new_camera)
run_camera-IsValid_example = run_camera-IsValid recorded
