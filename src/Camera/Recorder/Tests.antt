-- ===== src/Camera/Recorder/Tests.antt =====
-- Runs of the recorder.
use cat_sentinel.Prelude.{
  ℕ, ◌≡◌, refl, String, true, false, [], ◌∷◌, Option, some, ok, raise, ℕ_discrete, lookup, insert,
}
use cat_sentinel.Prelude.Tables.{find, put, taken, commit}
use cat_sentinel.Camera.Errors.{runtime_error}
use cat_sentinel.Camera.Recordings.{recording, create}
use cat_sentinel.Camera.Recordings.Started.{started}
use cat_sentinel.Camera.Bridge.{all_well, Frame, RtspCamera, new_camera, start, process_frame}
use cat_sentinel.Camera.Bridge
use cat_sentinel.Camera.Recorder.{
  Recorder, new_recorder, start_recording, after_camera_start, row_started, record_row,
  stop_recording, reset,
}
use cat_sentinel.Camera.Recorder.Aligned.{Current, IsAligned, completed_row}
use cat_sentinel.Camera.Recorder.Reached.{
  Reached, at_first, camera_started, recording_started, frame_decoded, Reached-IsAligned,
}
use cat_sentinel.Camera.Recorder.Stopped.{stop_recording-Current}
use cat_sentinel.Camera.Recorder.Reset.{reset-orphan}

-- A recording of one frame, under way.
abbrev camera : RtspCamera
camera = record new_camera {
  thread_alive = true;
  latest_jpeg = some 7;
  last_frame_monotonic = some 3;
  last_frame_size = some (640, 480);
  recording = true;
  record_filename = some "a.mp4";
  record_started_monotonic = some 2;
  output = some (record { path = "a.mp4"; stream_size = (1280, 720); muxed = 7 ∷ [] });
}

abbrev busy : Recorder
busy = record { camera = camera; rows = (1, started 10 "a.mp4") ∷ [] }

busy-Reached : Reached busy
unfolding new_recorder new_camera start start_recording after_camera_start record_row row_started
    create commit taken insert ℕ_discrete Bridge.start_recording process_frame
busy-Reached =
    frame_decoded true 3 (record { jpeg = 7; frame_size = (640, 480) })
      (recording_started true 2 1 10 "a.mp4" refl (camera_started at_first))

abbrev current : Current busy
unfolding lookup ℕ_discrete
current = record {
  id = 1;
  row = started 10 "a.mp4";
  stored = refl;
  in_progress = refl;
  named = refl;
}

Reached-IsAligned_example : IsAligned busy
Reached-IsAligned_example = Reached-IsAligned busy busy-Reached

busy-IsAligned : IsAligned busy
busy-IsAligned = Reached-IsAligned busy busy-Reached

abbrev on_disk : String → Option ℕ
on_disk filename = some 700

stop_recording-Current_example :
    (elapsed : ℕ) × ((stop_recording (ok tt) on_disk all_well 6 15 busy).0
      ≡ ok (record { filename = "a.mp4"; elapsed_seconds = elapsed; stopped = true }))
    × ((stop_recording (ok tt) on_disk all_well 6 15 busy).1.camera.recording ≡ false)
    × ((stop_recording (ok tt) on_disk all_well 6 15 busy).1.rows
        ≡ put 1 (completed_row on_disk 15 (started 10 "a.mp4")) busy.rows)
unfolding current
stop_recording-Current_example =
    stop_recording-Current on_disk all_well 6 15 busy current busy-IsAligned refl refl refl

reset-orphan_example :
    ((reset all_well busy).1.camera.recording ≡ false)
    × (find 1 (reset all_well busy).1.rows ≡ some (started 10 "a.mp4"))
    × (recording ≡ recording)
    × (stop_recording (ok tt) on_disk all_well 6 15 (reset all_well busy).1
        ≡ (raise runtime_error, (reset all_well busy).1))
unfolding current
reset-orphan_example =
    reset-orphan (ok tt) on_disk all_well all_well 6 15 busy current refl refl refl
