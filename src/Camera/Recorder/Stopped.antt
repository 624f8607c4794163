-- ===== src/Camera/Recorder/Stopped.antt =====
-- What the stop route does to the camera and its row.
use cat_sentinel.Prelude.{
  ℕ, ◌≡◌, subst, String, true, false, Option, Outcome, ok, arith, Option-cases, inl, inr,
}
use cat_sentinel.Prelude.Tables.{put}
use cat_sentinel.Camera.Errors.{CameraError}
use cat_sentinel.Camera.Bridge.{
  Ends, RtspCamera, RecordingStatusSnapshot, Output, flush_and_close, flush_output, after_flush,
  elapsed_or_zero,
}
use cat_sentinel.Camera.Bridge
use cat_sentinel.Camera.Bridge.Keeps
use cat_sentinel.Camera.Recorder.{
  Recorder, row_stopped, complete_row, after_camera_stop, stop_recording,
}
use cat_sentinel.Camera.Recorder.Aligned.{
  Current, IsAligned, Ended, stands, ended, stop_recording-Ended, completed_row, stop-current,
  completed-IsAligned, with_camera-IsAligned,
}

-- From the camera's answer on.
after_camera_stop-IsAligned :
    (on_disk : String → Option ℕ) (clock : ℕ) (r : Recorder)
    (o : Outcome CameraError RecordingStatusSnapshot × RtspCamera)
    → IsAligned r
    → Keeps.IsValid o.1
    → Ended r.camera o
    → IsAligned (after_camera_stop (ok tt) on_disk clock r.rows o).1
unfolding after_camera_stop complete_row row_stopped
after_camera_stop-IsAligned on_disk clock r o a v (stands e q same_flag same_name) =
    subst IsAligned {x = record r { camera = o.1 }} (ground (arith, q))
      (with_camera-IsAligned r o.1 v same_flag same_name a)
after_camera_stop-IsAligned on_disk clock r o a v (ended snap q same_name busy idle) =
    let k = a.current busy in
    subst IsAligned
      {x = record { camera = o.1; rows = put k.id (completed_row on_disk clock k.row) r.rows }}
      (ground (arith, q, same_name, k.named, stop-current on_disk clock r k a))
      (completed-IsAligned on_disk clock r k o.1 a v idle)

pub stop_recording-IsAligned :
    (on_disk : String → Option ℕ) (ends : Ends) (now clock : ℕ) (r : Recorder)
    → IsAligned r
    → IsAligned (stop_recording (ok tt) on_disk ends now clock r).1
unfolding stop_recording
stop_recording-IsAligned on_disk ends now clock r a =
    after_camera_stop-IsAligned on_disk clock r (Bridge.stop_recording ends now r.camera) a
      (Keeps.recording_stopped-IsValid ends now r.camera a.camera-IsValid)
      (stop_recording-Ended ends now r.camera)

-- A stop during a recording, whose flush and close come back and whose database does not fail, when the rows and the camera agree on what is
-- in progress: the answer names the file, the camera is idle, the row of the recording is completed
-- with what the disk has of the file, and the other rows are as they were.
pub stop_recording-Current :
    (on_disk : String → Option ℕ) (ends : Ends) (now clock : ℕ) (r : Recorder) (k : Current r)
    → IsAligned r
    → ends.flushes ≡ true
    → ends.closes ≡ true
    → r.camera.recording ≡ true
    → (elapsed : ℕ) × ((stop_recording (ok tt) on_disk ends now clock r).0
        ≡ ok (record { filename = k.row.filename; elapsed_seconds = elapsed; stopped = true }))
      × ((stop_recording (ok tt) on_disk ends now clock r).1.camera.recording ≡ false)
      × ((stop_recording (ok tt) on_disk ends now clock r).1.rows
          ≡ put k.id (completed_row on_disk clock k.row) r.rows)
unfolding stop_recording after_camera_stop complete_row row_stopped Bridge.stop_recording
    flush_and_close after_flush flush_output
stop_recording-Current on_disk ends now clock r k a flushes closes busy =
    let done = stop-current on_disk clock r k a in
    elim (Option-cases r.camera.output) [
      | inl e ↦ (
        elapsed_or_zero now r.camera.record_started_monotonic,
        ground (arith, flushes, closes, busy, e, k.named, done),
        ground (arith, flushes, closes, busy, e, k.named, done),
        ground (arith, flushes, closes, busy, e, k.named, done),
      )
      | inr (o, e) ↦ (
        elapsed_or_zero now r.camera.record_started_monotonic,
        ground (arith, flushes, closes, busy, e, k.named, done),
        ground (arith, flushes, closes, busy, e, k.named, done),
        ground (arith, flushes, closes, busy, e, k.named, done),
      )
    ]
