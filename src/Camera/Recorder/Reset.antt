-- ===== src/Camera/Recorder/Reset.antt =====
-- `POST /reset` during a recording.
use cat_sentinel.Prelude.{
  ℕ, ◌≡◌, String, true, false, Option, some, Outcome, raise, arith, Option-cases, inl, inr,
}
use cat_sentinel.Prelude.Tables.{find}
use cat_sentinel.Camera.Errors.{CameraError, runtime_error}
use cat_sentinel.Camera.Recordings.{recording}
use cat_sentinel.Camera.Bridge.{
  Ends, RtspCamera, start, after_stop, close_recording, after_close, flush_and_close, flush_output,
}
use cat_sentinel.Camera.Bridge
use cat_sentinel.Camera.Recorder.{Recorder, stop_recording, after_camera_stop, reset}
use cat_sentinel.Camera.Recorder.Aligned.{Current}

reset-idle :
    (ends : Ends) (c : RtspCamera)
    → ends.flushes ≡ true
    → ends.closes ≡ true
    → c.recording ≡ true
    → (Bridge.reset ends c).1.recording ≡ false
unfolding Bridge.reset Bridge.stop start after_stop close_recording after_close flush_and_close
    flush_output
reset-idle ends c flushes closes on = elim (Option-cases c.output) [
  | inl e ↦ ground (arith, flushes, closes, e, on)
  | inr (o, e) ↦ ground (arith, flushes, closes, e, on)
]

-- A reset during a recording, whose flush and close come back, orphans its row: the camera no longer
-- records, the row is in progress, and the stop route raises RuntimeError and changes nothing.
pub reset-orphan :
    (database : Outcome CameraError (Unit {0})) (on_disk : String → Option ℕ) (ends stops : Ends)
    (now clock : ℕ) (r : Recorder) (k : Current r)
    → ends.flushes ≡ true
    → ends.closes ≡ true
    → r.camera.recording ≡ true
    → ((reset ends r).1.camera.recording ≡ false)
      × (find k.id (reset ends r).1.rows ≡ some k.row)
      × (k.row.status ≡ recording)
      × (stop_recording database on_disk stops now clock (reset ends r).1
          ≡ (raise runtime_error, (reset ends r).1))
unfolding reset stop_recording after_camera_stop Bridge.stop_recording
reset-orphan database on_disk ends stops now clock r k flushes closes on =
    let idle = reset-idle ends r.camera flushes closes on in
    (idle, k.stored, k.in_progress, ground (arith, idle))
