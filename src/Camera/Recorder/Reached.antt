-- ===== src/Camera/Recorder/Reached.antt =====
-- The states that the routes and the camera's thread lead to.
use cat_sentinel.Prelude.{
  some, none, ok, ℕ, ◌≡◌, ◌≢◌, refl, String, Bool, false, Option, arith, str_dec, lookup,
}
use cat_sentinel.Prelude.Tables.{find, taken}
use cat_sentinel.Camera.Recordings.{Recording, recording, filename_of, reconcile}
use cat_sentinel.Camera.Bridge.{
  Ends, Frame, RtspCamera, new_camera, start, process_frame, connection_opened, connection_failed,
  connection_closed,
}
use cat_sentinel.Camera.Bridge.Keeps
use cat_sentinel.Camera.Recorder.{Recorder, new_recorder, start_recording, stop_recording}
use cat_sentinel.Camera.Recorder.Aligned.{
  IsAligned, with_camera-IsAligned, start_recording-IsAligned,
}
use cat_sentinel.Camera.Recorder.Passed.{reconcile-IsAligned}
use cat_sentinel.Camera.Recorder.Stopped.{stop_recording-IsAligned}

-- `with_camera r c`: the thread has changed the camera.
abbrev with_camera : Recorder → RtspCamera → Recorder
with_camera r c = record r { camera = c }

-- The states that are reached with no teardown of the camera and no failure of the database, by one request
-- after the other. The name that a start is given is new
-- among the rows, as `generate_filename` makes it with a uuid.
pub data Reached : Recorder → Type 0 where
  at_first : Reached new_recorder
  camera_started : {r : Recorder} → Reached r → Reached (with_camera r (start r.camera))
  recording_started :
      {r : Recorder} (opens : Bool) (now id clock : ℕ) (filename : String)
      → taken filename_of str_dec id filename r.rows ≡ false
      → Reached r
      → Reached (start_recording opens (ok tt) now id clock filename r).1
  recording_stopped :
      {r : Recorder} (on_disk : String → Option ℕ) (ends : Ends) (now clock : ℕ)
      → Reached r
      → Reached (stop_recording (ok tt) on_disk ends now clock r).1
  -- A pass of the reconciliation, when the disk has the file of each row that is in progress.
  reconciled :
      {r : Recorder} (on_disk : String → Option ℕ)
      → ((id : ℕ) (row : Recording)
          → find id r.rows ≡ some row
          → row.status ≡ recording
          → on_disk row.filename ≢ none)
      → Reached r
      → Reached (record r { rows = reconcile on_disk r.rows })
  frame_decoded :
      {r : Recorder} (encodes : Bool) (now : ℕ) (frame : Frame)
      → Reached r
      → Reached (with_camera r (process_frame encodes now frame r.camera))
  opened : {r : Recorder} → Reached r → Reached (with_camera r (connection_opened r.camera))
  failed :
      {r : Recorder} (message : String)
      → Reached r
      → Reached (with_camera r (connection_failed message r.camera))
  closed : {r : Recorder} → Reached r → Reached (with_camera r (connection_closed r.camera))

new_recorder-IsAligned : IsAligned new_recorder
unfolding new_recorder new_camera lookup
new_recorder-IsAligned = record {
  camera-IsValid = record {
    open_output = λ o e. absurd (ground (arith, e));
    named = λ on. absurd (ground (arith, on));
  };
  rows-Distinct = tt;
  rows-Unique = λ i j v w e. absurd (ground (arith, e));
  current = λ on. absurd (ground (arith, on));
  only = λ id row e. absurd (ground (arith, e));
}

-- In every state that the recording routes, one request after the other, the camera's thread and the passes
-- of the reconciliation reach without a teardown of the camera, whatever calls of the video library fail,
-- if the database does not fail, a start has a new name, and a pass finds the files of the rows in
-- progress: a recording in progress has a row of its file that is in progress, and a
-- row that is in progress is that of the file that the camera is writing.
pub Reached-IsAligned : (r : Recorder) → Reached r → IsAligned r
unfolding Keeps.step start process_frame connection_opened connection_failed connection_closed
Reached-IsAligned _ at_first = new_recorder-IsAligned
Reached-IsAligned _ (camera_started {r} h) =
    let a = Reached-IsAligned r h in
    with_camera-IsAligned r (start r.camera)
      (Keeps.step-IsValid Keeps.started r.camera a.camera-IsValid) (ground arith) (ground arith) a
Reached-IsAligned _ (recording_started {r} opens now id clock filename free h) =
    start_recording-IsAligned opens now id clock filename r free (Reached-IsAligned r h)
Reached-IsAligned _ (recording_stopped {r} on_disk ends now clock h) =
    stop_recording-IsAligned on_disk ends now clock r (Reached-IsAligned r h)
Reached-IsAligned _ (reconciled {r} on_disk there h) =
    reconcile-IsAligned on_disk r there (Reached-IsAligned r h)
Reached-IsAligned _ (frame_decoded {r} encodes now frame h) =
    let a = Reached-IsAligned r h in
    with_camera-IsAligned r (process_frame encodes now frame r.camera)
      (Keeps.step-IsValid (Keeps.decoded encodes now frame) r.camera a.camera-IsValid) refl refl a
Reached-IsAligned _ (opened {r} h) =
    let a = Reached-IsAligned r h in
    with_camera-IsAligned r (connection_opened r.camera)
      (Keeps.step-IsValid Keeps.opened r.camera a.camera-IsValid) refl refl a
Reached-IsAligned _ (failed {r} message h) =
    let a = Reached-IsAligned r h in
    with_camera-IsAligned r (connection_failed message r.camera)
      (Keeps.step-IsValid (Keeps.failed message) r.camera a.camera-IsValid) refl refl a
Reached-IsAligned _ (closed {r} h) =
    let a = Reached-IsAligned r h in
    with_camera-IsAligned r (connection_closed r.camera)
      (Keeps.step-IsValid Keeps.closed r.camera a.camera-IsValid) refl refl a
