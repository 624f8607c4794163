-- ===== src/Camera/Recorder.antt =====
-- The recording routes of camera/app/camera/router.py: they join the camera's buffer, which writes the
-- file, to the rows of the recordings. `now` is the monotonic clock, `clock` the wall clock, and `id` and
-- `filename` are those that the database and `generate_filename` make. `database` is how the statements end,
-- apart from the unique constraint: a database that fails raises. A request is a step: what other requests do
-- while a route waits for the database is not modelled.
mod Tests
pub mod Aligned
pub mod Stopped
pub mod Reset
pub mod Passed
pub mod Reached
use cat_sentinel.Prelude.{
  ℕ, String, Bool, true, false, [], Option, none, some, Outcome, ok, raise, if◌then◌else◌,
}
use cat_sentinel.Prelude.Tables.{Table}
use cat_sentinel.Camera.Errors.{CameraError, runtime_error, recording_in_progress, not_found}
use cat_sentinel.Camera.Recordings.{Recording}
use cat_sentinel.Camera.Recordings
use cat_sentinel.Camera.Bridge.{Ends, RtspCamera, RecordingStatusSnapshot, new_camera}
use cat_sentinel.Camera.Bridge

-- What the routes share: the camera of the application, and the table.
pub record Recorder : Type 0 where
  pub camera : RtspCamera
  pub rows : Table Recording

unfoldable pub new_recorder : Recorder
unfolding new_camera
new_recorder = record { camera = new_camera; rows = [] }

-- `RecordingStartResponse`
pub record RecordingStartResponse : Type 0 where
  pub filename : String
  pub started : Bool

-- `recording_service.start`
unfoldable pub row_started :
    (database : Outcome CameraError (Unit {0})) (id clock : ℕ)
    → String
    → Table Recording
    → Outcome CameraError (Table Recording)
unfolding Recordings.create
row_started (raise e) id clock filename t = raise e
row_started (ok u) id clock filename t = Recordings.create id clock filename t

-- From there on. The camera goes on recording when the row is refused.
unfoldable pub record_row :
    (database : Outcome CameraError (Unit {0})) (id clock : ℕ)
    → String
    → RtspCamera
    → Table Recording
    → Outcome CameraError RecordingStartResponse × Recorder
unfolding row_started
record_row database id clock filename c t = elim (row_started database id clock filename t) [
  | raise e ↦ (raise e, record { camera = c; rows = t })
  | ok t' ↦ (ok (record { filename = filename; started = true }), record { camera = c; rows = t' })
]

-- `except RuntimeError as exc: raise RecordingAlreadyInProgressError`
unfoldable pub in_progress : CameraError → CameraError
in_progress runtime_error = recording_in_progress
in_progress e = e

unfoldable pub after_camera_start :
    (database : Outcome CameraError (Unit {0})) (id clock : ℕ)
    → String
    → Table Recording
    → Outcome CameraError (Unit {0}) × RtspCamera
    → Outcome CameraError RecordingStartResponse × Recorder
unfolding record_row in_progress
after_camera_start database id clock filename t (raise e, c) =
    (raise (in_progress e), record { camera = c; rows = t })
after_camera_start database id clock filename t (ok u, c) =
    record_row database id clock filename c t

-- `POST /recording/start`
unfoldable pub start_recording :
    (opens : Bool) (database : Outcome CameraError (Unit {0})) (now id clock : ℕ)
    → String
    → Recorder
    → Outcome CameraError RecordingStartResponse × Recorder
unfolding after_camera_start Bridge.start_recording
start_recording opens database now id clock filename r =
    if r.camera.recording
    then (raise recording_in_progress, r)
    else after_camera_start database id clock filename r.rows
        (Bridge.start_recording opens now filename r.camera)

-- `RecordingStopResponse`
pub record RecordingStopResponse : Type 0 where
  pub filename : String
  pub elapsed_seconds : ℕ
  pub stopped : Bool

-- `snap.elapsed_seconds or 0.0`
abbrev pub seconds_or_zero : Option ℕ → ℕ
seconds_or_zero none = 0
seconds_or_zero (some n) = n

-- `recording_service.stop(snap.filename)`: no row is named None.
unfoldable pub row_stopped :
    (database : Outcome CameraError (Unit {0})) (on_disk : String → Option ℕ) (clock : ℕ)
    → String
    → Table Recording
    → Outcome CameraError (Table Recording)
unfolding Recordings.stop
row_stopped (raise e) on_disk clock filename t = raise e
row_stopped (ok u) on_disk clock filename t = Recordings.stop on_disk clock filename t

-- From there on.
unfoldable pub complete_row :
    (database : Outcome CameraError (Unit {0})) (on_disk : String → Option ℕ) (clock : ℕ)
    → Option String
    → (elapsed_seconds : ℕ) → RtspCamera
    → Table Recording
    → Outcome CameraError RecordingStopResponse × Recorder
unfolding row_stopped
complete_row (raise e) on_disk clock none elapsed c t = (raise e, record { camera = c; rows = t })
complete_row (ok u) on_disk clock none elapsed c t =
    (raise not_found, record { camera = c; rows = t })
complete_row database on_disk clock (some filename) elapsed c t =
    elim (row_stopped database on_disk clock filename t) [
      | raise e ↦ (raise e, record { camera = c; rows = t })
      | ok t' ↦ (
        ok (record { filename = filename; elapsed_seconds = elapsed; stopped = true }),
        record { camera = c; rows = t' },
      )
    ]

unfoldable pub after_camera_stop :
    (database : Outcome CameraError (Unit {0})) (on_disk : String → Option ℕ) (clock : ℕ)
    → Table Recording
    → Outcome CameraError RecordingStatusSnapshot × RtspCamera
    → Outcome CameraError RecordingStopResponse × Recorder
unfolding complete_row
after_camera_stop database on_disk clock t (raise e, c) = (raise e, record { camera = c; rows = t })
after_camera_stop database on_disk clock t (ok snap, c) =
    complete_row database on_disk clock snap.filename (seconds_or_zero snap.elapsed_seconds) c t

-- `POST /recording/stop`
unfoldable pub stop_recording :
    (database : Outcome CameraError (Unit {0})) (on_disk : String → Option ℕ) (ends : Ends)
    (now clock : ℕ)
    → Recorder
    → Outcome CameraError RecordingStopResponse × Recorder
unfolding after_camera_stop Bridge.stop_recording
stop_recording database on_disk ends now clock r =
    after_camera_stop database on_disk clock r.rows (Bridge.stop_recording ends now r.camera)

-- `POST /reset`
unfoldable pub reset : (ends : Ends) → Recorder → Outcome CameraError (Unit {0}) × Recorder
unfolding Bridge.reset
reset ends r =
    ((Bridge.reset ends r.camera).0, record r { camera = (Bridge.reset ends r.camera).1 })

-- `GET /recording/status`
unfoldable pub recording_status : (now : ℕ) → Recorder → RecordingStatusSnapshot
unfolding Bridge.get_recording_status
recording_status now r = Bridge.get_recording_status now r.camera
