-- ===== src/Camera/Bridge.antt =====
-- `RTSPCamera`, camera/app/camera/service.py: the shared frame and the recording that its thread writes.
-- The lock makes each method a step beside the steps of the thread. What PyAV does is an argument: the
-- Boolean of an operation says whether the call of the library comes back without an exception, and `Ends`
-- does so of a teardown. The
-- output container and its stream are set and cleared together, so they are one field.
pub mod Keeps
pub mod Thread
mod Tests
use cat_sentinel.Prelude.{
  ℕ, zero, suc, ◌-◌, String, Bool, true, false, not, List, [], ◌∷◌, ◌++◌, Option, none, some,
  Outcome, ok, raise, if◌then◌else◌,
}
use cat_sentinel.Camera.Errors.{CameraError, runtime_error, av_error, frame_not_available}

abbrev pub Size : Type 0
Size = ℕ × ℕ

-- A decoded frame: its JPEG bytes are named by a number.
pub record Frame : Type 0 where
  pub jpeg : ℕ
  pub frame_size : Size

-- `_out_container` and `_out_stream`, with the frames muxed so far.
pub record Output : Type 0 where
  pub path : String
  pub stream_size : Size
  pub muxed : List ℕ

-- How the calls of a teardown end: the encoder's flush and the container's `close` come back without an
-- exception, and the thread ends before the timeout of the join.
pub record Ends : Type 0 where
  pub flushes : Bool
  pub closes : Bool
  pub joins : Bool

abbrev pub all_well : Ends
all_well = record { flushes = true; closes = true; joins = true }

pub record RtspCamera : Type 0 where
  -- `_thread` is a thread that runs.
  pub thread_alive : Bool
  -- The threads that a join has given up: they may run on, and `_thread` has them no more.
  pub unjoined : ℕ
  pub stop_event : Bool
  pub latest_jpeg : Option ℕ
  pub last_frame_monotonic : Option ℕ
  pub last_frame_size : Option Size
  pub connected : Bool
  pub last_error : Option String
  pub recording : Bool
  pub record_filename : Option String
  pub record_started_monotonic : Option ℕ
  pub output : Option Output
  -- The containers that were closed, the last one first.
  pub files : List Output

unfoldable pub new_camera : RtspCamera
new_camera = record {
  thread_alive = false;
  unjoined = 0;
  stop_event = false;
  latest_jpeg = none;
  last_frame_monotonic = none;
  last_frame_size = none;
  connected = false;
  last_error = none;
  recording = false;
  record_filename = none;
  record_started_monotonic = none;
  output = none;
  files = [];
}

pub record RecordingStatusSnapshot : Type 0 where
  pub is_recording : Bool
  pub filename : Option String
  pub started_at : Option ℕ
  pub elapsed_seconds : Option ℕ

unfoldable pub start : RtspCamera → RtspCamera
start c = if c.thread_alive then c else record c { stop_event = false; thread_alive = true }

unfoldable pub is_running : RtspCamera → Bool
is_running c = if c.thread_alive then not c.stop_event else false

-- `self._last_frame_size or (1280, 720)`
abbrev pub size_or_default : Option Size → Size
size_or_default none = (1280, 720)
size_or_default (some s) = s

abbrev pub elapsed_since : (now : ℕ) → Option ℕ → Option ℕ
elapsed_since now none = none
elapsed_since now (some started) = some (now - started)

-- `start_recording`; `opens` is that of `av.open` and `add_stream`.
unfoldable pub start_recording :
    (opens : Bool) (now : ℕ) → String → RtspCamera → Outcome CameraError (Unit {0}) × RtspCamera
start_recording opens now filename c =
    if c.recording
    then (raise runtime_error, c)
    else if opens
    then (
      ok tt,
      record c {
        output = some (record {
          path = filename;
          stream_size = size_or_default c.last_frame_size;
          muxed = [];
        });
        record_filename = some filename;
        record_started_monotonic = some now;
        recording = true;
      },
    )
    else (raise av_error, c)

-- `_flush_and_close_output_locked`: the container is closed also when the flush raises; one whose `close`
-- raises stays in the attributes. With no container nothing is done.
unfoldable pub flush_output :
    (ends : Ends) → RtspCamera → Option Output → Outcome CameraError (Unit {0}) × RtspCamera
flush_output ends c none = (ok tt, c)
flush_output ends c (some o) =
    if ends.closes
    then (
      (if ends.flushes then ok tt else raise av_error),
      record c { output = none; files = o ∷ c.files },
    )
    else (raise av_error, c)

unfoldable pub flush_and_close :
    (ends : Ends) → RtspCamera → Outcome CameraError (Unit {0}) × RtspCamera
unfolding flush_output
flush_and_close ends c = flush_output ends c c.output

-- `now - (started or now)`: a start at 0 is false in Python.
abbrev pub elapsed_or_zero : (now : ℕ) → Option ℕ → ℕ
elapsed_or_zero now none = 0
elapsed_or_zero now (some zero) = 0
elapsed_or_zero now (some (suc started)) = now - suc started

-- From the flush on, in `stop_recording`.
unfoldable pub after_flush :
    (now : ℕ)
    → Outcome CameraError (Unit {0}) × RtspCamera
    → Outcome CameraError RecordingStatusSnapshot × RtspCamera
after_flush now (raise e, c) = (raise e, c)
after_flush now (ok u, c) = (
  ok (record {
    is_recording = false;
    filename = c.record_filename;
    started_at = c.record_started_monotonic;
    elapsed_seconds = some (elapsed_or_zero now c.record_started_monotonic);
  }),
  record c { recording = false; record_filename = none; record_started_monotonic = none },
)

unfoldable pub stop_recording :
    (ends : Ends) (now : ℕ) → RtspCamera → Outcome CameraError RecordingStatusSnapshot × RtspCamera
unfolding flush_and_close after_flush
stop_recording ends now c =
    if c.recording then after_flush now (flush_and_close ends c) else (raise runtime_error, c)

unfoldable pub get_recording_status : (now : ℕ) → RtspCamera → RecordingStatusSnapshot
get_recording_status now c = record {
  is_recording = c.recording;
  filename = c.record_filename;
  started_at = c.record_started_monotonic;
  elapsed_seconds = elapsed_since now c.record_started_monotonic;
}

-- The end of `_close_recording_locked_safe`: an exception of the flush leaves the flag.
unfoldable pub after_close :
    Outcome CameraError (Unit {0}) × RtspCamera → Outcome CameraError (Unit {0}) × RtspCamera
after_close (ok u, c) = (ok u, record c { recording = false })
after_close (raise e, c) = (raise e, c)

unfoldable pub close_recording :
    (ends : Ends) → RtspCamera → Outcome CameraError (Unit {0}) × RtspCamera
unfolding flush_and_close after_close
close_recording ends c = if c.recording then after_close (flush_and_close ends c) else (ok tt, c)

-- One more thread is given up if there is one and the join comes back without it.
abbrev pub after_join : (joins thread_alive : Bool) → (unjoined : ℕ) → ℕ
after_join joins true unjoined = if joins then unjoined else suc unjoined
after_join joins false unjoined = unjoined

-- `stop`: `_thread` is None behind the join, whether or not the thread has ended.
unfoldable pub stop : (ends : Ends) → RtspCamera → Outcome CameraError (Unit {0}) × RtspCamera
unfolding close_recording
stop ends c = close_recording ends (record c {
  stop_event = true;
  thread_alive = false;
  unjoined = after_join ends.joins c.thread_alive c.unjoined;
})

-- The frame goes to the open container unless the encoder raises, which is logged.
abbrev pub muxed_to : (encodes : Bool) → Frame → Option Output → Option Output
muxed_to encodes f none = none
muxed_to encodes f (some o) =
    if encodes then some (record o { muxed = o.muxed ++ f.jpeg ∷ [] }) else some o

-- `_process_frame`, of a frame that converts to JPEG.
unfoldable pub process_frame : (encodes : Bool) (now : ℕ) → Frame → RtspCamera → RtspCamera
process_frame encodes now f c = record c {
  latest_jpeg = some f.jpeg;
  last_frame_monotonic = some now;
  last_frame_size = some f.frame_size;
  output = if c.recording then muxed_to encodes f c.output else c.output;
}

-- The steps of `_run` on the connection: it opens, it fails, it is closed.
unfoldable pub connection_opened : RtspCamera → RtspCamera
connection_opened c = record c { connected = true; last_error = none }

unfoldable pub connection_failed : String → RtspCamera → RtspCamera
connection_failed message c = record c { connected = false; last_error = some message }

unfoldable pub connection_closed : RtspCamera → RtspCamera
connection_closed c = record c { connected = false }

-- `self.start()`, once `self.stop()` has come back.
unfoldable pub after_stop :
    Outcome CameraError (Unit {0}) × RtspCamera → Outcome CameraError (Unit {0}) × RtspCamera
unfolding start
after_stop (ok u, c) = (ok u, start c)
after_stop (raise e, c) = (raise e, c)

-- `reset`
unfoldable pub reset : (ends : Ends) → RtspCamera → Outcome CameraError (Unit {0}) × RtspCamera
unfolding stop after_stop
reset ends c = after_stop (stop ends c)

pub record CameraStatusSnapshot : Type 0 where
  pub connected : Bool
  pub last_error : Option String
  pub frame_age_seconds : Option ℕ

-- `get_status`; the transport is a constant of the object.
unfoldable pub get_status : (now : ℕ) → RtspCamera → CameraStatusSnapshot
get_status now c = record {
  connected = c.connected;
  last_error = c.last_error;
  frame_age_seconds = elapsed_since now c.last_frame_monotonic;
}

-- `GET /snapshot`, over `get_frame`
unfoldable pub snapshot : RtspCamera → Outcome CameraError ℕ
snapshot c = elim c.latest_jpeg [ none ↦ raise frame_not_available | some jpeg ↦ ok jpeg ]
