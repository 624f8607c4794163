-- ===== src/Camera/Bridge/Thread.antt =====
-- `RTSPCamera._run`, camera/app/camera/service.py: the loop of the camera's thread over its connections.
-- The stop event is set by another thread: `checks` is how many of the loop's looks at it find it clear.
-- What PyAV does is an argument: how each connection opens, what it decodes, and how it ends.
pub mod Lasting
mod Tests
use cat_sentinel.Prelude.{
  ℕ, zero, suc, String, Bool, true, false, List, [], ◌∷◌, Option, none, some,
}
use cat_sentinel.Camera.Bridge.{
  Frame, RtspCamera, process_frame, connection_opened, connection_failed, connection_closed,
}

-- A frame that PyAV has decoded, as `_process_frame` meets it: `raises` is the message if it does not
-- convert to JPEG, and `encodes` whether it goes into an open recording.
pub record Decoded : Type 0 where
  pub raises : Option String
  pub encodes : Bool
  pub now : ℕ
  pub frame : Frame

-- `av.open` and `container.decode`; `refused` and `breaks` are the messages of their exceptions.
pub data Connection : Type 0 where
  refused : (message : String) → Connection
  connected : List Decoded → (breaks : Option String) → Connection

pub record Loop : Type 0 where
  pub checks : ℕ
  pub sleeps : ℕ
  pub camera : RtspCamera

-- The loop over the frames: the message of the exception that it ends with, and the state.
unfoldable pub over_frames : List Decoded → (breaks : Option String) → Loop → Option String × Loop
unfolding process_frame
over_frames [] breaks l = (breaks, l)
over_frames (d ∷ ds) breaks l = elim l.checks [
  | zero ↦ (none, l)
  | suc checks ↦ elim d.raises [
    | some message ↦ (some message, record l { checks = checks })
    | none ↦
        over_frames ds breaks
          (record l { checks = checks; camera = process_frame d.encodes d.now d.frame l.camera })
  ]
]

-- `except Exception` and `finally`
unfoldable pub after_try : Option String × Loop → Loop
unfolding connection_failed connection_closed
after_try (none, l) = record l { camera = connection_closed l.camera }
after_try (some message, l) = record l {
  camera = connection_closed (connection_failed message l.camera);
}

-- The `try` statement over one connection.
unfoldable pub attempt : Connection → Loop → Loop
unfolding over_frames after_try connection_opened
attempt (refused message) l = after_try (some message, l)
attempt (connected ds breaks) l =
    after_try (over_frames ds breaks (record l { camera = connection_opened l.camera }))

-- `if not self._stop_event.is_set(): time.sleep(...)`
unfoldable pub wait : Loop → Loop
wait l = elim l.checks [
  | zero ↦ l
  | suc checks ↦ record l { checks = checks; sleeps = suc l.sleeps }
]

-- `_run`, over the connections that the camera grants.
unfoldable pub run_thread : List Connection → Loop → Loop
unfolding attempt wait
run_thread [] l = l
run_thread (c ∷ cs) l = elim l.checks [
  | zero ↦ l
  | suc checks ↦ run_thread cs (wait (attempt c (record l { checks = checks })))
]
