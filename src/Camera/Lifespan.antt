-- ===== src/Camera/Lifespan.antt =====
-- `lifespan` of camera/app/main.py: what owns the camera's thread, the motor's controller and the
-- reconciliation task. `probe` is the constructor of PTZController, which asks the camera.
pub mod Shutdown
mod Tests
use cat_sentinel.Prelude.{ℕ, Bool, true, false, List, Outcome, ok, raise, if◌then◌else◌}
use cat_sentinel.Camera.Errors.{CameraError}
use cat_sentinel.Camera.Bridge.{Ends, RtspCamera, new_camera, start, stop}
use cat_sentinel.Camera.Bridge.Keeps.{Step, run}

-- `app.state`, and the task.
pub record App : Type 0 where
  pub camera : RtspCamera
  pub has_ptz_controller : Bool
  pub has_command_dispatcher : Bool
  pub reconciling : Bool

unfoldable pub new_app : App
unfolding new_camera
new_app = record {
  camera = new_camera;
  has_ptz_controller = false;
  has_command_dispatcher = false;
  reconciling = false;
}

-- Up to `yield`. The `try` statement is entered behind all of this.
unfoldable pub startup :
    (probe : Outcome CameraError (Unit {0})) → Outcome CameraError (Unit {0}) × App
unfolding new_app start
startup (raise e) = (raise e, record new_app { camera = start new_app.camera })
startup (ok u) = (
  ok u,
  record {
    camera = start new_app.camera;
    has_ptz_controller = true;
    has_command_dispatcher = true;
    reconciling = true;
  },
)

-- The `finally`: the task is cancelled and waited for, with its CancelledError suppressed, and the camera
-- is stopped.
unfoldable pub shutdown : (ends : Ends) → App → Outcome CameraError (Unit {0}) × App
unfolding stop
shutdown ends a =
    ((stop ends a.camera).0, record a { reconciling = false; camera = (stop ends a.camera).1 })

-- What happens while the application serves.
unfoldable pub serving : List Step → App → App
unfolding run
serving steps a = record a { camera = run steps a.camera }

abbrev pub served :
    (ends : Ends)
    → List Step
    → Outcome CameraError (Unit {0}) × App
    → Outcome CameraError (Unit {0}) × App
served ends steps (raise e, a) = (raise e, a)
served ends steps (ok u, a) = shutdown ends (serving steps a)

-- The whole context manager.
unfoldable pub lifespan :
    (probe : Outcome CameraError (Unit {0})) (ends : Ends)
    → List Step
    → Outcome CameraError (Unit {0}) × App
unfolding startup shutdown serving
lifespan probe ends steps = served ends steps (startup probe)
