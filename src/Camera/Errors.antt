-- ===== src/Camera/Errors.antt =====
-- camera/app/core/exceptions.py, and the exceptions of other code that reach its handlers.
use cat_sentinel.Prelude.{ℕ, Option, none, some}

pub data CameraError : Type 0 where
  not_found conflict recording_in_progress frame_not_available unauthorized invalid_request :
      CameraError
  -- exceptions that no handler is registered for
  motor_error av_error key_error value_error overflow_error runtime_error : CameraError

unfoldable pub status_code : CameraError → ℕ
status_code not_found = 404
status_code invalid_request = 400
status_code unauthorized = 401
status_code conflict = 409
-- a ConflictError by inheritance
status_code recording_in_progress = 409
status_code frame_not_available = 503
status_code _ = 500

-- The status of the answer that the registered handlers make of an exception; none if no handler is
-- registered for its class.
unfoldable pub handler_of : CameraError → Option ℕ
handler_of not_found = some 404
handler_of invalid_request = some 400
handler_of unauthorized = some 401
handler_of conflict = some 409
handler_of recording_in_progress = some 409
handler_of frame_not_available = some 503
handler_of _ = none
