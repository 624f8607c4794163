-- ===== src/Sentinel/Errors.antt =====
-- cat-sentinel/app/core/exceptions.py: the exceptions of the service and the HTTP status that the
-- registered handler, or FastAPI for an exception with no handler, gives each.
use cat_sentinel.Prelude.{ℕ, String, Option}

-- What the `detail` text of an exception is formatted from.
pub data Detail : Type 0 where
  zone_not_found : (zone_id : ℕ) → Detail
  zone_name_taken : (camera_id : String) (name : Option String) → Detail
  cat_not_found : (cat_id : ℕ) → Detail
  cat_not_updated : (cat_id : ℕ) → Detail
  no_annotated_frame : Detail

pub data AppError : Type 0 where
  not_found invalid_request unauthorized conflict frame_not_available : Detail → AppError
  validation_error : AppError
  -- exceptions that no handler is registered for
  integrity_error type_error zero_division value_error http_error : AppError

unfoldable pub status_code : AppError → ℕ
status_code (not_found d) = 404
status_code (invalid_request d) = 400
status_code (unauthorized d) = 401
status_code (conflict d) = 409
status_code (frame_not_available d) = 503
status_code validation_error = 422
status_code _ = 500
