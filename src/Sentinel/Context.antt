-- ===== src/Sentinel/Context.antt =====
-- What surrounds a request to cat-sentinel: cat-sentinel/app/settings/middleware.py and
-- cat-sentinel/app/core/decorators.py. The decorators are those of the camera; the middleware reads no
-- header and keeps no context variable: the id is an attribute of the request.
pub mod Numbered
mod Tests
use cat_sentinel.Prelude.{
  String, Bool, List, [], ◌∷◌, ◌++◌, Option, some, Outcome, ok, raise, Dict, if◌then◌else◌,
}
use cat_sentinel.Camera.Context
use cat_sentinel.Camera.Context.{Line, request_failed, request_done, Response, Attribute}

module _ {Err : Type 0} (is_exception : Err → Bool) where
  abbrev pub log_call :
      {A : Type 0}
      → String
      → (Context.Context → Outcome Err A × Context.Context)
      → Context.Context
      → Outcome Err A × Context.Context
  log_call = Context.log_call is_exception

  abbrev pub log_errors :
      {A V : Type 0}
      → (String → String)
      → Dict String (Attribute Err A V)
      → Dict String (Attribute Err A V)
  log_errors = Context.log_errors is_exception

  unfoldable pub after_next :
      String → Outcome Err Response × List Line → Outcome Err Response × List Line
  after_next request_id (ok r, log) = (
    ok (record r { x_request_id = some request_id }),
    log ++ request_done r.status request_id ∷ [],
  )
  after_next request_id (raise e, log) =
      (raise e, if is_exception e then log ++ request_failed request_id ∷ [] else log)

  -- `RequestContextMiddleware.dispatch`. The header is what the client sent as X-Request-ID.
  unfoldable pub dispatch :
      (header : Option String) (generated : String)
      (call_next : (request_id : String) → List Line → Outcome Err Response × List Line)
      → List Line
      → Outcome Err Response × List Line
  unfolding after_next
  dispatch header generated call_next log = after_next generated (call_next generated log)
