-- ===== src/Hub/Context.antt =====
-- What surrounds a request to the hub: hub/app/settings/middleware.py and hub/app/core/decorators.py, which
-- are those of cat-sentinel.
use cat_sentinel.Prelude.{String, Bool, List, Option, Outcome, Dict}
use cat_sentinel.Camera.Context.{Line, Response, Attribute}
use cat_sentinel.Camera.Context
use cat_sentinel.Sentinel.Context.{dispatch as sentinel_dispatch}

module _ {Err : Type 0} (is_exception : Err → Bool) where
  abbrev pub log_call :
      {A : Type 0}
      → String
      → (Context.Context → Outcome Err A × Context.Context)
      → Context.Context
      → Outcome Err A × Context.Context
  log_call = Context.log_call is_exception

  abbrev pub log_errors :
      {A V : Type 0}
      → (String → String)
      → Dict String (Attribute Err A V)
      → Dict String (Attribute Err A V)
  log_errors = Context.log_errors is_exception

  abbrev pub dispatch :
      (header : Option String) (generated : String)
      (call_next : (request_id : String) → List Line → Outcome Err Response × List Line)
      → List Line
      → Outcome Err Response × List Line
  dispatch = sentinel_dispatch is_exception
