-- ===== src/Camera/Context.antt =====
-- What surrounds a request: `RequestContextMiddleware` of camera/app/settings/middleware.py, and
-- `log_call` and `log_errors` of camera/app/core/decorators.py. The application, the methods and the
-- exceptions that derive from Exception are arguments.
pub mod Traced
pub mod Decorated
mod Tests
use text.Mathlib.Text.{starts_with}
use cat_sentinel.Prelude.{
  ℕ, String, Bool, true, false, List, [], ◌∷◌, ◌++◌, Option, none, some, Outcome, ok, raise, ite,
  str_dec, if◌then◌else◌, Dict, insert,
}

pub data Line : Type 0 where
  -- `log_call`: "%s called" and "%s failed"
  called method_failed : (qualname : String) → Line
  -- the middleware, with the id of the request
  request_failed : (request_id : String) → Line
  request_done : (status : ℕ) (request_id : String) → Line

-- The context variable and the log.
pub record Context : Type 0 where
  pub request_id : String
  pub log : List Line

pub record Response : Type 0 where
  pub status : ℕ
  pub x_request_id : Option String

abbrev pub add_line : Line → Context → Context
add_line l c = record c { log = c.log ++ l ∷ [] }

-- `request.headers.get("X-Request-ID") or str(uuid.uuid4())`
unfoldable pub id_of : (header : Option String) (generated : String) → String
id_of none generated = generated
id_of (some header) generated = ite (str_dec header "") generated header

-- What a class holds under a name: something callable, or a value.
pub data Attribute (Err A V : Type 0) : Type 0 where
  callable : (Context → Outcome Err A × Context) → Attribute Err A V
  value : V → Attribute Err A V

-- `name.startswith("_")`
abbrev pub is_private : String → Bool
is_private name = starts_with name "_"

module _ {Err : Type 0} (is_exception : Err → Bool) where
  -- `except Exception`
  abbrev pub log_exception : Line → Err → Context → Context
  log_exception l e c = if is_exception e then add_line l c else c

  unfoldable pub after_call :
      {A : Type 0} → String → Outcome Err A × Context → Outcome Err A × Context
  after_call qualname (ok a, c) = (ok a, c)
  after_call qualname (raise e, c) = (raise e, log_exception (method_failed qualname) e c)

  -- `async_wrapper` and `sync_wrapper`
  unfoldable pub log_call :
      {A : Type 0}
      → String
      → (func : Context → Outcome Err A × Context) → Context
      → Outcome Err A × Context
  unfolding after_call
  log_call qualname func c = after_call qualname (func (add_line (called qualname) c))

  module _ {A V : Type 0} (qualname_of : String → String) where
    -- The body of the loop of `log_errors`, with its `continue`.
    unfoldable pub log_attribute :
        String × Attribute Err A V
        → Dict String (Attribute Err A V)
        → Dict String (Attribute Err A V)
    unfolding log_call
    log_attribute (name, value v) vars = vars
    log_attribute (name, callable attr) vars =
        if is_private name
        then vars
        else insert str_dec name (callable (log_call (qualname_of name) attr)) vars

    -- The loop over the snapshot `list(vars(cls).items())`, which sets attributes of the class as it goes.
    unfoldable pub log_each :
        List (String × Attribute Err A V)
        → Dict String (Attribute Err A V)
        → Dict String (Attribute Err A V)
    unfolding log_attribute
    log_each [] vars = vars
    log_each (item ∷ items) vars = log_each items (log_attribute item vars)

    -- `log_errors`, on `vars(cls)`
    unfoldable pub log_errors : Dict String (Attribute Err A V) → Dict String (Attribute Err A V)
    unfolding log_each
    log_errors vars = log_each vars vars

  -- What stands between the middleware and the routes: the handlers that `register_exception_handlers` has
  -- registered make answers of the exceptions of their classes; the others go on.
  abbrev pub answer_of : Err → (status : Option ℕ) → Outcome Err Response
  answer_of e none = raise e
  answer_of e (some status) = ok (record { status = status; x_request_id = none })

  unfoldable pub after_route :
      (handler_of : Err → Option ℕ)
      → Outcome Err Response × Context
      → Outcome Err Response × Context
  after_route handler_of (ok r, c) = (ok r, c)
  after_route handler_of (raise e, c) = (answer_of e (handler_of e), c)

  unfoldable pub call_next :
      (handler_of : Err → Option ℕ) (route : Context → Outcome Err Response × Context)
      → Context
      → Outcome Err Response × Context
  unfolding after_route
  call_next handler_of route c = after_route handler_of (route c)

  unfoldable pub after_next :
      String → Outcome Err Response × Context → Outcome Err Response × Context
  after_next request_id (ok r, c) = (
    ok (record r { x_request_id = some request_id }),
    add_line (request_done r.status request_id) c,
  )
  after_next request_id (raise e, c) = (raise e, log_exception (request_failed request_id) e c)

  -- `_request_id_ctx.reset(token)`
  abbrev pub reset_to : {A : Type 0} → String → Outcome Err A × Context → Outcome Err A × Context
  reset_to before (o, c) = (o, record c { request_id = before })

  -- `RequestContextMiddleware.dispatch`
  unfoldable pub dispatch :
      (header : Option String) (generated : String)
      (call_next : Context → Outcome Err Response × Context)
      → Context
      → Outcome Err Response × Context
  unfolding id_of after_next
  dispatch header generated call_next c =
      let request_id = id_of header generated in
      reset_to c.request_id
        (after_next request_id (call_next (record c { request_id = request_id })))
