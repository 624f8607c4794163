-- ===== src/Camera/Context/Tests.antt =====
-- A request with its own id, whose method raises.
use Prim.Native.String.{◌++◌ as ◌<>◌}
use cat_sentinel.Prelude.{
  ℕ, refl, Dict, lookup, insert, ◌≡◌, String, Bool, true, [], ◌∷◌, some, Outcome, ok, raise,
  str_dec,
}
use cat_sentinel.Camera.Errors.{CameraError, not_found, handler_of}
use cat_sentinel.Camera.Context.{
  request_done, called, method_failed, Context, Response, Attribute, callable, value, log_errors,
  id_of, log_call, call_next, dispatch,
}
use cat_sentinel.Camera.Context.Traced.{reading}
use cat_sentinel.Camera.Context.Decorated.{dispatch-log_errors}

abbrev all_caught : CameraError → Bool
all_caught e = true

abbrev method : String → Outcome CameraError Response
method request_id = raise not_found

abbrev context : Context
context = record { request_id = "-"; log = request_done 200 "r1" ∷ [] }

abbrev stop_method : Attribute CameraError Response ℕ
stop_method = callable (reading all_caught method)

-- A class with a private method, a public one and a number.
abbrev vars : Dict String (Attribute CameraError Response ℕ)
vars = ("__init__", stop_method) ∷ ("stop", stop_method) ∷ ("limit", value 3) ∷ []

abbrev qualname_of : String → String
qualname_of name = "Service." <> name

only_stop_is_wrapped :
    log_errors all_caught qualname_of vars
    ≡ ("__init__", stop_method)
      ∷ ("stop", callable (log_call all_caught "Service.stop" (reading all_caught method)))
      ∷ ("limit", value 3)
      ∷ []
unfolding log_errors insert str_dec
only_stop_is_wrapped = refl

-- The handler of NotFoundError makes an answer of the exception.
dispatch-log_errors_example :
    (f : Context → Outcome CameraError Response × Context) × (lookup str_dec "stop"
        (log_errors all_caught qualname_of vars)
      ≡ some (callable f))
    × (dispatch all_caught (some "r2") "uuid" (call_next all_caught handler_of f) context ≡ (
      ok (record { status = 404; x_request_id = some "r2" }),
      record context {
        log =
            request_done 200 "r1"
            ∷ called "Service.stop"
            ∷ method_failed "Service.stop"
            ∷ request_done 404 "r2"
            ∷ [];
      },
    ))
unfolding id_of str_dec lookup handler_of
dispatch-log_errors_example =
    dispatch-log_errors all_caught qualname_of handler_of vars "stop" "uuid" (some "r2") method
      context (refl, (refl, (refl, tt))) refl refl
