-- ===== src/Camera/Context/Traced.antt =====
-- The lines of a request, and the context variable behind it.
use mathlib.Core.List.{append_assoc, append-nil}
use cat_sentinel.Prelude.{
  ◌≡◌, refl, ◌∙◌, ℕ, ap, String, Bool, List, [], ◌∷◌, ◌++◌, Option, some, Outcome, ok, raise, arith,
  if◌then◌else◌, Bool-cases, inl, inr,
}
use cat_sentinel.Camera.Context.{
  Line, called, method_failed, request_failed, request_done, Context, Response, id_of, after_call,
  log_call, answer_of, after_route, call_next, after_next, dispatch,
}

module _ {Err : Type 0} (is_exception : Err → Bool) where
  -- A method that only reads the context.
  abbrev pub reading : (String → Outcome Err Response) → Context → Outcome Err Response × Context
  reading method c = (method c.request_id, c)

  -- What comes out of the handlers.
  abbrev pub answer_to : (handler_of : Err → Option ℕ) → Outcome Err Response → Outcome Err Response
  answer_to handler_of (ok r) = ok r
  answer_to handler_of (raise e) = answer_of is_exception e (handler_of e)

  -- What the client gets of the method's end.
  abbrev pub with_id : String → Outcome Err Response → Outcome Err Response
  with_id request_id (ok r) = ok (record r { x_request_id = some request_id })
  with_id request_id (raise e) = raise e

  abbrev pub if_exception : Err → Line → List Line
  if_exception e l = if is_exception e then l ∷ [] else []

  -- The lines of the call, and those of the request.
  abbrev pub lines_of_call : (qualname : String) → Outcome Err Response → List Line
  lines_of_call qualname (ok r) = called qualname ∷ []
  lines_of_call qualname (raise e) = called qualname ∷ if_exception e (method_failed qualname)

  abbrev pub lines_of_request : (request_id : String) → Outcome Err Response → List Line
  lines_of_request request_id (ok r) = request_done r.status request_id ∷ []
  lines_of_request request_id (raise e) = if_exception e (request_failed request_id)

  after_call_lem :
      (qualname request_id : String) (log : List Line) (o : Outcome Err Response)
      → after_call is_exception qualname
          (o, record { request_id = request_id; log = log ++ called qualname ∷ [] })
        ≡ (o, record { request_id = request_id; log = log ++ lines_of_call qualname o })
  unfolding after_call
  after_call_lem qualname request_id log (ok r) = refl
  after_call_lem qualname request_id log (raise e) = elim (Bool-cases (is_exception e)) [
    | inr base ↦ ground (arith, base)
    | inl caught ↦
        ground
          (arith, caught, append_assoc log (called qualname ∷ []) (method_failed qualname ∷ []))
  ]

  after_route_lem :
      (handler_of : Err → Option ℕ) (o : Outcome Err Response) (c : Context)
      → after_route is_exception handler_of (o, c) ≡ (answer_to handler_of o, c)
  unfolding after_route
  after_route_lem handler_of (ok r) c = refl
  after_route_lem handler_of (raise e) c = refl

  after_next_lem :
      (request_id : String) (o : Outcome Err Response) (c : Context)
      → after_next is_exception request_id (o, c)
        ≡ (with_id request_id o, record c { log = c.log ++ lines_of_request request_id o })
  unfolding after_next
  after_next_lem request_id (ok r) c = refl
  after_next_lem request_id (raise e) c = elim (Bool-cases (is_exception e)) [
    | inl caught ↦ rw caught refl
    | inr base ↦ rw (base, append-nil c.log) refl
  ]

  -- A request whose route calls a logged method, with the handlers of the exceptions around the route: the
  -- method sees the request's id; what the handlers make of its end reaches the client, with the header
  -- with that id; the log has exactly the lines of the call and of the request behind what it had; and
  -- the context variable is what it was before.
  pub dispatch-log_call :
      (handler_of : Err → Option ℕ) (header : Option String) (generated qualname : String)
      (method : String → Outcome Err Response) (c : Context)
      → let request_id = id_of header generated in
        let o = method request_id in
        let answer = answer_to handler_of o in
        dispatch is_exception header generated
          (call_next is_exception handler_of (log_call is_exception qualname (reading method)))
          c
        ≡ (
          with_id request_id answer,
          record c {
            log = (c.log ++ lines_of_call qualname o) ++ lines_of_request request_id answer;
          },
        )
  unfolding dispatch log_call call_next
  dispatch-log_call handler_of header generated qualname method c =
      let request_id = id_of header generated in
      let o = method request_id in
      let c1 : Context = record {
        request_id = request_id;
        log = c.log ++ lines_of_call qualname o;
      } in
      ap (λ r. (r.0, record r.1 { request_id = c.request_id }))
        (ap (λ r. after_next is_exception request_id (after_route is_exception handler_of r))
            (after_call_lem qualname request_id c.log o)
          ∙ ap (after_next is_exception request_id) (after_route_lem handler_of o c1)
          ∙ after_next_lem request_id (answer_to handler_of o) c1)
