-- ===== src/Camera/Context/Decorated.antt =====
-- What `log_errors` makes of a class.
use cat_sentinel.Prelude.{
  ◌≡◌, ◌∙◌, refl, ℕ, insert, String, Bool, false, [], ◌∷◌, ◌++◌, Option, none, some, Outcome, arith,
  Dict, lookup, Distinct, str_dec, if◌then◌else◌, Bool-cases, inl, inr, lookup-insert_self,
  lookup-insert_ne,
}
use cat_sentinel.Camera.Context.{
  Context, Response, Attribute, callable, value, is_private, log_call, log_attribute, log_each,
  log_errors, call_next, dispatch, id_of,
}
use cat_sentinel.Camera.Context.Traced.{
  reading, answer_to, with_id, lines_of_call, lines_of_request, dispatch-log_call,
}

module _ {Err : Type 0} (is_exception : Err → Bool) {A V : Type 0}
    (qualname_of : String → String) where
  -- The attribute that stands under a name once the loop has passed it.
  abbrev pub decorated : String → Attribute Err A V → Attribute Err A V
  decorated name (value v) = value v
  decorated name (callable attr) =
      if is_private name
      then callable attr
      else callable (log_call is_exception (qualname_of name) attr)

  abbrev after_loop : String → (item old : Option (Attribute Err A V)) → Option (Attribute Err A V)
  after_loop name none old = old
  after_loop name (some (value v)) old = old
  after_loop name (some (callable attr)) old =
      if is_private name
      then old
      else some (callable (log_call is_exception (qualname_of name) attr))

  lookup-log_each :
      (name : String) (items vars : Dict String (Attribute Err A V))
      → Distinct str_dec items
      → lookup str_dec name (log_each is_exception qualname_of items vars)
        ≡ after_loop name (lookup str_dec name items) (lookup str_dec name vars)
  unfolding log_each log_attribute lookup
  lookup-log_each name [] vars d = refl
  lookup-log_each name ((m, value v) ∷ items) vars (absent, d) =
      ground (arith, lookup-log_each name items vars d)
  lookup-log_each name ((m, callable attr) ∷ items) vars (absent, d) =
      let wrapped = callable (log_call is_exception (qualname_of m) attr) in
      let later = insert str_dec m wrapped vars in
      elim (Bool-cases (is_private m)) [
        | inl private ↦ ground (arith, private, lookup-log_each name items vars d)
        | inr public ↦ elim (str_dec name m) [
          | yes same ↦ ground (
            arith,
            public,
            same,
            lookup-log_each name items later d,
            lookup-insert_self str_dec m wrapped vars,
          )
          | no other ↦ ground (
            arith,
            public,
            lookup-log_each name items later d,
            lookup-insert_ne str_dec name m wrapped vars other,
          )
        ]
      ]

  abbrev pub decorated_if : String → Option (Attribute Err A V) → Option (Attribute Err A V)
  decorated_if name none = none
  decorated_if name (some attr) = some (decorated name attr)

  -- `log_errors` wraps each public callable of the class once, and changes no other attribute.
  pub lookup-log_errors :
      (name : String) (vars : Dict String (Attribute Err A V))
      → Distinct str_dec vars
      → lookup str_dec name (log_errors is_exception qualname_of vars)
        ≡ decorated_if name (lookup str_dec name vars)
  unfolding log_errors
  lookup-log_errors name vars d = lookup-log_each name vars vars d ∙ same (lookup str_dec name vars)
    where
      same :
          (found : Option (Attribute Err A V))
          → after_loop name found found ≡ decorated_if name found
      same none = refl
      same (some (value v)) = refl
      same (some (callable attr)) = elim (Bool-cases (is_private name)) [
        | inl private ↦ rw private refl
        | inr public ↦ rw public refl
      ]

module _ {Err : Type 0} (is_exception : Err → Bool) {V : Type 0}
    (qualname_of : String → String) where
  -- A request whose route calls a public method of a class that `log_errors` has decorated: the method
  -- sees the request's id. What it answers, or what the registered handler makes of its exception, reaches the
  -- client with that id as header; an exception without a handler goes on. The log gets, behind what it
  -- had, one line for the call, one for its failure if that is an Exception, and one for the request: its
  -- status, or its failure if an Exception goes on. The context variable is what it was before. If the
  -- class holds the method under that name, and no name twice.
  pub dispatch-log_errors :
      (handler_of : Err → Option ℕ) (vars : Dict String (Attribute Err Response V))
      (name generated : String) (header : Option String) (method : String → Outcome Err Response)
      (c : Context)
      → Distinct str_dec vars
      → is_private name ≡ false
      → lookup str_dec name vars ≡ some (callable (reading is_exception method))
      → let request_id = id_of header generated in
        let o = method request_id in
        let answer = answer_to is_exception handler_of o in
        (f : Context → Outcome Err Response × Context) × (lookup str_dec name
            (log_errors is_exception qualname_of vars)
          ≡ some (callable f))
        × (dispatch is_exception header generated (call_next is_exception handler_of f) c ≡ (
          with_id is_exception request_id answer,
          record c {
            log =
                (c.log ++ lines_of_call is_exception (qualname_of name) o)
                ++ lines_of_request is_exception request_id answer;
          },
        ))
  dispatch-log_errors handler_of vars name generated header method c d public held = (
    log_call is_exception (qualname_of name) (reading is_exception method),
    lookup-log_errors is_exception qualname_of name vars d ∙ rw (held, public) refl,
    dispatch-log_call is_exception handler_of header generated (qualname_of name) method c,
  )
