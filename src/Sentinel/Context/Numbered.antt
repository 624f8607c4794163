-- ===== src/Sentinel/Context/Numbered.antt =====
-- The ids of the requests of a run.
use cat_sentinel.Prelude.{
  ◌≡◌, refl, sym, ap, inl, inr, Bool-cases, ◌∙◌, String, Bool, List, [], ◌∷◌, ◌++◌, Option, some,
  Outcome, ok, raise, if◌then◌else◌,
}
use mathlib.Core.List.{append_assoc, append-nil}
use cat_sentinel.Camera.Context.{Line, request_failed, request_done, Response}
use cat_sentinel.Sentinel.Context.{after_next, dispatch}

module _ {Err : Type 0} (is_exception : Err → Bool) where
  -- A request: what the client sent as its id, what was generated, and what the application does with it.
  pub record Request : Type 0 where
    pub header : Option String
    pub generated : String
    pub answer : String → Outcome Err Response

  -- The requests one after another, each with the log that the one before has left.
  unfoldable pub serve_all : List Request → List Line → List (Outcome Err Response) × List Line
  serve_all [] log = ([], log)
  serve_all (r ∷ rs) log =
      let (o, log1) = dispatch is_exception r.header r.generated (λ id l. (r.answer id, l)) log in
      let (os, log2) = serve_all rs log1 in (o ∷ os, log2)

  abbrev pub numbered : String → Outcome Err Response → Outcome Err Response
  numbered request_id (ok r) = ok (record r { x_request_id = some request_id })
  numbered request_id (raise e) = raise e

  abbrev pub line_of : String → Outcome Err Response → List Line
  line_of request_id (ok r) = request_done r.status request_id ∷ []
  line_of request_id (raise e) = if is_exception e then request_failed request_id ∷ [] else []

  abbrev pub answers : List Request → List (Outcome Err Response)
  answers [] = []
  answers (r ∷ rs) = numbered r.generated (r.answer r.generated) ∷ answers rs

  abbrev pub lines : List Request → List Line
  lines [] = []
  lines (r ∷ rs) = line_of r.generated (r.answer r.generated) ++ lines rs

  dispatch-numbered :
      (header : Option String) (generated : String) (o : Outcome Err Response) (log : List Line)
      → dispatch is_exception header generated (λ id l. (o, l)) log
        ≡ (numbered generated o, log ++ line_of generated o)
  unfolding dispatch after_next
  dispatch-numbered header generated (ok r) log = refl
  dispatch-numbered header generated (raise e) log = elim (Bool-cases (is_exception e)) [
    | inl caught ↦ rw caught refl
    | inr base ↦ rw base (ap (λ l. (raise e, l)) (sym (append-nil log)))
  ]

  -- Over any requests, answered by their own ids: each answer carries the id that was generated for it,
  -- whatever id the client has sent, an exception goes on as it is, and the log has one line for each request
  -- that was answered or failed with an Exception, in order.
  pub serve_all-answers :
      (rs : List Request) (log : List Line) → serve_all rs log ≡ (answers rs, log ++ lines rs)
  unfolding serve_all dispatch
  serve_all-answers [] log = ap (λ l. ([], l)) (sym (append-nil log))
  serve_all-answers (r ∷ rs) log =
      let o = r.answer r.generated in
      let line = line_of r.generated o in
      ap (λ p. (p.0 ∷ (serve_all rs p.1).0, (serve_all rs p.1).1))
        (dispatch-numbered r.header r.generated o log)
      ∙ ap (λ p. (numbered r.generated o ∷ p.0, p.1)) (serve_all-answers rs (log ++ line))
      ∙ ap (λ l. (numbered r.generated o ∷ answers rs, l)) (append_assoc log line (lines rs))
