-- ===== src/Camera/Recorder/Passed.antt =====
-- A pass of `reconcile` beside the recorder.
use cat_sentinel.Prelude.{
  ℕ, ◌≡◌, ◌≢◌, sym, ap, ◌∙◌, String, Option, none, some, arith, ℕ_discrete, Distinct, Option-cases,
  inl, inr,
}
use cat_sentinel.Prelude.Tables.{Table, find}
use cat_sentinel.Camera.Recordings.{Recording, recording, fix_up, reconcile}
use cat_sentinel.Camera.Recordings.Reconciled.{fixed, fixed?, reconcile_lem}
use cat_sentinel.Camera.Recordings.Passes.{reconcile_rows-Distinct}
use cat_sentinel.Camera.Recorder.{Recorder}
use cat_sentinel.Camera.Recorder.Aligned.{IsAligned}

module _ (on_disk : String → Option ℕ) where
  fixed-filename : (r : Recording) → (fixed on_disk r).filename ≡ r.filename
  unfolding fix_up
  fixed-filename r = elim (Option-cases (on_disk r.filename)) [
    | inl e ↦ ground (arith, e)
    | inr (n, e) ↦ ground (arith, e)
  ]

  fixed-recording : (r : Recording) → (fixed on_disk r).status ≡ recording → r.status ≡ recording
  unfolding fix_up
  fixed-recording r s = elim (Option-cases (on_disk r.filename)) [
    | inl e ↦ ground (arith, e, s)
    | inr (n, e) ↦ ground (arith, e, s)
  ]

  fixed-current :
      (r : Recording) → r.status ≡ recording → on_disk r.filename ≢ none → fixed on_disk r ≡ r
  unfolding fix_up
  fixed-current r s there = elim (Option-cases (on_disk r.filename)) [
    | inl e ↦ absurd (there e)
    | inr (n, e) ↦ ground (arith, e, s)
  ]

  -- A row behind the pass is a row from before it.
  reconciled_from :
      (t : Table Recording) (id : ℕ) (r' : Recording)
      → Distinct ℕ_discrete t
      → find id (reconcile on_disk t) ≡ some r'
      → (r : Recording) × (find id t ≡ some r) × (fixed on_disk r ≡ r')
  reconciled_from t id r' d e = elim (Option-cases (find id t)) [
    | inl gone ↦ absurd (ground (arith, e, gone, reconcile_lem on_disk t id d))
    | inr (r, stored) ↦ (r, stored, ground (arith, e, stored, reconcile_lem on_disk t id d))
  ]

  pub reconcile-IsAligned :
      (r : Recorder)
      → ((id : ℕ) (row : Recording)
          → find id r.rows ≡ some row
          → row.status ≡ recording
          → on_disk row.filename ≢ none)
      → IsAligned r
      → IsAligned (record r { rows = reconcile on_disk r.rows })
  unfolding reconcile
  reconcile-IsAligned r there a = record {
    camera-IsValid = a.camera-IsValid;
    rows-Distinct = reconcile_rows-Distinct on_disk r.rows r.rows a.rows-Distinct;
    rows-Unique = λ i j v w ei ej same.
        let (v0, si, fi) = reconciled_from r.rows i v a.rows-Distinct ei in
        let (w0, sj, fj) = reconciled_from r.rows j w a.rows-Distinct ej in
        a.rows-Unique i j v0 w0 si sj (
          sym (fixed-filename v0)
          ∙ ap (λ x. x.filename) fi
          ∙ same
          ∙ sym (ap (λ x. x.filename) fj)
          ∙ fixed-filename w0);
    current = λ on.
        let k = a.current on in
        record {
          id = k.id;
          row = k.row;
          stored =
              reconcile_lem on_disk r.rows k.id a.rows-Distinct
              ∙ ap (fixed? on_disk) k.stored
              ∙ ap some
                  (fixed-current k.row k.in_progress (there k.id k.row k.stored k.in_progress));
          in_progress = k.in_progress;
          named = k.named;
        };
    only = λ id row e s.
        let (row0, stored, f) = reconciled_from r.rows id row a.rows-Distinct e in
        let (on, name) = a.only id row0 stored (fixed-recording row0 (ap (λ x. x.status) f ∙ s)) in
        (on, name ∙ ap some (sym (fixed-filename row0) ∙ ap (λ x. x.filename) f));
  }
