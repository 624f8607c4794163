-- ===== src/Camera/Recordings/Passes.antt =====
-- `run_reconciliation_loop`, camera/app/recordings/service.py: one pass after another, until the task is
-- cancelled.
use cat_sentinel.Prelude.{
  ℕ, ◌≡◌, String, Bool, true, List, [], ◌∷◌, ◌++◌, Option, none, some, take, ℕ_discrete, Distinct,
  insert-Distinct, if◌then◌else◌, Bool-cases, inl, inr, arith, subst,
}
use cat_sentinel.Prelude.Tables.{Table, find}
use cat_sentinel.Camera.Recordings.{Recording, put_if, fix_up, reconcile_rows, reconcile}
use cat_sentinel.Camera.Recordings.Reconciled.{IsHonest, reconcile-IsHonest}

-- What a pass meets: what the requests have done to the table before it, the disk, and, if an exception
-- ends it, how many rows it has seen to by then (each row is committed by itself).
pub record Pass : Type 0 where
  pub requests : Table Recording → Table Recording
  pub on_disk : String → Option ℕ
  pub completes : Bool
  pub rows_before : ℕ

-- The body of the loop, with its `except Exception`.
unfoldable pub reconciliation_pass : Pass → Table Recording → Table Recording
unfolding reconcile reconcile_rows
reconciliation_pass p t =
    let rows = p.requests t in
    if p.completes
    then reconcile p.on_disk rows
    else reconcile_rows p.on_disk (take p.rows_before rows) rows

unfoldable pub run_reconciliation_loop : List Pass → Table Recording → Table Recording
unfolding reconciliation_pass
run_reconciliation_loop [] t = t
run_reconciliation_loop (p ∷ ps) t = run_reconciliation_loop ps (reconciliation_pass p t)

put_if-Distinct :
    (id : ℕ) (o : Option Recording) (t : Table Recording)
    → Distinct ℕ_discrete t
    → Distinct ℕ_discrete (put_if id o t)
put_if-Distinct id none t d = d
put_if-Distinct id (some r) t d = insert-Distinct ℕ_discrete id r t d

pub reconcile_rows-Distinct :
    (on_disk : String → Option ℕ) (rows : List (ℕ × Recording)) (t : Table Recording)
    → Distinct ℕ_discrete t
    → Distinct ℕ_discrete (reconcile_rows on_disk rows t)
unfolding reconcile_rows
reconcile_rows-Distinct on_disk [] t d = d
reconcile_rows-Distinct on_disk ((id, r) ∷ rows) t d =
    reconcile_rows-Distinct on_disk rows (put_if id (fix_up (on_disk r.filename) r) t)
      (put_if-Distinct id (fix_up (on_disk r.filename) r) t d)

-- The requests keep the primary key.
abbrev pub KeepsKeys : Pass → Type 0
KeepsKeys p = (t : Table Recording) → Distinct ℕ_discrete t → Distinct ℕ_discrete (p.requests t)

reconciliation_pass-Distinct :
    (p : Pass) (t : Table Recording)
    → KeepsKeys p
    → Distinct ℕ_discrete t
    → Distinct ℕ_discrete (reconciliation_pass p t)
unfolding reconciliation_pass reconcile
reconciliation_pass-Distinct p t keeps d = elim (Bool-cases p.completes) [
  | inl e ↦
      subst (Distinct ℕ_discrete) {x = reconcile_rows p.on_disk (p.requests t) (p.requests t)}
        (ground (arith, e))
        (reconcile_rows-Distinct p.on_disk (p.requests t) (p.requests t) (keeps t d))
  | inr e ↦
      subst (Distinct ℕ_discrete)
        {x = reconcile_rows p.on_disk (take p.rows_before (p.requests t)) (p.requests t)}
        (ground (arith, e))
        (reconcile_rows-Distinct p.on_disk (take p.rows_before (p.requests t)) (p.requests t)
          (keeps t d))
]

abbrev pub AllKeepKeys : List Pass → Type 0
AllKeepKeys [] = Unit
AllKeepKeys (p ∷ ps) = KeepsKeys p × AllKeepKeys ps

-- However many passes have failed, and wherever in their rows: behind a pass that completes, every row is
-- true to the disk that it met.
pub run_reconciliation_loop-IsHonest :
    (ps : List Pass) (p : Pass) (t : Table Recording) (id : ℕ) (r : Recording)
    → AllKeepKeys ps
    → KeepsKeys p
    → p.completes ≡ true
    → Distinct ℕ_discrete t
    → find id (run_reconciliation_loop (ps ++ p ∷ []) t) ≡ some r
    → IsHonest p.on_disk r
unfolding run_reconciliation_loop reconciliation_pass
run_reconciliation_loop-IsHonest [] p t id r all keeps done d h =
    reconcile-IsHonest p.on_disk (p.requests t) id r (keeps t d) (ground (arith, done, h))
run_reconciliation_loop-IsHonest (q ∷ ps) p t id r (k, ks) keeps done d h =
    run_reconciliation_loop-IsHonest ps p (reconciliation_pass q t) id r ks keeps done
      (reconciliation_pass-Distinct q t k d) h
