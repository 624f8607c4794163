-- ===== src/Camera/Recordings/Tests.antt =====
-- Two recordings, one of whose files is gone.
use cat_sentinel.Prelude.{
  true, false, ℕ, refl, String, [], ◌∷◌, Option, none, some, arith, ℕ_discrete, lookup, insert,
  str_dec, Distinct, ite,
}
use cat_sentinel.Prelude.Tables.{Table, Unique}
use cat_sentinel.Camera.Recordings.{
  completed, missing, Recording, filename_of, reconcile, reconcile_rows, fix_up,
}
use cat_sentinel.Camera.Recordings.Passes.{
  Pass, reconciliation_pass, run_reconciliation_loop, run_reconciliation_loop-IsHonest,
}
use cat_sentinel.Camera.Recordings.Reconciled.{IsHonest}
use cat_sentinel.Camera.Recordings.Started.{started}

-- Only `b.mp4` is on the disk.
abbrev on_disk : String → Option ℕ
on_disk filename = ite (str_dec filename "b.mp4") (some 700) none

abbrev done : String → Recording
done filename = record {
  filename = filename;
  started_at = 5;
  ended_at = some 9;
  duration_seconds = some 4;
  file_size_bytes = some 600;
  status = completed;
}

abbrev recordings : Table Recording
recordings = (1, done "a.mp4") ∷ (2, done "b.mp4") ∷ []

recordings-Distinct : Distinct ℕ_discrete recordings
unfolding lookup ℕ_discrete
recordings-Distinct = (refl, (refl, tt))

one-Unique : Unique filename_of str_dec ((1, done "a.mp4") ∷ [])
unfolding lookup ℕ_discrete
one-Unique i j v w ei ej q = ground arith

abbrev one_started : Table Recording
one_started = (1, done "a.mp4") ∷ (2, started 10 "b.mp4") ∷ []

-- A pass that fails behind one row, and one that completes.
abbrev failing : Pass
failing = record { requests = λ t. t; on_disk = on_disk; completes = false; rows_before = 1 }

abbrev completing : Pass
completing = record failing { completes = true }

run_reconciliation_loop-IsHonest_example :
    IsHonest on_disk (record (done "a.mp4") { status = missing })
unfolding run_reconciliation_loop reconciliation_pass reconcile reconcile_rows fix_up lookup insert
    ℕ_discrete str_dec
run_reconciliation_loop-IsHonest_example =
    run_reconciliation_loop-IsHonest (failing ∷ []) completing recordings 1
      (record (done "a.mp4") { status = missing }) ((λ t d. d), tt) (λ t d. d) refl
      recordings-Distinct refl
