-- ===== src/Sentinel/Migration/Environment/Online.antt =====
-- The migration and its undoing, as the environment runs them.
use cat_sentinel.Prelude.{
  ◌≡◌, refl, List, Option, none, some, Outcome, ok, raise, arith, Bool, true, false, if◌then◌else◌,
}
use cat_sentinel.Sentinel.Migration.{Operation, upgrade, downgrade}
use cat_sentinel.Sentinel.Migration.Undone.{Database, run, run-downgrade}
use cat_sentinel.Sentinel.Migration.Environment.{Held, do_run_migrations, run_migrations_online}

module _ {Err : Type 0} (transactional_ddl : Bool) (D : Database) (refused : Err)
    (halfway : List Operation → D.State → D.State) where
  abbrev ended : List Operation → D.State → Option D.State → Outcome Err (Unit {0}) × D.State
  ended os s none = (raise refused, halfway os s)
  ended os s (some s') = (ok tt, s')

  -- Alembic with one script: a refused operation raises, and may leave the database halfway.
  unfoldable pub script : List Operation → D.State → Outcome Err (Unit {0}) × D.State
  script os s = ended os s (run D os s)

  abbrev pub at_rest : D.State → Outcome Err (Unit {0}) × Held D.State
  at_rest s = (ok tt, record { schema = s; connection_open = false; engine_disposed = true })

  -- What a refused upgrade leaves.
  abbrev pub left_by_refused : D.State → D.State
  left_by_refused s = if transactional_ddl then s else halfway upgrade s

  abbrev pub failed : D.State → Outcome Err (Unit {0}) × Held D.State
  failed s = (
    raise refused,
    record { schema = left_by_refused s; connection_open = false; engine_disposed = false },
  )

  -- The undoing leads back; or the upgrade has failed.
  abbrev pub GoesBack : D.State → Option D.State → Type 0
  GoesBack s none = run_migrations_online transactional_ddl (script upgrade) (ok tt) s ≡ failed s
  GoesBack s (some s') =
      (run_migrations_online transactional_ddl (script upgrade) (ok tt) s ≡ at_rest s')
      × (run_migrations_online transactional_ddl (script downgrade) (ok tt) s' ≡ at_rest s)

  goes_back : (s : D.State) (r : Option D.State) → run D upgrade s ≡ r → GoesBack s r
  unfolding run_migrations_online do_run_migrations script
  goes_back s none e = ground (arith, e)
  goes_back s (some s') e = (ground (arith, e), ground (arith, run-downgrade D s s' e))

  -- On every database in which a drop undoes a creation, run over a connection that is made: an upgrade
  -- that goes through is undone by the downgrade, which goes through too. One that is refused, at whatever
  -- operation, raises, and leaves the schema as it was on a database with transactional DDL, and
  -- halfway, where Alembic has left it, on one without, such as SQLite. The connection is closed in each
  -- case, and the engine disposed of if the run has gone through.
  pub run_migrations_online-GoesBack : (s : D.State) → GoesBack s (run D upgrade s)
  run_migrations_online-GoesBack s = goes_back s (run D upgrade s) refl
