-- ===== src/Sentinel/Migration/Environment.antt =====
-- How the operations of a migration are run: cat-sentinel/alembic/env.py. Alembic's `run_migrations` is the
-- argument `migrate`, which may have changed the schema when it raises. `begin_transaction` is a
-- transaction, which an exception rolls back, only on a database with `transactional_ddl`: PostgreSQL has
-- it; on SQLite, the default of the settings, it is no transaction. `connects` is how `connect` ends.
pub mod Online
mod Tests
use cat_sentinel.Prelude.{
  String, Bool, true, false, List, [], ◌∷◌, Option, none, some, Outcome, ok, raise, if◌then◌else◌,
}

-- The database and what the process holds of it.
pub record Held (Schema : Type 0) : Type 0 where
  pub schema : Schema
  pub connection_open : Bool
  pub engine_disposed : Bool

module _ {Err Schema : Type 0} (transactional_ddl : Bool)
    (migrate : Schema → Outcome Err (Unit {0}) × Schema) where
  -- `with context.begin_transaction(): context.run_migrations()`
  unfoldable pub do_run_migrations : Schema → Outcome Err (Unit {0}) × Schema
  do_run_migrations schema =
      let (r, schema') = migrate schema in
      elim r [
        | ok u ↦ (ok u, schema')
        | raise e ↦ (raise e, if transactional_ddl then schema else schema')
      ]

  -- `await connectable.dispose()`, which an exception skips.
  abbrev pub dispose_after :
      Outcome Err (Unit {0}) → Held Schema → Outcome Err (Unit {0}) × Held Schema
  dispose_after (ok u) h = (ok u, record h { engine_disposed = true })
  dispose_after (raise e) h = (raise e, h)

  -- `async with connectable.connect()`: the connection is closed in any case.
  unfoldable pub run_migrations_online :
      (connects : Outcome Err (Unit {0})) → Schema → Outcome Err (Unit {0}) × Held Schema
  unfolding do_run_migrations
  run_migrations_online (raise e) schema =
      (raise e, record { schema = schema; connection_open = false; engine_disposed = false })
  run_migrations_online (ok u) schema =
      let (r, schema') = do_run_migrations schema in
      dispose_after r
        (record { schema = schema'; connection_open = false; engine_disposed = false })
