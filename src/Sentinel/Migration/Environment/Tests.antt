-- ===== src/Sentinel/Migration/Environment/Tests.antt =====
-- The migration of an empty database.
use cat_sentinel.Prelude.{false, String, List, []}
use cat_sentinel.Sentinel.Migration.{Operation, upgrade}
use cat_sentinel.Sentinel.Migration.Undone.{run}
use cat_sentinel.Sentinel.Migration.Tests.{names}
use cat_sentinel.Sentinel.Migration.Environment.Online.{GoesBack, run_migrations_online-GoesBack}

-- What a refused script leaves: nothing of what was there.
abbrev halfway : List Operation → List String → List String
halfway os s = []

run_migrations_online-GoesBack_example :
    GoesBack {Err = String} false names "refused" halfway [] (run names upgrade [])
run_migrations_online-GoesBack_example =
    run_migrations_online-GoesBack {Err = String} false names "refused" halfway []
