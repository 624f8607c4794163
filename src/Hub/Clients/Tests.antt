-- ===== src/Hub/Clients/Tests.antt =====
-- Three requests, a server that fails, and two clients that close.
use cat_sentinel.Prelude.{String, List, [], ◌∷◌, Outcome, ok, raise}
use cat_sentinel.Hub.Clients.{default_settings, Request, list_trackers, stream_annotated, lifespan}
use cat_sentinel.Hub.Clients.Closed.{AreLimited, EndsWith, lifespan-AreLimited}

abbrev requests : List Request
requests = stream_annotated ∷ list_trackers ∷ stream_annotated ∷ []

abbrev cancelled : Outcome String (Unit {0})
cancelled = raise "CancelledError"

lifespan-AreLimited_example :
    AreLimited default_settings requests
      (lifespan default_settings requests cancelled (ok tt) (ok tt)).0
    × EndsWith cancelled
        (ok tt)
        (ok tt)
        (lifespan default_settings requests cancelled (ok tt) (ok tt)).1
lifespan-AreLimited_example =
    lifespan-AreLimited default_settings requests cancelled (ok tt) (ok tt)
