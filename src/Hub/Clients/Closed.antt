-- ===== src/Hub/Clients/Closed.antt =====
-- Which client a request is given, and what the end of the application leaves.
use cat_sentinel.Prelude.{
  ◌≡◌, refl, true, false, List, [], ◌∷◌, none, some, Outcome, ok, raise, map,
}
use cat_sentinel.Hub.Clients.{
  Settings, Client, State, build_cat_sentinel_control_client, build_cat_sentinel_stream_client,
  startup, Request, list_trackers, stream_annotated, client_of, shutdown, lifespan,
}

-- The time limit that a request to cat-sentinel is under.
abbrev pub Limited : Settings → Request → Client → Type 0
Limited settings list_trackers c =
    (c.timeout ≡ some settings.upstream_control_timeout) × (c.closed ≡ false)
Limited settings stream_annotated c = (c.timeout ≡ none) × (c.closed ≡ false)

-- The requests with their clients, one for one.
abbrev pub AreLimited : Settings → List Request → List Client → Type 0
AreLimited settings [] cs = cs ≡ []
AreLimited settings (r ∷ rs) [] = ⊥
AreLimited settings (r ∷ rs) (c ∷ cs) = Limited settings r c × AreLimited settings rs cs

clients_of :
    (settings : Settings) (requests : List Request)
    → AreLimited settings requests (map (client_of (startup settings)) requests)
unfolding startup client_of build_cat_sentinel_control_client build_cat_sentinel_stream_client
clients_of settings [] = refl
clients_of settings (list_trackers ∷ rs) = ((refl, refl), clients_of settings rs)
clients_of settings (stream_annotated ∷ rs) = ((refl, refl), clients_of settings rs)

-- What the end of the application leaves, by how the two calls of `aclose` end.
abbrev pub EndsWith :
    {Err : Type 0}
    → (served first second : Outcome Err (Unit {0})) → Outcome Err (Unit {0}) × State
    → Type 0
EndsWith served (raise e) second (r, s) =
    (r ≡ raise e)
    × (s.cat_sentinel_control_client.closed ≡ false)
    × (s.cat_sentinel_stream_client.closed ≡ false)
EndsWith served (ok _) (raise e) (r, s) =
    (r ≡ raise e)
    × (s.cat_sentinel_control_client.closed ≡ true)
    × (s.cat_sentinel_stream_client.closed ≡ false)
EndsWith served (ok _) (ok _) (r, s) =
    (r ≡ served)
    × (s.cat_sentinel_control_client.closed ≡ true)
    × (s.cat_sentinel_stream_client.closed ≡ true)

-- While the application serves, a request for the trackers is given an open client with the time limit
-- of the settings, and a request for the stream an open client without any. At its end, however that
-- comes about, both clients are closed and the end is passed on, if both calls of `aclose` return; an
-- exception of one of them takes the end's place, and one of the first leaves the second client open.
pub lifespan-AreLimited :
    {Err : Type 0} (settings : Settings) (requests : List Request)
    (served first second : Outcome Err (Unit {0}))
    → AreLimited settings requests (lifespan settings requests served first second).0
      × EndsWith served first second (lifespan settings requests served first second).1
unfolding lifespan shutdown startup build_cat_sentinel_control_client
    build_cat_sentinel_stream_client
lifespan-AreLimited settings requests served (raise e) second =
    (clients_of settings requests, (refl, refl, refl))
lifespan-AreLimited settings requests served (ok u) (raise e) =
    (clients_of settings requests, (refl, refl, refl))
lifespan-AreLimited settings requests served (ok u) (ok v) =
    (clients_of settings requests, (refl, refl, refl))
