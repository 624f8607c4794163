-- ===== src/Hub/Clients.antt =====
-- The two clients of cat-sentinel: hub/app/core/dependencies.py, lifespan of hub/app/main.py, and the
-- settings of hub/app/settings/config.py that they read. How `aclose` ends is an argument.
pub mod Closed
mod Tests
use cat_sentinel.Prelude.{
  ℕ, String, Bool, true, false, List, [], ◌∷◌, Option, none, some, Outcome, ok, raise, map,
}

-- The settings with their defaults; the times are in seconds.
pub record Settings : Type 0 where
  pub cat_sentinel_base_url : String
  pub camera_base_url : String
  pub upstream_control_timeout : ℕ
  pub hub_port : ℕ
  pub debug : Bool
  pub log_level : String

abbrev pub default_settings : Settings
default_settings = record {
  cat_sentinel_base_url = "http://localhost:9001";
  camera_base_url = "http://localhost:9000";
  upstream_control_timeout = 10;
  hub_port = 8000;
  debug = false;
  log_level = "INFO";
}

-- An `httpx.AsyncClient`; `closed` says that its `aclose` has returned.
pub record Client : Type 0 where
  pub base_url : String
  pub timeout : Option ℕ
  pub closed : Bool

unfoldable pub build_cat_sentinel_control_client : Settings → Client
build_cat_sentinel_control_client settings = record {
  base_url = settings.cat_sentinel_base_url;
  timeout = some settings.upstream_control_timeout;
  closed = false;
}

unfoldable pub build_cat_sentinel_stream_client : Settings → Client
build_cat_sentinel_stream_client settings = record {
  base_url = settings.cat_sentinel_base_url;
  timeout = none;
  closed = false;
}

-- `app.state`
pub record State : Type 0 where
  pub cat_sentinel_control_client : Client
  pub cat_sentinel_stream_client : Client

-- The part of the lifespan before its `try`.
unfoldable pub startup : Settings → State
unfolding build_cat_sentinel_control_client build_cat_sentinel_stream_client
startup settings = record {
  cat_sentinel_control_client = build_cat_sentinel_control_client settings;
  cat_sentinel_stream_client = build_cat_sentinel_stream_client settings;
}

-- The requests that reach for cat-sentinel: `GET /trackers/` and `GET /stream/annotated`.
pub data Request : Type 0 where
  list_trackers stream_annotated : Request

-- `get_cat_sentinel_control_client` and `get_cat_sentinel_stream_client`, as the routes depend on them.
unfoldable pub client_of : State → Request → Client
client_of s list_trackers = s.cat_sentinel_control_client
client_of s stream_annotated = s.cat_sentinel_stream_client

abbrev pub mark_closed : Client → Client
mark_closed c = record c { closed = true }

module _ {Err : Type 0} where
  -- The `finally`: an exception of the first `aclose` skips the second.
  unfoldable pub shutdown :
      (first second : Outcome Err (Unit {0})) → State → Outcome Err (Unit {0}) × State
  shutdown (raise e) second s = (raise e, s)
  shutdown (ok u) (raise e) s = (
    raise e,
    record s { cat_sentinel_control_client = mark_closed s.cat_sentinel_control_client },
  )
  shutdown (ok u) (ok v) s = (
    ok tt,
    record {
      cat_sentinel_control_client = mark_closed s.cat_sentinel_control_client;
      cat_sentinel_stream_client = mark_closed s.cat_sentinel_stream_client;
    },
  )

  -- An exception of the `finally` replaces the one that was on its way.
  abbrev pub after_finally :
      Outcome Err (Unit {0}) → Outcome Err (Unit {0}) × State → Outcome Err (Unit {0}) × State
  after_finally served (raise e, s) = (raise e, s)
  after_finally served (ok u, s) = (served, s)

  -- The whole context manager: `served` is how the application ends, and the list is the requests that
  -- it has served, with the client that each was given.
  unfoldable pub lifespan :
      Settings
      → List Request
      → (served first second : Outcome Err (Unit {0}))
      → List Client × (Outcome Err (Unit {0}) × State)
  unfolding startup client_of shutdown
  lifespan settings requests served first second =
      let s = startup settings in
      (map (client_of s) requests, after_finally served (shutdown first second s))
