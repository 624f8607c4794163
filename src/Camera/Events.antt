-- ===== src/Camera/Events.antt =====
-- Event ingestion, camera/app/events/service.py. The JSON values in `params` and `metadata` are an
-- argument, `Json`; the dispatcher and the fan-out are arguments of `ingest`, which the service gets
-- by its constructor.
pub mod Log
mod Tests
use cat_sentinel.Prelude.{
  ℕ, suc, ◌-◌, String, Bool, true, false, List, [], ◌∷◌, ◌++◌, map, Option, none, some, Outcome, ok,
  raise, ◌>>=◌, Dict, lookup, insert, erase, str_dec, length, take,
}
use cat_sentinel.Prelude.Int.{ℤ, pos, negsuc}
use cat_sentinel.Camera.Errors.{CameraError, not_found}

-- MAX_EVENTS
abbrev pub max_events : ℕ
max_events = 500

module _ (Json : Type 0) where
  -- `{"command": ..., "params": ...}`
  pub record Mapping : Type 0 where
    pub command : String
    pub params : Json

  abbrev pub Mappings : Type 0
  Mappings = Dict String Mapping

  pub record EventTrigger : Type 0 where
    pub event_type : String
    pub camera_id : String
    pub metadata : Json
    pub timestamp : ℕ

  pub record EventRecord : Type 0 where
    pub trigger : EventTrigger
    pub command_dispatched : Option String
    pub command_success : Option Bool

  -- `_DEFAULT_COMMAND_MAP`, which each service copies; `duration_seconds n` is the params that hold the
  -- number n under that key.
  unfoldable pub default_command_map : (duration_seconds : ℕ → Json) → Mappings
  default_command_map duration_seconds =
      ("cat_detected", record { command = "light_on"; params = duration_seconds 30 })
      ∷ ("intruder_detected", record { command = "siren_on"; params = duration_seconds 10 })
      ∷ []

  -- `EventCommandMapService.list_all`, in the order of the dict.
  unfoldable pub list_all : Mappings → List (String × Mapping)
  list_all maps = maps

  -- `EventCommandMapService.get`
  unfoldable pub get : String → Mappings → Outcome CameraError Mapping
  get event_type maps = elim (lookup str_dec event_type maps) [
    | none ↦ raise not_found
    | some m ↦ ok m
  ]

  unfoldable pub upsert : String → Mapping → Mappings → Mappings
  upsert event_type m maps = insert str_dec event_type m maps

  unfoldable pub delete : String → Mappings → Outcome CameraError Mappings
  delete event_type maps = elim (lookup str_dec event_type maps) [
    | none ↦ raise not_found
    | some _ ↦ ok (erase str_dec event_type maps)
  ]

  unfoldable pub resolve : String → Mappings → Option Mapping
  resolve event_type maps = lookup str_dec event_type maps

  -- `deque(maxlen=MAX_EVENTS).appendleft`: the oldest record goes when the log is full.
  unfoldable pub record_event : EventRecord → List EventRecord → List EventRecord
  record_event r log = take max_events (r ∷ log)

  -- `list(log)[:limit]`
  unfoldable pub recent : (limit : ℤ) → List EventRecord → List EventRecord
  recent (pos n) log = take n log
  recent (negsuc n) log = take (length log - suc n) log

  -- What a call of `ingest` answers: the command, its success, and how many webhooks were told.
  pub record Ingested : Type 0 where
    pub command_dispatched : Option String
    pub command_success : Option Bool
    pub notified : ℕ

  -- The state of the world beside the log, which the dispatcher and the webhooks change.
  module _ {World E : Type 0} (dispatch : String → Json → World → Outcome E Bool × World)
      (webhook_fanout : EventTrigger → World → Outcome E ℕ × World) where
    -- `except Exception` around the fan-out
    unfoldable pub notified_or_zero : Outcome E ℕ → ℕ
    notified_or_zero (ok n) = n
    notified_or_zero (raise e) = 0

    -- From `log_service.record` on.
    unfoldable pub log_and_notify :
        EventTrigger
        → Option String
        → Option Bool
        → List EventRecord
        → World
        → Outcome E Ingested × List EventRecord × World
    unfolding record_event notified_or_zero
    log_and_notify t command success log w =
        let log' =
          record_event
            (record { trigger = t; command_dispatched = command; command_success = success }) log in
        let (notified, w') = webhook_fanout t w in
        (
          ok (record {
            command_dispatched = command;
            command_success = success;
            notified = notified_or_zero notified;
          }),
          log',
          w',
        )

    -- An exception of the dispatcher ends the request before anything is logged.
    unfoldable pub after_dispatch :
        EventTrigger
        → String
        → Outcome E Bool × World
        → List EventRecord
        → Outcome E Ingested × List EventRecord × World
    unfolding log_and_notify
    after_dispatch t command (ok success, w) log =
        log_and_notify t (some command) (some success) log w
    after_dispatch t command (raise e, w) log = (raise e, log, w)

    unfoldable pub ingest_resolved :
        EventTrigger
        → Option Mapping
        → List EventRecord
        → World
        → Outcome E Ingested × List EventRecord × World
    unfolding log_and_notify after_dispatch
    ingest_resolved t none log w = log_and_notify t none none log w
    ingest_resolved t (some m) log w =
        after_dispatch t m.command (dispatch m.command m.params w) log

    -- `EventIngestionService.ingest`
    unfoldable pub ingest :
        Mappings
        → EventTrigger
        → List EventRecord
        → World
        → Outcome E Ingested × List EventRecord × World
    unfolding resolve ingest_resolved
    ingest maps t log w = ingest_resolved t (resolve t.event_type maps) log w

    -- A sequence of requests: the log and the world behind it.
    unfoldable pub ingest_all :
        Mappings → List EventTrigger → List EventRecord → World → List EventRecord × World
    unfolding ingest
    ingest_all maps [] log w = (log, w)
    ingest_all maps (t ∷ ts) log w =
        let (answer, log', w') = ingest maps t log w in ingest_all maps ts log' w'
