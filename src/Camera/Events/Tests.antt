-- ===== src/Camera/Events/Tests.antt =====
-- Events to a dispatcher that takes every command, and webhooks that all fail.
use cat_sentinel.Prelude.{
  ℕ, ◌+◌, ◌≡◌, refl, String, Bool, true, [], ◌∷◌, map, Outcome, ok, raise, take,
}
use cat_sentinel.Camera.Errors.{CameraError, value_error}
use cat_sentinel.Camera.Events.{Mappings, EventTrigger, max_events, ingest_all}
use cat_sentinel.Camera.Events.Log.{newest_first, ingest_all_log}

abbrev maps : Mappings ℕ
maps =
    ("cat_detected", record { command = "light_on"; params = 30 })
    ∷ ("intruder_detected", record { command = "siren_on"; params = 10 })
    ∷ []

abbrev event : String → EventTrigger ℕ
event event_type = record {
  event_type = event_type;
  camera_id = "cam";
  metadata = 0;
  timestamp = 1;
}

-- The world counts the dispatched commands.
abbrev dispatch : String → ℕ → ℕ → Outcome CameraError Bool × ℕ
dispatch command params w = (ok true, w + 1)

abbrev fanout : EventTrigger ℕ → ℕ → Outcome CameraError ℕ × ℕ
fanout t w = (raise value_error, w)

ingest_all_log_example :
    map
      (λ r. r.trigger)
      (ingest_all ℕ dispatch fanout maps (event "cat_detected" ∷ event "other" ∷ []) [] 0).0
    ≡ take max_events (newest_first (event "cat_detected" ∷ event "other" ∷ []) [])
ingest_all_log_example =
    ingest_all_log dispatch fanout (λ c p w. (true, refl)) maps
      (event "cat_detected" ∷ event "other" ∷ []) 0
