-- ===== src/Camera/Gateway/Tests.antt =====
-- A gateway with a key, an event that calibrates the motor, and one webhook.
use cat_sentinel.Prelude.{
  ℕ, String, ◌≡◌, refl, Bool, true, List, [], ◌∷◌, Option, none, some, ok, ◌⊎◌, str_dec,
}
use cat_sentinel.Prelude.Floats.{scaled}
use cat_sentinel.Prelude.Int.{pos}
use cat_sentinel.Camera.Events.{Mapping, EventTrigger}
use cat_sentinel.Camera.Ptz.{Move}
use cat_sentinel.Camera.Gateway.Defaults.{IsStill, serve_all-IsStill}
use cat_sentinel.Camera.Gateway.{
  new_gateway, trigger, dispatch, require_api_key, Gateway, trigger_event, Request, put_command,
  subscribe, calibrate, serve, serve_all,
}
use cat_sentinel.Camera.Gateway.Key.{Allowed, IsAccepted, serve-trigger}
use cat_sentinel.Camera.Gateway.Mapped.{result_of, gateway_after, trigger_event-put_command}

-- The parameters of a command are a number.
abbrev number : ℕ → String → Option scaled.Float
unfolding scaled
number params key = some (pos params)

abbrev accepts : List (Move scaled) → Move scaled → Bool
accepts before m = true

abbrev full_circle : scaled.Float
unfolding scaled
full_circle = pos 360

abbrev delivers : List String → String → Bool
delivers before url = true

abbrev seen : EventTrigger ℕ
seen = record { event_type = "cat_detected"; camera_id = "default"; metadata = 0; timestamp = 9 }

abbrev home : Mapping ℕ
home = record { command = "ptz_calibrate"; params = 0 }

abbrev empty : Gateway ℕ scaled
unfolding scaled
empty = record {
  command_map = [];
  log = [];
  world = record {
    ptz = record { units_per_degree = pos 10; pan_deg = pos 0; tilt_deg = pos 0; moves = [] };
    subscriptions = [];
    posted = [];
  };
}

serve-trigger_example :
    let r =
      serve ℕ scaled number accepts full_circle delivers
        (some "secret")
        (trigger (some "guess") seen)
        empty in
    (Allowed ℕ scaled number accepts full_circle delivers (some "secret") (some "guess")
      × IsAccepted ℕ scaled number accepts full_circle delivers seen r)
    ⊎ (¬ Allowed ℕ scaled number accepts full_circle delivers (some "secret") (some "guess")
        × (r ≡ (401, empty)))
serve-trigger_example =
    serve-trigger ℕ scaled number accepts full_circle delivers (some "secret") (some "guess") seen
      empty

abbrev between : List (Request ℕ scaled number accepts full_circle delivers)
between = subscribe 1 (record { url = "http://a"; event_types = none }) ∷ calibrate ∷ []

abbrev prepared : Gateway ℕ scaled
prepared =
    serve_all ℕ scaled number accepts full_circle delivers (some "secret")
      (put_command "cat_detected" home ∷ between) empty

trigger_event-put_command_example :
    trigger_event ℕ scaled number accepts full_circle delivers
      (some "secret")
      (some "secret")
      seen
      prepared
    ≡ (
      ok (result_of ℕ scaled number accepts full_circle delivers seen home prepared),
      gateway_after ℕ scaled number accepts full_circle delivers seen home prepared,
    )
unfolding require_api_key str_dec
trigger_event-put_command_example =
    trigger_event-put_command ℕ scaled number accepts full_circle delivers (some "secret")
      (some "secret") seen home between empty refl (tt, (tt, tt))

-- A trigger and a subscription, on a service that has just started.
abbrev outside : List (Request ℕ scaled number accepts full_circle delivers)
outside =
    trigger none seen
    ∷ subscribe 1 (record { url = "http://a"; event_types = none })
    ∷ trigger none seen
    ∷ []

abbrev units : scaled.Float
unfolding scaled
units = pos 10

serve_all-IsStill_example :
    let g = new_gateway ℕ scaled (λ n. n) units in
    IsStill ℕ scaled number accepts full_circle delivers
      (λ n. n)
      g
      (serve_all ℕ scaled number accepts full_circle delivers none outside g)
    × (dispatch ℕ scaled number accepts full_circle delivers "light_on" 30 empty.world
        ≡ (ok true, empty.world))
    × (dispatch ℕ scaled number accepts full_circle delivers "siren_on" 30 empty.world
        ≡ (ok true, empty.world))
serve_all-IsStill_example =
    serve_all-IsStill ℕ scaled number accepts full_circle delivers (λ n. n) none units outside 30
      empty.world (tt, (tt, (tt, tt)))
