-- ===== src/Camera/Gateway/Defaults.antt =====
-- What the commands of the default map do.
use cat_sentinel.Prelude.{
  ℕ, String, ◌≡◌, ◌∙◌, refl, ap, Bool, true, List, [], ◌∷◌, Option, Outcome, ok, raise, All, arith,
  str_dec, lookup, Outcome-cases, inl, inr,
}
use cat_sentinel.Prelude.Floats.{Floats}
use cat_sentinel.Camera.Errors.{CameraError}
use cat_sentinel.Camera.Events.{Mapping, Mappings, EventTrigger, EventRecord, Ingested}
use cat_sentinel.Camera.Events
use cat_sentinel.Camera.Ptz.{Move, other}
use cat_sentinel.Camera.Ptz
use cat_sentinel.Camera.Webhooks
use cat_sentinel.Camera.Gateway.{
  World, require_api_key, Gateway, new_gateway, command_of, dispatch, webhook_fanout, answered,
  trigger_event, Request, trigger, put_command, delete_command, subscribe, unsubscribe, move, nudge,
  calibrate, serve, serve_all,
}

module _ (Json : Type 0) (F : Floats) (number : Json → String → Option F.Float)
    (accepts : List (Move F) → Move F → Bool) (full_circle : F.Float)
    (delivers : List String → String → Bool) (duration_seconds : ℕ → Json) where
  -- Events and webhooks: no request to the motor, and none that changes the map.
  abbrev pub IsOutside : Request Json F number accepts full_circle delivers → Type 0
  IsOutside (trigger x_api_key t) = Unit
  IsOutside (subscribe sub_id sub) = Unit
  IsOutside (unsubscribe webhook_id) = Unit
  IsOutside _ = ⊥

  -- The map is the default, and the motor as it was.
  abbrev pub IsStill : Gateway Json F → Gateway Json F → Type 0
  IsStill g g' =
      (g'.command_map ≡ Events.default_command_map Json duration_seconds)
      × (g'.world.ptz ≡ g.world.ptz)

  -- A command that the dispatcher does not know does nothing, and counts as a success.
  unknown_command :
      (params : Json) (w : World Json F)
      → (dispatch Json F number accepts full_circle delivers "light_on" params w ≡ (ok true, w))
        × (dispatch Json F number accepts full_circle delivers "siren_on" params w ≡ (ok true, w))
  unfolding dispatch command_of Ptz.dispatch str_dec
  unknown_command params w = (refl, refl)

  ingest-ptz :
      (t : EventTrigger Json) (log : List (EventRecord Json)) (w : World Json F)
      → (Events.ingest Json
          (dispatch Json F number accepts full_circle delivers)
          (webhook_fanout Json F number accepts full_circle delivers)
          (Events.default_command_map Json duration_seconds)
          t
          log
          w).2.ptz
        ≡ w.ptz
  unfolding Events.ingest Events.resolve Events.ingest_resolved Events.after_dispatch
      Events.log_and_notify Events.default_command_map webhook_fanout lookup
  ingest-ptz t log w = elim (str_dec t.event_type "cat_detected") [
    | yes cat ↦ ground (arith, cat, (unknown_command (duration_seconds 30) w).0)
    | no other_type ↦ elim (str_dec t.event_type "intruder_detected") [
      | yes intruder ↦
          ground (arith, intruder, other_type, (unknown_command (duration_seconds 10) w).1)
      | no unmapped ↦ ground (arith, other_type, unmapped)
    ]
  ]

  answered-IsStill :
      (g : Gateway Json F) (maps : Mappings Json)
      (r : Outcome CameraError (Ingested Json) × List (EventRecord Json) × World Json F)
      → ((answered Json F number accepts full_circle delivers maps r).1.command_map ≡ maps)
        × ((answered Json F number accepts full_circle delivers maps r).1.world ≡ r.2)
  unfolding answered
  answered-IsStill g maps (raise e, log, w) = (refl, refl)
  answered-IsStill g maps (ok i, log, w) = (refl, refl)

  trigger-IsStill :
      (key x_api_key : Option String) (t : EventTrigger Json) (g : Gateway Json F)
      → g.command_map ≡ Events.default_command_map Json duration_seconds
      → IsStill g (trigger_event Json F number accepts full_circle delivers key x_api_key t g).1
  unfolding trigger_event
  trigger-IsStill key x_api_key t g e = elim (Outcome-cases (require_api_key key x_api_key)) [
    | inr (x, refused) ↦ ground (arith, e, refused)
    | inl (u, passed) ↦
        let r =
          Events.ingest Json (dispatch Json F number accepts full_circle delivers)
            (webhook_fanout Json F number accepts full_circle delivers) g.command_map t g.log
            g.world in
        let (maps, world) = answered-IsStill g g.command_map r in
        let still : r.2.ptz ≡ g.world.ptz = rw e (ingest-ptz t g.log g.world) in
        rw (trigger_event, passed) (maps ∙ e, ap (λ w. w.ptz) world ∙ still)
  ]

  serve-IsStill :
      (key : Option String) (r : Request Json F number accepts full_circle delivers)
      (g : Gateway Json F)
      → IsOutside r
      → g.command_map ≡ Events.default_command_map Json duration_seconds
      → IsStill g (serve Json F number accepts full_circle delivers key r g).1
  unfolding serve Webhooks.create Webhooks.delete
  serve-IsStill key (trigger x_api_key t) g o e = trigger-IsStill key x_api_key t g e
  serve-IsStill key (subscribe sub_id sub) g o e = (e, refl)
  serve-IsStill key (unsubscribe webhook_id) g o e = ground (arith, e)
  serve-IsStill key (put_command event_type _) g o e = elim o [ ]
  serve-IsStill key (delete_command event_type) g o e = elim o [ ]
  serve-IsStill key (move pan tilt) g o e = elim o [ ]
  serve-IsStill key (nudge direction) g o e = elim o [ ]
  serve-IsStill key calibrate g o e = elim o [ ]

  default_kept :
      (key : Option String) (rs : List (Request Json F number accepts full_circle delivers))
      (g : Gateway Json F)
      → All IsOutside rs
      → g.command_map ≡ Events.default_command_map Json duration_seconds
      → IsStill g (serve_all Json F number accepts full_circle delivers key rs g)
  unfolding serve_all
  default_kept key [] g o e = (e, refl)
  default_kept key (r ∷ rs) g o e =
      let (maps, ptz) = serve-IsStill key r g o.0 e in
      let (maps', ptz') =
        default_kept key rs (serve Json F number accepts full_circle delivers key r g).1 o.1 maps in
      (maps', ptz' ∙ ptz)

  -- From the start of the service, as long as every request is an event or one to the webhooks, no event
  -- moves the motor, whatever its type, and the map stays as it is: both commands of the default map are
  -- none that the dispatcher knows, and it reports a success for them and does nothing.
  pub serve_all-IsStill :
      (key : Option String) (units_per_degree : F.Float)
      (rs : List (Request Json F number accepts full_circle delivers)) (params : Json)
      (w : World Json F)
      → All IsOutside rs
      → let g = new_gateway Json F duration_seconds units_per_degree in
        IsStill g (serve_all Json F number accepts full_circle delivers key rs g)
        × (dispatch Json F number accepts full_circle delivers "light_on" params w ≡ (ok true, w))
        × (dispatch Json F number accepts full_circle delivers "siren_on" params w ≡ (ok true, w))
  unfolding new_gateway
  serve_all-IsStill key units_per_degree rs params w outside =
      let (l, s) = unknown_command params w in
      (
        default_kept key rs (new_gateway Json F duration_seconds units_per_degree) outside refl,
        l,
        s,
      )
