-- ===== src/Camera/Gateway/Mapped.antt =====
-- A command that is mapped to a type of event is the one that its events dispatch.
use cat_sentinel.Prelude.{
  ℕ, String, ◌≡◌, ◌≢◌, refl, ap, ◌∙◌, Bool, true, List, [], ◌∷◌, ◌++◌, Option, some, Outcome, ok,
  raise, str_dec, arith, All, take, Outcome-cases, Option-cases, inl, inr, lookup,
  lookup-insert_self, lookup-insert_ne, lookup-erase_ne,
}
use cat_sentinel.Prelude.Floats.{Floats}
use cat_sentinel.Camera.Errors.{CameraError}
use cat_sentinel.Camera.Events.{
  max_events, Mapping, Mappings, EventTrigger, EventRecord, Ingested, resolve, upsert,
}
use cat_sentinel.Camera.Events
use cat_sentinel.Camera.Ptz.{Move, PtzController}
use cat_sentinel.Camera.Ptz
use cat_sentinel.Camera.Webhooks
use cat_sentinel.Camera.Gateway.{
  require_api_key, World, Gateway, EventTriggerResult, trigger_event, command_of, answered,
  dispatch, webhook_fanout, Request, trigger, put_command, delete_command, subscribe, unsubscribe,
  move, nudge, calibrate, serve, serve_all,
}

module _ (Json : Type 0) (F : Floats) (number : Json → String → Option F.Float)
    (accepts : List (Move F) → Move F → Bool) (full_circle : F.Float)
    (delivers : List String → String → Bool) where
  abbrev Req : Type 0
  Req = Request Json F number accepts full_circle delivers

  -- The request does not change what this type of event is mapped to.
  abbrev pub Leaves : String → Req → Type 0
  Leaves event_type (put_command other m) = event_type ≢ other
  Leaves event_type (delete_command other) = event_type ≢ other
  Leaves event_type _ = Unit

  abbrev serve_one : Option String → Req → Gateway Json F → ℕ × Gateway Json F
  serve_one = serve Json F number accepts full_circle delivers

  answered-command_map :
      (maps : Mappings Json)
      (o : Outcome CameraError (Ingested Json) × List (EventRecord Json) × World Json F)
      → (answered Json F number accepts full_circle delivers maps o).1.command_map ≡ maps
  unfolding answered
  answered-command_map maps (ok i, log, w) = refl
  answered-command_map maps (raise e, log, w) = refl

  trigger_event-command_map :
      (key x_api_key : Option String) (t : EventTrigger Json) (g : Gateway Json F)
      → (trigger_event Json F number accepts full_circle delivers key x_api_key t g).1.command_map
        ≡ g.command_map
  unfolding trigger_event
  trigger_event-command_map key x_api_key t g =
      elim (Outcome-cases (require_api_key key x_api_key)) [
        | inl (u, e) ↦ ground (
          arith,
          e,
          answered-command_map g.command_map (
              Events.ingest Json (dispatch Json F number accepts full_circle delivers)
                (webhook_fanout Json F number accepts full_circle delivers) g.command_map t g.log
                g.world),
        )
        | inr (x, e) ↦ ground (arith, e)
      ]

  serve-resolve :
      (key : Option String) (event_type : String) (r : Req) (g : Gateway Json F)
      → Leaves event_type r
      → lookup str_dec event_type (serve_one key r g).1.command_map
        ≡ lookup str_dec event_type g.command_map
  unfolding serve Events.upsert Events.delete Webhooks.delete
  serve-resolve key event_type (trigger x t) g l =
      ap (lookup str_dec event_type) (trigger_event-command_map key x t g)
  serve-resolve key event_type (put_command other m) g l =
      lookup-insert_ne str_dec event_type other m g.command_map l
  serve-resolve key event_type (delete_command other) g l =
      elim (Option-cases (lookup str_dec other g.command_map)) [
        | inl e ↦ ground (arith, e)
        | inr (m, e) ↦ ground (arith, e, lookup-erase_ne str_dec event_type other g.command_map l)
      ]
  serve-resolve key event_type (subscribe sub_id sub) g l = refl
  serve-resolve key event_type (unsubscribe id) g l = ground arith
  serve-resolve key event_type (move pan tilt) g l = ground arith
  serve-resolve key event_type (nudge direction) g l = ground arith
  serve-resolve key event_type calibrate g l = ground arith

  abbrev all_served : Option String → List Req → Gateway Json F → Gateway Json F
  all_served = serve_all Json F number accepts full_circle delivers

  resolve_after :
      (key : Option String) (event_type : String) (rs : List Req) (g : Gateway Json F)
      → All (Leaves event_type) rs
      → lookup str_dec event_type (all_served key rs g).command_map
        ≡ lookup str_dec event_type g.command_map
  unfolding serve_all
  resolve_after key event_type [] g l = refl
  resolve_after key event_type (r ∷ rs) g (l, ls) =
      resolve_after key event_type rs (serve_one key r g).1 ls ∙ serve-resolve key event_type r g l

  -- The command with its parameters at the motor as it is, and the webhooks that want the event.
  abbrev pub done_by : Mapping Json → Gateway Json F → Bool × PtzController F
  done_by m g =
      Ptz.dispatch F accepts full_circle
        (command_of Json F number accepts full_circle delivers m.command m.params) g.world.ptz

  abbrev pub told_of : EventTrigger Json → Gateway Json F → List String × ℕ
  told_of t g = Webhooks.notify_all delivers t.event_type g.world.subscriptions

  abbrev pub result_of : EventTrigger Json → Mapping Json → Gateway Json F → EventTriggerResult
  result_of t m g = record {
    accepted = true;
    command_dispatched = some m.command;
    command_success = some (done_by m g).0;
    webhooks_notified = (told_of t g).1;
  }

  abbrev pub gateway_after : EventTrigger Json → Mapping Json → Gateway Json F → Gateway Json F
  gateway_after t m g = record {
    command_map = g.command_map;
    log = take max_events (
        record {
          trigger = t;
          command_dispatched = some m.command;
          command_success = some (done_by m g).0;
        }
        ∷ g.log);
    world = record {
      ptz = (done_by m g).1;
      subscriptions = g.world.subscriptions;
      posted = g.world.posted ++ (told_of t g).0;
    };
  }

  -- What an accepted trigger of an event that is mapped to `m` does.
  pub trigger_event-mapped :
      (key x_api_key : Option String) (t : EventTrigger Json) (m : Mapping Json)
      (g : Gateway Json F)
      → require_api_key key x_api_key ≡ ok tt
      → lookup str_dec t.event_type g.command_map ≡ some m
      → trigger_event Json F number accepts full_circle delivers key x_api_key t g
        ≡ (ok (result_of t m g), gateway_after t m g)
  unfolding trigger_event answered dispatch webhook_fanout Events.ingest Events.ingest_resolved
      Events.after_dispatch Events.log_and_notify Events.resolve Events.record_event
      Events.notified_or_zero
  trigger_event-mapped key x_api_key t m g accepted mapped = ground (arith, accepted, mapped)

  -- Once a type of event has been mapped to a command, and whatever requests follow that do not map it
  -- anew or delete it, an accepted trigger of that type dispatches the command with its parameters to the
  -- motor as it then is, puts a record with the command and its success in front of the log, and tells
  -- the webhooks that want it.
  pub trigger_event-put_command :
      (key x_api_key : Option String) (t : EventTrigger Json) (m : Mapping Json)
      (between : List Req) (g0 : Gateway Json F)
      → require_api_key key x_api_key ≡ ok tt
      → All (Leaves t.event_type) between
      → let g = all_served key (put_command t.event_type m ∷ between) g0 in
        trigger_event Json F number accepts full_circle delivers key x_api_key t g
        ≡ (ok (result_of t m g), gateway_after t m g)
  unfolding serve_all serve Events.upsert
  trigger_event-put_command key x_api_key t m between g0 accepted leaves =
      let g1 = (serve_one key (put_command t.event_type m) g0).1 in
      trigger_event-mapped key x_api_key t m (all_served key between g1) accepted (
        resolve_after key t.event_type between g1 leaves
        ∙ lookup-insert_self str_dec t.event_type m g0.command_map)
