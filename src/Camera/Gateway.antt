-- ===== src/Camera/Gateway.antt =====
-- The routes of the camera service that share its motor, command map, event log and subscriptions:
-- camera/app/events/router.py, camera/app/ptz/router.py, camera/app/webhooks/router.py, with
-- `require_api_key` of camera/app/core/dependencies.py. `number` is `float(params[key])`, `none` being an
-- exception; `accepts` and `delivers` are the ends of the calls of pytapo and of the POSTs.
pub mod Key
pub mod Mapped
pub mod Defaults
mod Tests
use cat_sentinel.Prelude.{
  ℕ, String, Bool, true, false, not, ◌&&◌, List, [], ◌∷◌, ◌++◌, Option, none, some, Outcome, ok,
  raise, ◌>>=◌, ◌>>◌, ite, str_dec, if◌then◌else◌,
}
use cat_sentinel.Prelude.Floats.{Floats}
use cat_sentinel.Prelude.Int.{ℤ}
use cat_sentinel.Camera.Errors.{
  CameraError, status_code, unauthorized, value_error, invalid_request,
}
use cat_sentinel.Camera.Events.{Mapping, Mappings, EventTrigger, EventRecord, Ingested}
use cat_sentinel.Camera.Events
use cat_sentinel.Camera.Ptz.{
  Move, PtzController, Command, ptz_move, ptz_nudge, ptz_calibrate, other, PtzStatus, status,
}
use cat_sentinel.Camera.Ptz
use cat_sentinel.Camera.Webhooks.{Subscription, Subscriptions}
use cat_sentinel.Camera.Webhooks

-- `require_api_key`: with no setting, or an empty one, every request passes.
unfoldable pub require_api_key :
    (events_api_key x_api_key : Option String) → Outcome CameraError (Unit {0})
require_api_key none x_api_key = ok tt
require_api_key (some key) none = ite (str_dec key "") (ok tt) (raise unauthorized)
require_api_key (some key) (some x_api_key) =
    ite (str_dec key "") (ok tt) (ite (str_dec x_api_key key) (ok tt) (raise unauthorized))

-- `EventTriggerResult`
pub record EventTriggerResult : Type 0 where
  pub accepted : Bool
  pub command_dispatched : Option String
  pub command_success : Option Bool
  pub webhooks_notified : ℕ

module _ (Json : Type 0) (F : Floats) where
  -- What the routes share; `posted` is the URLs that were posted to, in order.
  pub record World : Type 0 where
    pub ptz : PtzController F
    pub subscriptions : Subscriptions
    pub posted : List String

  pub record Gateway : Type 0 where
    pub command_map : Mappings Json
    pub log : List (EventRecord Json)
    pub world : World

  -- What the process starts with: `_command_map_service`, `_log_service`, the service of the webhooks, and
  -- the controller of the lifespan.
  unfoldable pub new_gateway : (duration_seconds : ℕ → Json) (units_per_degree : F.Float) → Gateway
  unfolding Events.default_command_map Ptz.new_ptz
  new_gateway duration_seconds units_per_degree = record {
    command_map = Events.default_command_map Json duration_seconds;
    log = [];
    world = record { ptz = Ptz.new_ptz F units_per_degree; subscriptions = []; posted = [] };
  }

module _ (Json : Type 0) (F : Floats) (number : Json → String → Option F.Float)
    (accepts : List (Move F) → Move F → Bool) (full_circle : F.Float)
    (delivers : List String → String → Bool) where
  -- The tests of `dispatch` on the command's name.
  unfoldable pub command_of : String → Json → Command F accepts full_circle
  command_of command params =
      ite (str_dec command "ptz_move") (ptz_move (number params "pan") (number params "tilt")) (
        ite (str_dec command "ptz_nudge") (ptz_nudge (number params "direction"))
          (ite (str_dec command "ptz_calibrate") ptz_calibrate (other command)))

  -- `dispatcher.dispatch`, of the shared TapoCameraCommandDispatcher
  unfoldable pub dispatch : String → Json → World Json F → Outcome CameraError Bool × World Json F
  unfolding command_of Ptz.dispatch
  dispatch command params w =
      let (success, ptz) = Ptz.dispatch F accepts full_circle (command_of command params) w.ptz in
      (ok success, record w { ptz = ptz })

  -- `webhook_service.notify_all`
  unfoldable pub webhook_fanout :
      EventTrigger Json → World Json F → Outcome CameraError ℕ × World Json F
  unfolding Webhooks.notify_all
  webhook_fanout t w =
      let (posted, notified) = Webhooks.notify_all delivers t.event_type w.subscriptions in
      (ok notified, record w { posted = w.posted ++ posted })

  -- The answer of the route, from what `ingest` returned.
  unfoldable pub answered :
      Mappings Json
      → Outcome CameraError (Ingested Json) × List (EventRecord Json) × World Json F
      → Outcome CameraError EventTriggerResult × Gateway Json F
  answered maps (raise e, log, w) = (raise e, record { command_map = maps; log = log; world = w })
  answered maps (ok i, log, w) = (
    ok (record {
      accepted = true;
      command_dispatched = i.command_dispatched;
      command_success = i.command_success;
      webhooks_notified = i.notified;
    }),
    record { command_map = maps; log = log; world = w },
  )

  -- `POST /events/trigger`
  unfoldable pub trigger_event :
      (events_api_key x_api_key : Option String)
      → EventTrigger Json
      → Gateway Json F
      → Outcome CameraError EventTriggerResult × Gateway Json F
  unfolding require_api_key answered dispatch webhook_fanout Events.ingest
  trigger_event events_api_key x_api_key t g = elim (require_api_key events_api_key x_api_key) [
    | raise e ↦ (raise e, g)
    | ok _ ↦
        answered g.command_map
          (Events.ingest Json dispatch webhook_fanout g.command_map t g.log g.world)
  ]

  -- The answers that the routes give beside those of `trigger_event`, as a status and a state.
  abbrev pub with_world : Gateway Json F → World Json F → Gateway Json F
  with_world g w = record g { world = w }

  abbrev pub with_ptz : Gateway Json F → PtzController F → Gateway Json F
  with_ptz g p = record g { world = record g.world { ptz = p } }

  -- The routes that change something.
  pub data Request : Type 0 where
    trigger : (x_api_key : Option String) → EventTrigger Json → Request
    put_command : (event_type : String) → Mapping Json → Request
    delete_command : (event_type : String) → Request
    subscribe : (sub_id : ℕ) → Subscription → Request
    unsubscribe : (webhook_id : ℕ) → Request
    move : (pan tilt : F.Float) → Request
    nudge : (direction : F.Float) → Request
    calibrate : Request

  -- The status of an answer: that of the route, or that of the handler of the exception.
  abbrev pub answer_status : {A : Type 0} → (success : ℕ) → Outcome CameraError A → ℕ
  answer_status success (ok a) = success
  answer_status success (raise e) = status_code e

  -- `except ValueError as exc: raise InvalidRequestError`
  unfoldable pub invalid_if_value_error : CameraError → CameraError
  invalid_if_value_error value_error = invalid_request
  invalid_if_value_error e = e

  unfoldable pub nudge_outcome : Outcome CameraError (Unit {0}) → Outcome CameraError (Unit {0})
  unfolding invalid_if_value_error
  nudge_outcome (ok u) = ok u
  nudge_outcome (raise e) = raise (invalid_if_value_error e)

  -- `DELETE /events/commands/{event_type}` and `DELETE /webhooks/{webhook_id}`
  abbrev pub deleted_command :
      Gateway Json F → Outcome CameraError (Mappings Json) → ℕ × Gateway Json F
  deleted_command g (ok maps) = (204, record g { command_map = maps })
  deleted_command g (raise e) = (status_code e, g)

  abbrev pub deleted_webhook :
      Gateway Json F → Outcome CameraError Subscriptions → ℕ × Gateway Json F
  deleted_webhook g (ok subs) = (204, with_world g (record g.world { subscriptions = subs }))
  deleted_webhook g (raise e) = (status_code e, g)

  unfoldable pub serve :
      (events_api_key : Option String) → Request → Gateway Json F → ℕ × Gateway Json F
  unfolding trigger_event nudge_outcome Events.upsert Events.delete Webhooks.create Webhooks.delete
      Ptz.move_to Ptz.nudge Ptz.calibrate status_code
  serve key (trigger x_api_key t) g =
      let (answer, g') = trigger_event key x_api_key t g in (answer_status 202 answer, g')
  serve key (put_command event_type m) g =
      (200, record g { command_map = Events.upsert Json event_type m g.command_map })
  serve key (delete_command event_type) g =
      deleted_command g (Events.delete Json event_type g.command_map)
  serve key (subscribe sub_id sub) g = (
    201,
    with_world g
        (record g.world { subscriptions = Webhooks.create sub_id sub g.world.subscriptions }),
  )
  serve key (unsubscribe webhook_id) g =
      deleted_webhook g (Webhooks.delete webhook_id g.world.subscriptions)
  serve key (move pan tilt) g =
      let (answer, p) = Ptz.move_to F accepts full_circle pan tilt g.world.ptz in
      (answer_status 200 answer, with_ptz g p)
  -- The request model has refused the direction before, with status 422.
  serve key (nudge direction) g =
      if Ptz.in_circle F full_circle direction
      then (let (answer, p) = Ptz.nudge F accepts full_circle direction g.world.ptz in
          (answer_status 200 (nudge_outcome answer), with_ptz g p))
      else (422, g)
  serve key calibrate g =
      let (answer, p) = Ptz.calibrate F accepts full_circle g.world.ptz in
      (answer_status 200 answer, with_ptz g p)

  unfoldable pub serve_all :
      (events_api_key : Option String) → List Request → Gateway Json F → Gateway Json F
  unfolding serve
  serve_all key [] g = g
  serve_all key (r ∷ rs) g = serve_all key rs (serve key r g).1
