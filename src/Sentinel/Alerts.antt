-- ===== src/Sentinel/Alerts.antt =====
-- Alerts: cat-sentinel/app/alerts (models, repository, service).
-- Times are ticks of `time.monotonic()`. What the webhook's HTTP call does is the argument `Delivery`.
pub mod Cooldown
pub mod Delivered
pub mod Posts
mod Tests
use cat_sentinel.Prelude.{
  ℕ, zero, suc, ◌+◌, String, Bool, true, false, List, [], ◌∷◌, Option, none, some, Outcome, ok,
  raise, Dict, lookup, insert, ℕ_discrete, pair_dec, leb, ltb, ◌&&◌, if◌then◌else◌,
}
use cat_sentinel.Prelude.Tables.{Table, put}
use cat_sentinel.Sentinel.Errors.{AppError, value_error}

-- `(cat_id, zone_id)`
abbrev pub Pair : Type 0
Pair = ℕ × ℕ

abbrev pub same_pair : Discrete Pair
same_pair = pair_dec ℕ_discrete ℕ_discrete

pub record AlertCooldownTracker : Type 0 where
  pub cooldown_seconds : ℕ
  pub last_fired : Dict Pair ℕ

-- `(now - last) >= cooldown_seconds`, at the time `now`; it holds for a pair that never fired.
unfoldable pub should_fire : AlertCooldownTracker → Pair → (now : ℕ) → Bool
should_fire tracker pair now = elim (lookup same_pair pair tracker.last_fired) [
  | none ↦ true
  | some last ↦ leb (last + tracker.cooldown_seconds) now
]

unfoldable pub mark_fired : AlertCooldownTracker → Pair → (now : ℕ) → AlertCooldownTracker
mark_fired tracker pair now = record tracker {
  last_fired = insert same_pair pair now tracker.last_fired;
}

pub data AlertStatus : Type 0 where
  pending sent failed : AlertStatus

-- How `client.post` and `raise_for_status` end: with a response of some status code, with an httpx
-- transport error, or with an exception that is no `httpx.HTTPError`.
pub data Delivery : Type 0 where
  responded : (status : ℕ) → Delivery
  transport_error unforeseen : Delivery

pub data ErrorMessage : Type 0 where
  bad_status : (status : ℕ) → ErrorMessage
  no_response : ErrorMessage

pub record Alert : Type 0 where
  pub cat_id : ℕ
  pub zone_id : ℕ
  pub camera_id : String
  pub status : AlertStatus
  pub error_message : Option ErrorMessage

abbrev pub pending_alert : Pair → String → Alert
pending_alert (cat_id, zone_id) camera_id = record {
  cat_id = cat_id;
  zone_id = zone_id;
  camera_id = camera_id;
  status = pending;
  error_message = none;
}

-- `response.is_success`
abbrev pub is_success : ℕ → Bool
is_success status = leb 200 status && ltb status 300

-- `mark_status`
abbrev pub mark_status :
    ℕ → Alert → AlertStatus → Option ErrorMessage → Table Alert → Table Alert × Alert
mark_status id alert status message t =
    let alert' : Alert = record alert { status = status; error_message = message } in
    (put id alert' t, alert')

-- `AlertService.fire`: the table is changed also when it raises. `id` is the uuid of the row.
unfoldable pub fire :
    Delivery → Pair → String → (id : ℕ) → Table Alert → Outcome AppError Alert × Table Alert
fire delivery pair camera_id id t =
    let alert : Alert = pending_alert pair camera_id in
    let created = put id alert t in
    elim delivery [
      | responded status ↦
          if is_success status
          then (let (t', a) = mark_status id alert sent none created in (ok a, t'))
          else (let (t', a) = mark_status id alert failed (some (bad_status status)) created in
              (ok a, t'))
      | transport_error ↦
          let (t', a) = mark_status id alert failed (some no_response) created in (ok a, t')
      | unforeseen ↦ (raise value_error, created)
    ]

-- One visit of the pipeline to a cat in a zone: at `check` it asks `should_fire`, and once the alert is
-- out it calls `mark_fired` at `mark`.
pub record Visit : Type 0 where
  pub pair : Pair
  pub check : ℕ
  pub mark : ℕ

-- The visits that fired, in order, when every `fire` comes back.
unfoldable pub fired_visits : AlertCooldownTracker → List Visit → List Visit
unfolding should_fire mark_fired
fired_visits tracker [] = []
fired_visits tracker (v ∷ vs) = elim (should_fire tracker v.pair v.check) [
  | true ↦ v ∷ fired_visits (mark_fired tracker v.pair v.mark) vs
  | false ↦ fired_visits tracker vs
]
