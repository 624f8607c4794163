-- ===== src/Sentinel/Alerts/Delivered.antt =====
-- What `AlertService.fire` leaves in the table, for every way in which the webhook's call ends.
use cat_sentinel.Prelude.{
  suc, Bool, false, length, ℕ, String, ◌≡◌, ◌≢◌, ◌∙◌, ◌↔◌, ◌≤◌, ◌<◌, refl, ◌⊎◌, inl, inr, true,
  none, some, arith, ℕ_discrete, Outcome, ok, raise, lookup-insert_self, lookup-insert_ne,
  Bool-cases,
}
use cat_sentinel.Prelude.Tables.{Table, find, put, length-put_new, length-put_old}
use cat_sentinel.Sentinel.Errors.{AppError, value_error}
use cat_sentinel.Sentinel.Alerts.{
  Pair, Alert, sent, failed, Delivery, responded, transport_error, unforeseen, bad_status,
  no_response, pending_alert, fire, AlertStatus, pending, is_success,
}

-- What the row says in the end, by how the call went.
abbrev pub Records : Delivery → Pair → String → ℕ → Outcome AppError Alert × Table Alert → Type 0
Records (responded status) p camera_id id (r, t') =
    (a : Alert) × (r ≡ ok a)
    × (find id t' ≡ some a)
    × ((a.status ≡ sent) ↔ ((200 ≤ status) × (status < 300)))
    × ((a.status ≡ sent) ⊎ ((a.status ≡ failed) × (a.error_message ≡ some (bad_status status))))
Records transport_error p camera_id id (r, t') =
    (a : Alert) × (r ≡ ok a)
    × (find id t' ≡ some a)
    × (a.status ≡ failed)
    × (a.error_message ≡ some no_response)
Records unforeseen p camera_id id (r, t') =
    (r ≡ raise value_error) × (find id t' ≡ some (pending_alert p camera_id))

success_iff : (status : ℕ) → (is_success status ≡ true) ↔ ((200 ≤ status) × (status < 300))
success_iff status = (λ h. ground arith, λ h. ground arith)

responded-Records :
    (status : ℕ) (p : Pair) (camera_id : String) (id : ℕ) (t : Table Alert)
    → Records (responded status) p camera_id id (fire (responded status) p camera_id id t)
unfolding fire
responded-Records status p camera_id id t =
    let created = put id (pending_alert p camera_id) t in
    let sent_alert = record (pending_alert p camera_id) { status = sent; error_message = none } in
    let failed_alert = record (pending_alert p camera_id) {
      status = failed;
      error_message = some (bad_status status);
    } in
    elim (Bool-cases (is_success status)) [
      | inl good ↦ rw good (
        sent_alert,
        refl,
        lookup-insert_self ℕ_discrete id sent_alert created,
        (λ _. (success_iff status).0 good, λ _. refl),
        inl refl,
      )
      | inr bad ↦ rw bad (
        failed_alert,
        refl,
        lookup-insert_self ℕ_discrete id failed_alert created,
        (λ h. cc h, λ h. absurd (ground (arith, (success_iff status).1 h))),
        inr (refl, refl),
      )
    ]

rewritten :
    (p : Pair) (camera_id : String) (id : ℕ) (t : Table Alert) (j : ℕ)
    → j ≢ id
    → (a : Alert) → find j (put id a (put id (pending_alert p camera_id) t)) ≡ find j t
rewritten p camera_id id t j n a =
    lookup-insert_ne ℕ_discrete j id a (put id (pending_alert p camera_id) t) n
    ∙ lookup-insert_ne ℕ_discrete j id (pending_alert p camera_id) t n

pub fire_others :
    (delivery : Delivery) (p : Pair) (camera_id : String) (id : ℕ) (t : Table Alert) (j : ℕ)
    → j ≢ id
    → find j (fire delivery p camera_id id t).1 ≡ find j t
unfolding fire
fire_others (responded status) p camera_id id t j n = elim (Bool-cases (is_success status)) [
  | inl good ↦ rw good (
      rewritten p camera_id id t j n
        (record (pending_alert p camera_id) { status = sent; error_message = none }))
  | inr bad ↦ rw bad (
      rewritten p camera_id id t j n (record (pending_alert p camera_id) {
        status = failed;
        error_message = some (bad_status status);
      }))
]
fire_others transport_error p camera_id id t j n =
    rewritten p camera_id id t j n
      (record (pending_alert p camera_id) { status = failed; error_message = some no_response })
fire_others unforeseen p camera_id id t j n =
    lookup-insert_ne ℕ_discrete j id (pending_alert p camera_id) t n

records :
    (delivery : Delivery) (p : Pair) (camera_id : String) (id : ℕ) (t : Table Alert)
    → Records delivery p camera_id id (fire delivery p camera_id id t)
unfolding fire
records (responded status) p camera_id id t = responded-Records status p camera_id id t
records transport_error p camera_id id t =
    let created = put id (pending_alert p camera_id) t in
    let a : Alert = record (pending_alert p camera_id) {
      status = failed;
      error_message = some no_response;
    } in
    (a, refl, lookup-insert_self ℕ_discrete id a created, refl, refl)
records unforeseen p camera_id id t =
    (refl, lookup-insert_self ℕ_discrete id (pending_alert p camera_id) t)

-- `fire` is over, and with it the alert: the status is another than PENDING.
abbrev pub is_over : AlertStatus → Bool
is_over pending = false
is_over sent = true
is_over failed = true

abbrev pub is_ok : Outcome AppError Alert → Bool
is_ok (ok _) = true
is_ok (raise _) = false

-- The row that `fire` leaves under its id is for the pair and the camera that were asked for, and it is
-- over if the call came back.
pub fire_written :
    (delivery : Delivery) (p : Pair) (camera_id : String) (id : ℕ) (t : Table Alert)
    → let r = fire delivery p camera_id id t in
      (a : Alert) × (find id r.1 ≡ some a)
      × ((a.cat_id, a.zone_id) ≡ p)
      × (a.camera_id ≡ camera_id)
      × (is_over a.status ≡ is_ok r.0)
unfolding fire
fire_written (responded status) p camera_id id t =
    let created = put id (pending_alert p camera_id) t in
    elim (Bool-cases (is_success status)) [
      | inl good ↦ rw good (_, lookup-insert_self ℕ_discrete id _ created, refl, refl, refl)
      | inr bad ↦ rw bad (_, lookup-insert_self ℕ_discrete id _ created, refl, refl, refl)
    ]
fire_written transport_error p camera_id id t =
    let created = put id (pending_alert p camera_id) t in
    (_, lookup-insert_self ℕ_discrete id _ created, refl, refl, refl)
fire_written unforeseen p camera_id id t =
    (pending_alert p camera_id, lookup-insert_self ℕ_discrete id _ t, refl, refl, refl)

length-rewritten :
    (p : Pair) (camera_id : String) (id : ℕ) (t : Table Alert) (a : Alert)
    → find id t ≡ none
    → length (put id a (put id (pending_alert p camera_id) t)) ≡ suc (length t)
length-rewritten p camera_id id t a new =
    let before = pending_alert p camera_id in
    let there = lookup-insert_self ℕ_discrete id before t in
    length-put_old id a before (put id before t) there ∙ length-put_new id before t new

length-fire :
    (delivery : Delivery) (p : Pair) (camera_id : String) (id : ℕ) (t : Table Alert)
    → find id t ≡ none
    → length (fire delivery p camera_id id t).1 ≡ suc (length t)
unfolding fire
length-fire (responded status) p camera_id id t new = elim (Bool-cases (is_success status)) [
  | inl good ↦ rw good (length-rewritten p camera_id id t _ new)
  | inr bad ↦ rw bad (length-rewritten p camera_id id t _ new)
]
length-fire transport_error p camera_id id t new = length-rewritten p camera_id id t _ new
length-fire unforeseen p camera_id id t new = length-put_new id (pending_alert p camera_id) t new

-- The alert with a new id is one row more.
abbrev pub Adds : (Outcome AppError Alert × Table Alert) → Pair → ℕ → Table Alert → Type 0
Adds (r, t') p id t =
    (a : Alert) × (find id t' ≡ some a)
    × ((a.cat_id, a.zone_id) ≡ p)
    × (is_over a.status ≡ is_ok r)
    × (length t' ≡ suc (length t))

pub fire-Adds :
    (delivery : Delivery) (p : Pair) (camera_id : String) (id : ℕ) (t : Table Alert)
    → find id t ≡ none
    → Adds (fire delivery p camera_id id t) p id t
fire-Adds delivery p camera_id id t new =
    let (a, found, pair, _, over) = fire_written delivery p camera_id id t in
    (a, found, pair, over, length-fire delivery p camera_id id t new)

-- The row of a fired alert says how its delivery went: sent exactly for a 2xx response, failed with the
-- reason for another response or a transport error, and still pending if the call raised anything else,
-- which `fire` raises on. No other alert is changed.
pub fire-Records :
    (delivery : Delivery) (p : Pair) (camera_id : String) (id : ℕ) (t : Table Alert)
    → Records delivery p camera_id id (fire delivery p camera_id id t)
      × ((j : ℕ) → j ≢ id → find j (fire delivery p camera_id id t).1 ≡ find j t)
fire-Records delivery p camera_id id t =
    (records delivery p camera_id id t, fire_others delivery p camera_id id t)
