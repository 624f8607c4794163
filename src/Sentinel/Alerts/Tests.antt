-- ===== src/Sentinel/Alerts/Tests.antt =====
-- A cat that lingers in a zone, and the theorems at those inputs.
use cat_sentinel.Prelude.{
  ℕ, ◌+◌, ◌≡◌, ◌≢◌, refl, List, [], ◌∷◌, some, ℕ_discrete, lookup, insert, pair_dec, ok,
}
use cat_sentinel.Prelude.Tables.{find}
use cat_sentinel.Sentinel.Alerts.{
  AlertCooldownTracker, Visit, should_fire, mark_fired, fired_visits, failed, responded,
  transport_error, bad_status, pending_alert, fire,
}
use cat_sentinel.Sentinel.Alerts.Delivered.{Records, fire-Records}

program : Unit {0}
unfolding should_fire mark_fired fired_visits fire ℕ_discrete lookup insert pair_dec
program = tt

abbrev minute : AlertCooldownTracker
minute = record { cooldown_seconds = 60; last_fired = [] }

abbrev visit : (zone check : ℕ) → Visit
visit zone check = record { pair = (1, zone); check = check; mark = check + 1 }

abbrev lingering : List Visit
lingering = visit 5 100 ∷ visit 5 130 ∷ visit 6 140 ∷ visit 5 160 ∷ visit 5 161 ∷ []

fires_twice : fired_visits minute lingering ≡ visit 5 100 ∷ visit 6 140 ∷ visit 5 161 ∷ []
unfolding program
fires_twice = refl

failed_alert :
    (fire (responded 503) (1, 5) "default" 9 []).0
    ≡ ok (record (pending_alert (1, 5) "default") {
      status = failed;
      error_message = some (bad_status 503);
    })
unfolding program
failed_alert = refl

fire-Records_example :
    Records transport_error (1, 5) "default" 9 (fire transport_error (1, 5) "default" 9 [])
    × ((j : ℕ) → j ≢ 9 → find j (fire transport_error (1, 5) "default" 9 []).1 ≡ find j [])
fire-Records_example = fire-Records transport_error (1, 5) "default" 9 []
