-- ===== src/Sentinel/Pipeline/References/Steps.antt =====
-- The steps of a track keep the foreign keys.
use cat_sentinel.Prelude.{
  ℕ, ◌≤◌, ◌≡◌, ◌∙◌, refl, sym, ap, subst, ◌⊎◌, inl, inr, String, List, [], ◌∷◌, some, ok, arith,
  Bool-cases, Outcome-cases, ℕ_discrete, lookup, All,
}
use cat_sentinel.Prelude.Tables.{find}
use cat_sentinel.Prelude.Floats.{Floats}
use cat_sentinel.Sentinel.Zones.{Zone}
use cat_sentinel.Sentinel.Cats.{Cat}
use cat_sentinel.Sentinel.Alerts.{Alert, should_fire, fire}
use cat_sentinel.Sentinel.Alerts.Delivered.{fire_written, fire_others}
use cat_sentinel.Sentinel.Pipeline.{
  Pipeline, World, Detection, Activity, in_zone, matched_zone, ask_cooldown, mark_cooldown,
  fire_alert, alert_for, alert_fired,
}
use cat_sentinel.Sentinel.Pipeline.References.{
  CatOf, ZoneOf, AlertRefers, ActivityRefers, DetectionRefers, Refers,
}

module _ (F : Floats) where
  -- The zone that is matched is one of the list.
  pub matched_zone_listed :
      (at : F.Float × F.Float) (zs : List (ℕ × Zone F)) (id : ℕ)
      → matched_zone F at zs ≡ ok (some id)
      → (z : Zone F) × (find id zs ≡ some z)
  unfolding matched_zone lookup
  matched_zone_listed at [] id h = absurd (ground arith)
  matched_zone_listed at ((j, z) ∷ zs) id h = elim (Outcome-cases (in_zone F at z)) [
    | inr (x, e) ↦ absurd (ground arith)
    | inl (inside, e) ↦ elim (ℕ_discrete id j) [
      | yes same ↦ (z, ground arith)
      | no other ↦ elim (Bool-cases inside) [
        | inl here ↦ absurd (ground arith)
        | inr not_here ↦
            let (y, found) = matched_zone_listed at zs id (ground arith) in (y, ground arith)
      ]
    ]
  ]

  -- Every way in which the step for a cat in a zone can end.
  alert_for_cases :
      (w : World F) (camera_id : String) (cat_id : ℕ) (cat : Cat) (zone_id : ℕ) (s : Pipeline F)
      → let s' = (alert_for F w camera_id cat_id cat zone_id s).1 in
        ((s'.alerts ≡ s.alerts)
          ⊎ (s'.alerts
              ≡ (fire
                  (w.webhook s.next_uuid)
                  (cat_id, zone_id)
                  s.camera_id
                  s.next_uuid
                  s.alerts).1))
        × ((s'.activities ≡ s.activities)
            ⊎ ((a : Activity F) × (a.camera_id ≡ camera_id)
                × (a.cat_id ≡ some cat_id)
                × (s'.activities ≡ a ∷ s.activities)))
  unfolding alert_for ask_cooldown mark_cooldown fire_alert
  alert_for_cases w camera_id cat_id cat zone_id s =
      elim (Bool-cases (should_fire s.cooldown (cat_id, zone_id) (w.clock s.clock_calls))) [
        | inr waits ↦ (inl (ground arith), inl (ground arith))
        | inl due ↦
            elim (Outcome-cases
              (fire (w.webhook s.next_uuid) (cat_id, zone_id) s.camera_id s.next_uuid s.alerts).0) [
                | inl (a, e) ↦
                    let row : Activity F = record {
                      camera_id = camera_id;
                      cat_id = some cat_id;
                      message = alert_fired cat.label a.status;
                    } in
                    (inr (ground arith), inr (row, refl, refl, ground arith))
                | inr (x, e) ↦ (inr (ground arith), inl (ground arith))
              ]
      ]

  alert_for_others :
      (w : World F) (camera_id : String) (cat_id : ℕ) (cat : Cat) (zone_id : ℕ) (s : Pipeline F)
      → let s' = (alert_for F w camera_id cat_id cat zone_id s).1 in
        (s'.cats ≡ s.cats)
        × (s'.zones ≡ s.zones)
        × (s'.detections ≡ s.detections)
        × (s'.camera_id ≡ s.camera_id)
        × (s.next_uuid ≤ s'.next_uuid)
  unfolding alert_for ask_cooldown mark_cooldown fire_alert
  alert_for_others w camera_id cat_id cat zone_id s = ground arith

  -- A state with the same cats, zones and detections, and further activities and alerts.
  pub later-Refers :
      (s s' : Pipeline F)
      → Refers F s
      → s'.cats ≡ s.cats
      → s'.zones ≡ s.zones
      → s'.detections ≡ s.detections
      → s.next_uuid ≤ s'.next_uuid
      → All (ActivityRefers F s.cats) s'.activities
      → ((i : ℕ) (a : Alert) → find i s'.alerts ≡ some a → AlertRefers F s.cats s.zones a)
      → Refers F s'
  later-Refers s s' v cats zones rows later acts alerts = record {
    cats_valid = rw cats v.cats_valid;
    zones_distinct = rw zones v.zones_distinct;
    unused = λ i h. ap (find i) cats ∙ v.unused i (omega (arith, h, later));
    detections = rw (cats, zones, rows) v.detections;
    activities = rw cats acts;
    alerts = λ i a found. rw (cats, zones) (alerts i a found);
  }

  fired_alerts :
      (w : World F) (camera_id : String) (cat_id zone_id : ℕ) (s : Pipeline F)
      → Refers F s
      → s.camera_id ≡ camera_id
      → CatOf s.cats camera_id cat_id
      → ZoneOf F s.zones camera_id zone_id
      → let t =
          (fire (w.webhook s.next_uuid) (cat_id, zone_id) s.camera_id s.next_uuid s.alerts).1 in
        (i : ℕ) (a : Alert) → find i t ≡ some a → AlertRefers F s.cats s.zones a
  fired_alerts w camera_id cat_id zone_id s v on cat zone i a found =
      let delivery = w.webhook s.next_uuid in
      elim (ℕ_discrete i s.next_uuid) [
        | no other ↦ v.alerts i a (
            sym (fire_others delivery (cat_id, zone_id) s.camera_id s.next_uuid s.alerts i other)
            ∙ found)
        | yes same ↦
            let (b, there, pair, of_camera, _) =
              fire_written delivery (cat_id, zone_id) s.camera_id s.next_uuid s.alerts in
            let a_is : a ≡ b = cc (found, there, same) in
            let camera_is : a.camera_id ≡ camera_id = ap (λ x. x.camera_id) a_is ∙ of_camera ∙ on in
            let cat_is : a.cat_id ≡ cat_id = ap (λ x. x.cat_id) a_is ∙ ap (λ q. q.0) pair in
            let zone_is : a.zone_id ≡ zone_id = ap (λ x. x.zone_id) a_is ∙ ap (λ q. q.1) pair in
            rw (camera_is, cat_is, zone_is) (cat, zone)
      ]

  pub alert_for-Refers :
      (w : World F) (camera_id : String) (cat_id : ℕ) (cat : Cat) (zone_id : ℕ) (s : Pipeline F)
      → Refers F s
      → s.camera_id ≡ camera_id
      → CatOf s.cats camera_id cat_id
      → ZoneOf F s.zones camera_id zone_id
      → Refers F (alert_for F w camera_id cat_id cat zone_id s).1
  alert_for-Refers w camera_id cat_id cat zone_id s v on has_cat has_zone =
      let s' = (alert_for F w camera_id cat_id cat zone_id s).1 in
      let (cats, zones, rows, _, later) = alert_for_others w camera_id cat_id cat zone_id s in
      let (alerts, acts) = alert_for_cases w camera_id cat_id cat zone_id s in
      later-Refers s s' v cats zones rows later
        (elim acts [
          | inl same ↦ subst (All (ActivityRefers F s.cats)) (sym same) v.activities
          | inr (a, on_camera, of_cat, e) ↦
              subst (All (ActivityRefers F s.cats)) (sym e)
                (rw (on_camera, of_cat) has_cat, v.activities)
        ])
        (λ i a found. elim alerts [
          | inl same ↦ v.alerts i a (sym (ap (find i) same) ∙ found)
          | inr fired ↦
              fired_alerts w camera_id cat_id zone_id s v on has_cat has_zone i a
                (sym (ap (find i) fired) ∙ found)
        ])

  -- The rows of a track, with the zone that was matched.
  abbrev pub recorded : Detection F → Activity F → Pipeline F → Pipeline F
  recorded d a s = record s { detections = d ∷ s.detections; activities = a ∷ s.activities }

  pub recorded-Refers :
      (d : Detection F) (a : Activity F) (s : Pipeline F)
      → Refers F s
      → DetectionRefers F s.cats s.zones d
      → ActivityRefers F s.cats a
      → Refers F (recorded d a s)
  recorded-Refers d a s v row act = record {
    cats_valid = v.cats_valid;
    zones_distinct = v.zones_distinct;
    unused = v.unused;
    detections = (row, v.detections);
    activities = (act, v.activities);
    alerts = v.alerts;
  }
