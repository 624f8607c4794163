-- ===== src/Sentinel/Pipeline/References/Kept.antt =====
-- A frame keeps the foreign keys.
use cat_sentinel.Prelude.{
  ℕ, suc, ◌≤◌, ◌≡◌, ◌∙◌, refl, sym, ap, subst, inl, inr, String, List, [], ◌∷◌, some, ok, arith,
  Option-cases, Outcome-cases, All,
}
use cat_sentinel.Prelude.Tables.{Table, find}
use cat_sentinel.Prelude.Floats.{Floats}
use cat_sentinel.Sentinel.Zones.{Zone, list_active_for_camera}
use cat_sentinel.Sentinel.Zones.Effects.{list_active_for_camera_iff}
use cat_sentinel.Sentinel.Tracker.{SetOrder, TrackedObject}
use cat_sentinel.Sentinel.Cats.Race.{get_or_create_returns, get_or_create-Grows}
use cat_sentinel.Sentinel.Detector.{RawDetection}
use cat_sentinel.Sentinel.Pipeline.{
  Pipeline, World, Detection, Activity, matched_zone, cat_for_track, ask_cooldown, mark_cooldown,
  fire_alert, alert_for, alert_if, process_track, process_tracks, track_frame, frame_body,
  process_frame, detected, confidence_of, is_some,
}
use cat_sentinel.Sentinel.Pipeline.References.{
  IsTame, CatOf, ZoneOf, ActivityRefers, Refers, Refers-Grows,
}
use cat_sentinel.Sentinel.Pipeline.References.Steps.{
  matched_zone_listed, later-Refers, alert_for-Refers, recorded, recorded-Refers,
}

module _ (F : Floats) where
  -- The list of the zones of a frame.
  abbrev AreZonesOf : Table (Zone F) → String → List (ℕ × Zone F) → Type 0
  AreZonesOf t camera_id zs =
      (id : ℕ) (z : Zone F) → find id zs ≡ some z → (find id t ≡ some z) × (z.camera_id ≡ camera_id)

  process_track-Refers :
      (w : World F) (start : ℕ) (camera_id : String) (raws : List (RawDetection F))
      (zones : List (ℕ × Zone F)) (id : ℕ) (o : TrackedObject F) (s : Pipeline F)
      → IsTame start w.others
      → start ≤ s.next_uuid
      → Refers F s
      → s.camera_id ≡ camera_id
      → AreZonesOf s.zones camera_id zones
      → Refers F (process_track F w camera_id raws zones (id, o) s).1
  unfolding process_track cat_for_track alert_if
  process_track-Refers w start camera_id raws zones id o s tame begun v on listed =
      let unused = tame.unused s.cats s.next_uuid begun v.unused in
      let ((t, cat_id, cat), e, (valid, found, of_camera, of_track)) =
        get_or_create_returns w.others s.camera_id id s.next_uuid s.cats v.cats_valid
          (tame.valid s.cats v.cats_valid) in
      let (grows, absent) =
        get_or_create-Grows w.others s.camera_id id s.next_uuid s.cats (t, cat_id, cat)
          (tame.grows s.cats v.cats_valid) (unused s.next_uuid (omega arith)) e in
      let v1 = Refers-Grows F s t (suc s.next_uuid) v grows valid (λ i h.
        absent i (λ q. omega (arith, q, h)) (v.unused i (omega (arith, h)))
          (unused i (omega (arith, h)))) in
      let s' = (process_track F w camera_id raws zones (id, o) s).1 in
      let has_cat : CatOf t camera_id cat_id = (cat, found, of_camera ∙ on) in
      elim (Outcome-cases (matched_zone F o.centroid zones)) [
        | inr (err, z) ↦ subst (Refers F) (ground arith) v1
        | inl (zone, z) ↦
            let s1 : Pipeline F = record s { cats = t; next_uuid = suc s.next_uuid } in
            let d : Detection F = record {
              cat_id = cat_id;
              camera_id = camera_id;
              zone_id = zone;
              bbox = o.bbox;
              centroid = o.centroid;
              in_danger_zone = is_some F w zone;
              confidence = confidence_of F o.bbox raws;
            } in
            let a : Activity F = record {
              camera_id = camera_id;
              cat_id = some cat_id;
              message = detected cat.label zone;
            } in
            let s2 = recorded F d a s1 in
            elim (Option-cases zone) [
              | inl outside ↦
                  let v2 = recorded-Refers F d a s1 v1 (has_cat, rw outside refl) has_cat in
                  subst (Refers F) {x = s2} {y = s'} (ground (arith, outside)) v2
              | inr (zone_id, inside) ↦
                  let (y, is_listed) =
                    matched_zone_listed F o.centroid zones zone_id (z ∙ ap ok inside) in
                  let (stored, same_camera) = listed zone_id y is_listed in
                  let has_zone : ZoneOf F s.zones camera_id zone_id = (y, stored, same_camera) in
                  let v2 =
                    recorded-Refers F d a s1 v1 (has_cat, rw inside (refl, has_zone)) has_cat in
                  subst (Refers F) {x = (alert_for F w camera_id cat_id cat zone_id s2).1} {y = s'}
                    (ground (arith, inside))
                    (alert_for-Refers F w camera_id cat_id cat zone_id s2 v2 on has_cat has_zone)
            ]
      ]

  -- What no step of a track changes.
  abbrev Stays : Pipeline F → Pipeline F → Type 0
  Stays s s' = (s'.camera_id ≡ s.camera_id) × (s'.zones ≡ s.zones) × (s.next_uuid ≤ s'.next_uuid)

  process_track-Stays :
      (w : World F) (camera_id : String) (raws : List (RawDetection F)) (zones : List (ℕ × Zone F))
      (id : ℕ) (o : TrackedObject F) (s : Pipeline F)
      → Stays s (process_track F w camera_id raws zones (id, o) s).1
  unfolding process_track cat_for_track alert_if alert_for ask_cooldown mark_cooldown fire_alert
  process_track-Stays w camera_id raws zones id o s = ground arith

  process_tracks-Refers :
      (w : World F) (start : ℕ) (camera_id : String) (raws : List (RawDetection F))
      (zones : List (ℕ × Zone F)) (es : List (ℕ × TrackedObject F)) (s : Pipeline F)
      → IsTame start w.others
      → start ≤ s.next_uuid
      → Refers F s
      → s.camera_id ≡ camera_id
      → AreZonesOf s.zones camera_id zones
      → let s' = (process_tracks F w camera_id raws zones es s).1 in Refers F s' × Stays s s'
  unfolding process_tracks
  process_tracks-Refers w start camera_id raws zones [] s tame begun v on listed =
      (v, (refl, refl, omega arith))
  process_tracks-Refers w start camera_id raws zones ((id, o) ∷ es) s tame begun v on listed =
      let r = process_track F w camera_id raws zones (id, o) s in
      let v1 = process_track-Refers w start camera_id raws zones id o s tame begun v on listed in
      let (on1, same1, later1) = process_track-Stays w camera_id raws zones id o s in
      elim (Outcome-cases r.0) [
        | inr (x, e) ↦
            subst (λ x. Refers F x × Stays s x) {x = r.1} (ground (arith, e))
              (v1, (on1, same1, later1))
        | inl (u, e) ↦
            let (v2, (on2, same2, later2)) =
              process_tracks-Refers w start camera_id raws zones es r.1 tame
                (omega (arith, begun, later1)) v1 (on1 ∙ on)
                (λ j z f. let (x, y) = listed j z f in (ap (find j) same1 ∙ x, y)) in
            subst (λ x. Refers F x × Stays s x)
              {x = (process_tracks F w camera_id raws zones es r.1).1} (ground (arith, e))
              (v2, (on2 ∙ on1, same2 ∙ same1, omega (arith, later1, later2)))
      ]

  -- The end of a frame changes no row.
  frame_body-rows :
      (w : World F) (S : SetOrder) (raws : List (RawDetection F)) (s : Pipeline F)
      → let s1 = track_frame F w S raws s in
        let zones = list_active_for_camera F s.camera_id s.zones in
        let s2 = (process_tracks F w s.camera_id raws zones s1.tracker.objects s1).1 in
        let s3 = (frame_body F w S raws s).1 in
        (s3.cats ≡ s2.cats)
        × (s3.zones ≡ s2.zones)
        × (s3.detections ≡ s2.detections)
        × (s3.activities ≡ s2.activities)
        × (s3.alerts ≡ s2.alerts)
        × (s3.next_uuid ≡ s2.next_uuid)
  unfolding frame_body
  frame_body-rows w S raws s = ground arith

  -- A frame, whatever it meets and wherever it fails, keeps the foreign keys.
  pub process_frame-Refers :
      (w : World F) (S : SetOrder) (start : ℕ) (s : Pipeline F)
      → IsTame start w.others
      → start ≤ s.next_uuid
      → Refers F s
      → Refers F (process_frame F w S s) × (s.next_uuid ≤ (process_frame F w S s).next_uuid)
  unfolding process_frame frame_body
  process_frame-Refers w S start s tame begun v = elim (Option-cases w.detections) [
    | inl blind ↦
        subst (λ x. Refers F x × (s.next_uuid ≤ x.next_uuid)) {x = s} (ground (arith, blind))
          (v, omega arith)
    | inr (raws, seen) ↦
        let s1 = track_frame F w S raws s in
        let zones = list_active_for_camera F s.camera_id s.zones in
        let s2 = (process_tracks F w s.camera_id raws zones s1.tracker.objects s1).1 in
        let s3 = (frame_body F w S raws s).1 in
        let v1 = later-Refers F s s1 v refl refl refl (omega arith) v.activities v.alerts in
        let (v2, (_, _, later)) =
          process_tracks-Refers w start s.camera_id raws zones s1.tracker.objects s1 tame begun v1
            refl
            (λ j z found.
              let (stored, _, on) =
                (list_active_for_camera_iff F s.camera_id j z s.zones v.zones_distinct).0 found in
              (stored, on)) in
        let (cats, same_zones, rows, acts, alerts, ids) = frame_body-rows w S raws s in
        let v3 =
          later-Refers F s2 s3 v2 cats same_zones rows (omega (arith, ids))
            (subst (All (ActivityRefers F s2.cats)) (sym acts) v2.activities)
            (λ i a found. v2.alerts i a (sym (ap (find i) alerts) ∙ found)) in
        subst (λ x. Refers F x × (s.next_uuid ≤ x.next_uuid)) {x = s3} (ground (arith, seen))
          (v3, omega (arith, later, ids))
  ]
