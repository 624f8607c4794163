-- ===== src/Sentinel/Pipeline/Rows.antt =====
-- The rows that one frame writes.
use cat_sentinel.Prelude.{
  ℕ, suc, String, ◌≡◌, refl, inl, inr, List, [], ◌∷◌, Option, none, some, arith, ok, Outcome-cases,
  sym, ap, subst, ◌∙◌,
}
use cat_sentinel.Prelude.Tables.{Table}
use cat_sentinel.Prelude.Floats.{Floats}
use cat_sentinel.Sentinel.Zones.{Zone, list_active_for_camera}
use cat_sentinel.Sentinel.Tracker.{SetOrder, TrackedObject, update}
use cat_sentinel.Sentinel.Cats.{Cat, get_or_create}
use cat_sentinel.Sentinel.Detector.{RawDetection}
use cat_sentinel.Sentinel.Pipeline.{
  Detection, Activity, Pipeline, World, matched_zone, confidence_of, cat_for_track, ask_cooldown,
  mark_cooldown, detected, fire_alert, alert_for, alert_if, process_track, process_tracks,
  track_frame, observations, frame_body, is_some,
}

module _ (F : Floats) (w : World F) where
  -- The row is of this track: its box and place, the first zone that contains it, if any, and the flag
  -- that says whether there is one.
  abbrev pub IsRowOf :
      String → List (RawDetection F) → List (ℕ × Zone F) → TrackedObject F → Detection F → Type 0
  IsRowOf camera_id raws zones o d =
      (d.camera_id ≡ camera_id)
      × (d.bbox ≡ o.bbox)
      × (d.centroid ≡ o.centroid)
      × (matched_zone F o.centroid zones ≡ ok d.zone_id)
      × (d.in_danger_zone ≡ is_some F w d.zone_id)
      × (d.confidence ≡ confidence_of F o.bbox raws)

  -- From `old` to `new` one row was added for each track, in the order of the tracks.
  abbrev pub AddsRows :
      String
      → List (RawDetection F)
      → List (ℕ × Zone F)
      → List (ℕ × TrackedObject F)
      → (old new : List (Detection F)) → Type 0
  AddsRows camera_id raws zones [] old new = new ≡ old
  AddsRows camera_id raws zones (e ∷ es) old new =
      (d : Detection F) × IsRowOf camera_id raws zones e.1 d
      × AddsRows camera_id raws zones es (d ∷ old) new

  -- The last step of a track touches no detection.
  detections-alert_if :
      (camera_id : String) (cat_id : ℕ) (cat : Cat) (zone : Option ℕ) (s : Pipeline F)
      → (alert_if F w camera_id cat_id cat zone s).1.detections ≡ s.detections
  unfolding alert_if alert_for ask_cooldown mark_cooldown fire_alert
  detections-alert_if camera_id cat_id cat none s = refl
  detections-alert_if camera_id cat_id cat (some zone_id) s = ground arith

  -- One track: its row, of the cat that `get_or_create` gives for it.
  pub process_track_row :
      (camera_id : String) (raws : List (RawDetection F)) (zones : List (ℕ × Zone F)) (id : ℕ)
      (o : TrackedObject F) (s s' : Pipeline F)
      → process_track F w camera_id raws zones (id, o) s ≡ (ok tt, s')
      → (d : Detection F) × IsRowOf camera_id raws zones o d
        × (s'.detections ≡ d ∷ s.detections)
        × ((r : Table Cat × ℕ × Cat) × (get_or_create w.others s.camera_id id s.next_uuid s.cats
              ≡ ok r)
            × (d.cat_id ≡ r.1))
  unfolding process_track cat_for_track
  process_track_row camera_id raws zones id o s s' h =
      elim (Outcome-cases (get_or_create w.others s.camera_id id s.next_uuid s.cats)) [
        | inr (err, e) ↦ absurd (ground arith)
        | inl ((t, cat_id, cat), e) ↦ elim (Outcome-cases (matched_zone F o.centroid zones)) [
          | inr (err, z) ↦ absurd (ground arith)
          | inl (zone, z) ↦
              let d : Detection F = record {
                cat_id = cat_id;
                camera_id = camera_id;
                zone_id = zone;
                bbox = o.bbox;
                centroid = o.centroid;
                in_danger_zone = is_some F w zone;
                confidence = confidence_of F o.bbox raws;
              } in
              let a : Activity F = record {
                camera_id = camera_id;
                cat_id = some cat_id;
                message = detected cat.label zone;
              } in
              let s2 : Pipeline F = record s {
                cats = t;
                next_uuid = suc s.next_uuid;
                detections = d ∷ s.detections;
                activities = a ∷ s.activities;
              } in
              let run : process_track F w camera_id raws zones (id, o) s
                  ≡ alert_if F w camera_id cat_id cat zone s2 =
                ground arith in
              (
                d,
                (refl, refl, refl, z, refl, refl),
                ap (λ r. r.1.detections) (sym h ∙ run)
                    ∙ detections-alert_if camera_id cat_id cat zone s2,
                ((t, cat_id, cat), e, refl),
              )
        ]
      ]

  -- The loop over the tracks that goes through: none of its steps has raised.
  pub no_track_went :
      (camera_id : String) (raws : List (RawDetection F)) (zones : List (ℕ × Zone F))
      (s s' : Pipeline F)
      → process_tracks F w camera_id raws zones [] s ≡ (ok tt, s')
      → s'.detections ≡ s.detections
  unfolding process_tracks
  no_track_went camera_id raws zones s s' h = ground arith

  pub first_track_went :
      (camera_id : String) (raws : List (RawDetection F)) (zones : List (ℕ × Zone F)) (id : ℕ)
      (o : TrackedObject F) (es : List (ℕ × TrackedObject F)) (s s' : Pipeline F)
      → process_tracks F w camera_id raws zones ((id, o) ∷ es) s ≡ (ok tt, s')
      → let r = process_track F w camera_id raws zones (id, o) s in
        (r ≡ (ok tt, r.1)) × (process_tracks F w camera_id raws zones es r.1 ≡ (ok tt, s'))
  unfolding process_tracks
  first_track_went camera_id raws zones id o es s s' h =
      let r = process_track F w camera_id raws zones (id, o) s in
      elim (Outcome-cases r.0) [
        | inr (err, e) ↦ absurd (ground arith)
        | inl (u, e) ↦ (ap (λ x. (x, r.1)) e, ground arith)
      ]

  process_tracks_rows :
      (camera_id : String) (raws : List (RawDetection F)) (zones : List (ℕ × Zone F))
      (es : List (ℕ × TrackedObject F)) (s s' : Pipeline F)
      → process_tracks F w camera_id raws zones es s ≡ (ok tt, s')
      → AddsRows camera_id raws zones es s.detections s'.detections
  unfolding process_tracks
  process_tracks_rows camera_id raws zones [] s s' h = no_track_went camera_id raws zones s s' h
  process_tracks_rows camera_id raws zones ((id, o) ∷ es) s s' h =
      let first = process_track F w camera_id raws zones (id, o) s in
      let (went, later) = first_track_went camera_id raws zones id o es s s' h in
      let (d, row, added, _) = process_track_row camera_id raws zones id o s first.1 went in
      let rest = process_tracks_rows camera_id raws zones es first.1 s' later in
      (d, row, subst (λ ds. AddsRows camera_id raws zones es ds s'.detections) added rest)

  -- A frame that goes through is its tracks, and the end of the frame, which adds no row.
  pub tracks_went :
      (S : SetOrder) (raws : List (RawDetection F)) (s s' : Pipeline F)
      → frame_body F w S raws s ≡ (ok tt, s')
      → let s1 = track_frame F w S raws s in
        (s2 : Pipeline F) × (process_tracks F w s.camera_id raws
            (list_active_for_camera F s.camera_id s.zones)
            s1.tracker.objects
            s1
          ≡ (ok tt, s2))
        × (s2.detections ≡ s'.detections)
  unfolding frame_body
  tracks_went S raws s s' h =
      let zones = list_active_for_camera F s.camera_id s.zones in
      let s1 = track_frame F w S raws s in
      let tracks = process_tracks F w s.camera_id raws zones s1.tracker.objects s1 in
      elim (Outcome-cases tracks.0) [
        | inr (err, e) ↦ absurd (ground arith)
        | inl (u, e) ↦ (tracks.1, ap (λ x. (x, tracks.1)) e, ground arith)
      ]

  -- A frame that goes through adds one detection for each track of the tracker after the frame, seen in
  -- it or not, in the order of the tracks: with the track's box and place, the first of the camera's
  -- active zones that contains it, and the confidence of a detection with that box, or 0.
  pub frame_body_rows :
      (S : SetOrder) (raws : List (RawDetection F)) (s s' : Pipeline F)
      → frame_body F w S raws s ≡ (ok tt, s')
      → AddsRows s.camera_id raws
          (list_active_for_camera F s.camera_id s.zones)
          (update F S s.tracker (observations F w raws)).objects
          s.detections
          s'.detections
  frame_body_rows S raws s s' h =
      let zones = list_active_for_camera F s.camera_id s.zones in
      let s1 = track_frame F w S raws s in
      let (s2, went, same) = tracks_went S raws s s' h in
      subst (AddsRows s.camera_id raws zones s1.tracker.objects s.detections) same
        (process_tracks_rows s.camera_id raws zones s1.tracker.objects s1 s2 went)

  -- With one track, a frame that goes through is the step of that track, but for the frame it publishes.
  pub one_track :
      (S : SetOrder) (raws : List (RawDetection F)) (s s' : Pipeline F) (id : ℕ)
      (o : TrackedObject F)
      → (update F S s.tracker (observations F w raws)).objects ≡ (id, o) ∷ []
      → frame_body F w S raws s ≡ (ok tt, s')
      → let r =
          process_track F w s.camera_id raws
            (list_active_for_camera F s.camera_id s.zones)
            (id, o)
            (track_frame F w S raws s) in
        (r.0 ≡ ok tt) × (s'.detections ≡ r.1.detections)
  unfolding frame_body process_tracks
  one_track S raws s s' id o only h =
      let zones = list_active_for_camera F s.camera_id s.zones in
      let r = process_track F w s.camera_id raws zones (id, o) (track_frame F w S raws s) in
      elim (Outcome-cases r.0) [
        | inr (x, e) ↦ absurd (ground (arith, only, e, h))
        | inl (u, e) ↦ (e, ground (arith, only, e, h))
      ]
