-- ===== src/Sentinel/Pipeline/Faults.antt =====
-- When a frame fires no alert, and when it writes nothing.
use cat_sentinel.Prelude.{
  ℕ, String, ◌≡◌, ◌≢◌, refl, ◌⊎◌, inl, inr, true, List, [], ◌∷◌, none, some, arith, ok, raise,
  Outcome-cases, Bool-cases, Option-cases,
}
use cat_sentinel.Prelude.Floats.{Floats}
use cat_sentinel.Sentinel.Errors.{type_error}
use cat_sentinel.Sentinel.Geometry.{Point}
use cat_sentinel.Sentinel.Zones.{Zone, list_active_for_camera}
use cat_sentinel.Sentinel.Tracker.{SetOrder, TrackedObject, update}
use cat_sentinel.Sentinel.Cats.{get_or_create}
use cat_sentinel.Sentinel.Alerts.{should_fire}
use cat_sentinel.Sentinel.Detector.{RawDetection}
use cat_sentinel.Sentinel.Pipeline.{
  Pipeline, World, in_zone, matched_zone, cat_for_track, ask_cooldown, mark_cooldown, fire_alert,
  alert_for, alert_if, process_track, process_tracks, track_frame, observations, frame_body,
}

module _ (F : Floats) where
  matched_zone_null :
      (at : Point F) (id : ℕ) (z : Zone F) (zs : List (ℕ × Zone F))
      → z.points ≡ none
      → matched_zone F at ((id, z) ∷ zs) ≡ raise type_error
  unfolding matched_zone in_zone
  matched_zone_null at id z zs h = ground arith

  module _ (w : World F) where
    -- The rows and frames that others see are the same in both states.
    abbrev pub SameOutput : Pipeline F → Pipeline F → Type 0
    SameOutput s s' =
        (s'.detections ≡ s.detections)
        × (s'.activities ≡ s.activities)
        × (s'.alerts ≡ s.alerts)
        × (s'.published ≡ s.published)

    process_track_null :
        (camera_id : String) (raws : List (RawDetection F)) (zid : ℕ) (z : Zone F)
        (zs : List (ℕ × Zone F)) (id : ℕ) (o : TrackedObject F) (s : Pipeline F)
        → z.points ≡ none
        → (process_track F w camera_id raws ((zid, z) ∷ zs) (id, o) s).0 ≢ ok tt
          × SameOutput s (process_track F w camera_id raws ((zid, z) ∷ zs) (id, o) s).1
    unfolding process_track cat_for_track
    process_track_null camera_id raws zid z zs id o s h =
        ground (arith, matched_zone_null o.centroid zid z zs h)

    process_tracks_null :
        (camera_id : String) (raws : List (RawDetection F)) (zid : ℕ) (z : Zone F)
        (zs : List (ℕ × Zone F)) (es : List (ℕ × TrackedObject F)) (s : Pipeline F)
        → z.points ≡ none
        → es ≢ []
        → (process_tracks F w camera_id raws ((zid, z) ∷ zs) es s).0 ≢ ok tt
          × SameOutput s (process_tracks F w camera_id raws ((zid, z) ∷ zs) es s).1
    unfolding process_tracks
    process_tracks_null camera_id raws zid z zs [] s h n = absurd (n refl)
    process_tracks_null camera_id raws zid z zs ((id, o) ∷ es) s h n =
        ground (arith, process_track_null camera_id raws zid z zs id o s h)

    -- If the first of the camera's active zones holds a null polygon, then every frame in which a track
    -- is alive writes no detection, no activity and no alert, and publishes nothing.
    pub null_zone_blinds :
        (S : SetOrder) (raws : List (RawDetection F)) (s : Pipeline F) (zid : ℕ) (z : Zone F)
        (zs : List (ℕ × Zone F))
        → list_active_for_camera F s.camera_id s.zones ≡ (zid, z) ∷ zs
        → z.points ≡ none
        → (update F S s.tracker (observations F w raws)).objects ≢ []
        → SameOutput s (frame_body F w S raws s).1
    unfolding frame_body
    null_zone_blinds S raws s zid z zs active null some_track =
        let s1 = track_frame F w S raws s in
        let stops =
          process_tracks_null s.camera_id raws zid z zs s1.tracker.objects s1 null some_track in
        rw active (ground (arith, stops))

    -- Whatever a track comes to, the table of alerts changes only if a zone contains the track and the
    -- cooldown of the cat and that zone has run out at the time of asking.
    pub process_track_alert :
        (camera_id : String) (raws : List (RawDetection F)) (zones : List (ℕ × Zone F)) (id : ℕ)
        (o : TrackedObject F) (s : Pipeline F)
        → ((process_track F w camera_id raws zones (id, o) s).1.alerts ≡ s.alerts)
          ⊎ ((zone_id cat_id : ℕ) × (matched_zone F o.centroid zones ≡ ok (some zone_id))
              × (should_fire s.cooldown (cat_id, zone_id) (w.clock s.clock_calls) ≡ true))
    unfolding process_track cat_for_track alert_if alert_for ask_cooldown mark_cooldown fire_alert
    process_track_alert camera_id raws zones id o s =
        elim (Outcome-cases (get_or_create w.others s.camera_id id s.next_uuid s.cats)) [
          | inr (err, e) ↦ inl (ground arith)
          | inl ((t, cat_id, cat), e) ↦ elim (Outcome-cases (matched_zone F o.centroid zones)) [
            | inr (err, z) ↦ inl (ground arith)
            | inl (zone, z) ↦ elim (Option-cases zone) [
              | inl outside ↦ inl (ground arith)
              | inr (zone_id, inside) ↦
                  elim (Bool-cases
                    (should_fire s.cooldown (cat_id, zone_id) (w.clock s.clock_calls))) [
                      | inl due ↦ inr (zone_id, cat_id, ground arith, due)
                      | inr waits ↦ inl (ground arith)
                    ]
            ]
          ]
        ]
