-- ===== src/Sentinel/Pipeline/Cadence/Tracks.antt =====
-- Each step of a frame raises only alerts that are due.
use cat_sentinel.Prelude.{
  ℕ, suc, ◌≤◌, ◌≡◌, ◌∙◌, refl, sym, ap, subst, inl, inr, String, true, List, [], ◌∷◌, ◌++◌, none,
  some, Outcome, ok, raise, arith, length, Bool-cases, Option-cases, Outcome-cases,
}
use cat_sentinel.Prelude.Tables.{Table, find}
use cat_sentinel.Prelude.Floats.{Floats}
use cat_sentinel.Sentinel.Errors.{AppError}
use cat_sentinel.Sentinel.Zones.{Zone, list_active_for_camera}
use cat_sentinel.Sentinel.Tracker.{SetOrder, TrackedObject}
use cat_sentinel.Sentinel.Cats.{Cat, get_or_create}
use cat_sentinel.Sentinel.Alerts.{Alert, should_fire, mark_fired, fire}
use cat_sentinel.Sentinel.Alerts.Delivered.{Adds, fire-Adds, fire_others}
use cat_sentinel.Sentinel.Pipeline.Cadence.{
  posts_of, post_at, IsFresh, Raises, nil-Raises, same-Raises, append-Raises, track_posts,
  tracks_posts, frame_posts,
}
use cat_sentinel.Sentinel.Detector.{RawDetection}
use cat_sentinel.Sentinel.Pipeline.{
  Pipeline, World, matched_zone, cat_for_track, ask_cooldown, mark_cooldown, fire_alert, alert_for,
  alert_if, process_track, process_tracks, track_frame, frame_body, process_frame, alert_fired,
  detected, confidence_of,
}

module _ (F : Floats) (w : World F) where
  -- The state behind a call of `fire` that ended so.
  abbrev fired_state :
      String → ℕ → Cat → ℕ → Pipeline F → Outcome AppError Alert × Table Alert → Pipeline F
  fired_state camera_id cat_id cat zone_id s (raise e, t) = record s {
    alerts = t;
    next_uuid = suc s.next_uuid;
    clock_calls = suc s.clock_calls;
  }
  fired_state camera_id cat_id cat zone_id s (ok a, t) = record s {
    alerts = t;
    next_uuid = suc s.next_uuid;
    clock_calls = suc (suc s.clock_calls);
    cooldown = mark_fired s.cooldown (cat_id, zone_id) (w.clock (suc s.clock_calls));
    activities =
        record {
          camera_id = camera_id;
          cat_id = some cat_id;
          message = alert_fired cat.label a.status;
        }
        ∷ s.activities;
  }

  -- The end of a frame leaves the alerts as they are.
  frame_body-same :
      (S : SetOrder) (raws : List (RawDetection F)) (s : Pipeline F)
      → let s1 = track_frame F w S raws s in
        let s2 =
          (process_tracks F w s.camera_id raws
            (list_active_for_camera F s.camera_id s.zones)
            s1.tracker.objects
            s1).1 in
        let s3 = (frame_body F w S raws s).1 in
        (s3.alerts ≡ s2.alerts) × (s3.cooldown ≡ s2.cooldown) × (s3.next_uuid ≡ s2.next_uuid)
  unfolding frame_body
  frame_body-same S raws s = ground arith

  module _ (forward : (n : ℕ) → w.clock n ≤ w.clock (suc n)) where
    fired-Raises :
        (camera_id : String) (cat_id : ℕ) (cat : Cat) (zone_id : ℕ) (s : Pipeline F)
        (r : Outcome AppError Alert × Table Alert)
        → should_fire s.cooldown (cat_id, zone_id) (w.clock s.clock_calls) ≡ true
        → Adds r (cat_id, zone_id) s.next_uuid s.alerts
        → ((i : ℕ) → suc s.next_uuid ≤ i → find i r.1 ≡ none)
        → let s' = fired_state camera_id cat_id cat zone_id s r in
          Raises F s s' (post_at w.clock s.next_uuid s.clock_calls s'.alerts)
    fired-Raises camera_id cat_id cat zone_id s (raise e, t) due (a, found, pair, over, more) f =
        subst (λ ps. Raises F s (fired_state camera_id cat_id cat zone_id s (raise e, t)) ps)
          (sym (ap (posts_of w.clock s.clock_calls) found))
          (record {
            fresh = f;
            follows = (rw pair due, forward s.clock_calls, rw over refl);
            counted = omega (arith, more);
          })
    fired-Raises camera_id cat_id cat zone_id s (ok x, t) due (a, found, pair, over, more) f =
        subst (λ ps. Raises F s (fired_state camera_id cat_id cat zone_id s (ok x, t)) ps)
          (sym (ap (posts_of w.clock s.clock_calls) found))
          (record {
            fresh = f;
            follows = (rw pair due, forward s.clock_calls, rw (over, pair) refl);
            counted = omega (arith, more);
          })

    alert_for-Raises :
        (camera_id : String) (cat_id : ℕ) (cat : Cat) (zone_id : ℕ) (s : Pipeline F)
        → IsFresh F s
        → let s' = (alert_for F w camera_id cat_id cat zone_id s).1 in
          Raises F s s' (post_at w.clock s.next_uuid s.clock_calls s'.alerts)
    unfolding alert_for ask_cooldown mark_cooldown fire_alert
    alert_for-Raises camera_id cat_id cat zone_id s f =
        let id = s.next_uuid in
        let nothing = f id (omega arith) in
        let r = fire (w.webhook id) (cat_id, zone_id) s.camera_id id s.alerts in
        elim (Bool-cases (should_fire s.cooldown (cat_id, zone_id) (w.clock s.clock_calls))) [
          | inr waits ↦
              let s' : Pipeline F = record s { clock_calls = suc s.clock_calls } in
              rw waits (
                subst (Raises F s s') (sym (ap (posts_of w.clock s.clock_calls) nothing))
                  (nil-Raises F s s' f (omega arith) refl refl))
          | inl due ↦
              let others : (i : ℕ) → suc id ≤ i → find i r.1 ≡ none = λ i later.
                fire_others (w.webhook id) (cat_id, zone_id) s.camera_id id s.alerts i
                  (λ e. omega (arith, e, later))
                ∙ f i (omega (arith, later)) in
              let adds =
                fire-Adds (w.webhook id) (cat_id, zone_id) s.camera_id id s.alerts nothing in
              let is_fired : (alert_for F w camera_id cat_id cat zone_id s).1
                  ≡ fired_state camera_id cat_id cat zone_id s r =
                elim (Outcome-cases r.0) [
                  | inl (a, e) ↦ ground (arith, e, due)
                  | inr (x, e) ↦ ground (arith, e, due)
                ] in
              subst (λ s'. Raises F s s' (post_at w.clock id s.clock_calls s'.alerts))
                (sym is_fired) (fired-Raises camera_id cat_id cat zone_id s r due adds others)
        ]

    quiet-Raises :
        (s s' : Pipeline F)
        → IsFresh F s
        → s.next_uuid ≤ s'.next_uuid
        → s'.alerts ≡ s.alerts
        → s'.cooldown ≡ s.cooldown
        → Raises F s s' (track_posts F w s s')
    quiet-Raises s s' f later same still =
        subst (Raises F s s')
          (sym (
            ap (posts_of w.clock s.clock_calls)
              (ap (find (suc s.next_uuid)) same ∙ f (suc s.next_uuid) (omega arith))))
          (nil-Raises F s s' f later same still)

    process_track-Raises :
        (camera_id : String) (raws : List (RawDetection F)) (zones : List (ℕ × Zone F)) (id : ℕ)
        (o : TrackedObject F) (s : Pipeline F)
        → IsFresh F s
        → let s' = (process_track F w camera_id raws zones (id, o) s).1 in
          Raises F s s' (track_posts F w s s')
    unfolding process_track cat_for_track alert_if
    process_track-Raises camera_id raws zones id o s f =
        let s' = (process_track F w camera_id raws zones (id, o) s).1 in
        elim (Outcome-cases (get_or_create w.others s.camera_id id s.next_uuid s.cats)) [
          | inr (err, e) ↦ quiet-Raises s s' f (ground arith) (ground arith) (ground arith)
          | inl ((t, cat_id, cat), e) ↦ elim (Outcome-cases (matched_zone F o.centroid zones)) [
            | inr (err, z) ↦ quiet-Raises s s' f (ground arith) (ground arith) (ground arith)
            | inl (zone, z) ↦ elim (Option-cases zone) [
              | inl outside ↦ quiet-Raises s s' f (ground arith) (ground arith) (ground arith)
              | inr (zone_id, inside) ↦
                  let s2 : Pipeline F = record s {
                    cats = t;
                    next_uuid = suc s.next_uuid;
                    detections =
                        record {
                          cat_id = cat_id;
                          camera_id = camera_id;
                          zone_id = zone;
                          bbox = o.bbox;
                          centroid = o.centroid;
                          in_danger_zone = true;
                          confidence = confidence_of F o.bbox raws;
                        }
                        ∷ s.detections;
                    activities =
                        record {
                          camera_id = camera_id;
                          cat_id = some cat_id;
                          message = detected cat.label zone;
                        }
                        ∷ s.activities;
                  } in
                  let run : s' ≡ (alert_for F w camera_id cat_id cat zone_id s2).1 =
                    ground (arith, inside) in
                  let raised =
                    alert_for-Raises camera_id cat_id cat zone_id s2
                      (λ i later. f i (omega (arith, later))) in
                  subst (λ x. Raises F s x (track_posts F w s x)) (sym run)
                    (record {
                      fresh = raised.fresh;
                      follows = raised.follows;
                      counted = raised.counted;
                    })
            ]
          ]
        ]

    process_tracks-Raises :
        (camera_id : String) (raws : List (RawDetection F)) (zones : List (ℕ × Zone F))
        (es : List (ℕ × TrackedObject F)) (s : Pipeline F)
        → IsFresh F s
        → Raises F s
            (process_tracks F w camera_id raws zones es s).1
            (tracks_posts F w camera_id raws zones es s)
    unfolding process_tracks
    process_tracks-Raises camera_id raws zones [] s f = nil-Raises F s s f (omega arith) refl refl
    process_tracks-Raises camera_id raws zones ((id, o) ∷ es) s f =
        let r = process_track F w camera_id raws zones (id, o) s in
        let first = process_track-Raises camera_id raws zones id o s f in
        elim (Outcome-cases r.0) [
          | inr (x, e) ↦
              same-Raises F s _ r.1 _ (track_posts F w s r.1 ++ []) (ground (arith, e)) (rw e refl)
                (append-Raises F s r.1 r.1 (track_posts F w s r.1) [] first
                  (nil-Raises F r.1 r.1 first.fresh (omega arith) refl refl))
          | inl (u, e) ↦
              let s' = (process_tracks F w camera_id raws zones es r.1).1 in
              let later = tracks_posts F w camera_id raws zones es r.1 in
              same-Raises F s _ s' _ (track_posts F w s r.1 ++ later) (ground (arith, e))
                (rw e refl)
                (append-Raises F s r.1 s' (track_posts F w s r.1) later first
                  (process_tracks-Raises camera_id raws zones es r.1 first.fresh))
        ]

    pub process_frame-Raises :
        (S : SetOrder) (s : Pipeline F)
        → IsFresh F s
        → Raises F s (process_frame F w S s) (frame_posts F w S s)
    unfolding process_frame
    process_frame-Raises S s f = elim (Option-cases w.detections) [
      | inl blind ↦
          same-Raises F s _ s _ [] (ground (arith, blind)) (rw blind refl)
            (nil-Raises F s s f (omega arith) refl refl)
      | inr (raws, seen) ↦
          let s1 = track_frame F w S raws s in
          let zones = list_active_for_camera F s.camera_id s.zones in
          let all = process_tracks-Raises s.camera_id raws zones s1.tracker.objects s1 f in
          let (same, still, ids) = frame_body-same S raws s in
          same-Raises F s _ (frame_body F w S raws s).1 _
            (tracks_posts F w s.camera_id raws zones s1.tracker.objects s1) (ground (arith, seen))
            (rw seen refl)
            (record {
              fresh = λ i h. ap (find i) same ∙ all.fresh i (omega (arith, h, ids));
              follows = rw still all.follows;
              counted = omega (arith, all.counted, ap length same);
            })
    ]
