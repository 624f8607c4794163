-- ===== src/Sentinel/Pipeline/Cadence.antt =====
-- The alerts of a pipeline, read off the rows that it adds, and the times between them.
pub mod Tracks
use cat_sentinel.Prelude.{
  ℕ, suc, ◌+◌, ◌≤◌, ◌≡◌, ◌≢◌, ◌∙◌, refl, sym, ap, subst, inl, inr, String, Bool, true, false, List,
  [], ◌∷◌, ◌++◌, Option, none, some, Outcome, ok, raise, arith, length, length-append, Bool-cases,
  Option-cases, Outcome-cases,
}
use cat_sentinel.Prelude.Tables.{Table, find}
use cat_sentinel.Prelude.Floats.{Floats}
use cat_sentinel.Sentinel.Errors.{AppError}
use cat_sentinel.Sentinel.Zones.{Zone, list_active_for_camera}
use cat_sentinel.Sentinel.Tracker.{SetOrder, TrackedObject}
use cat_sentinel.Sentinel.Cats.{Cat, get_or_create}
use cat_sentinel.Sentinel.Alerts.{Alert, AlertCooldownTracker, should_fire, mark_fired, fire}
use cat_sentinel.Sentinel.Alerts.Delivered.{is_over, is_ok, Adds, fire-Adds, fire_others}
use cat_sentinel.Sentinel.Alerts.Posts.{Post, Follows, append-Follows, AreSpaced}
use cat_sentinel.Sentinel.Detector.{RawDetection}
use cat_sentinel.Sentinel.Pipeline.{
  Pipeline, World, matched_zone, cat_for_track, ask_cooldown, mark_cooldown, fire_alert, alert_for,
  alert_if, process_track, process_tracks, track_frame, frame_body, process_frame, alert_fired,
  detected, confidence_of,
}

-- The clock is read when the cooldown is asked, and again when it is marked.
abbrev pub posts_of : (clock : ℕ → ℕ) (calls : ℕ) → Option Alert → List Post
posts_of clock calls none = []
posts_of clock calls (some a) =
    record {
      pair = (a.cat_id, a.zone_id);
      check = clock calls;
      mark = clock (suc calls);
      came_back = is_over a.status;
    }
    ∷ []

-- The alert that stands in the table under the next uuid, if one was added.
abbrev pub post_at : (clock : ℕ → ℕ) (id calls : ℕ) → Table Alert → List Post
post_at clock id calls t = posts_of clock calls (find id t)

module _ (F : Floats) where
  -- No alert has a uuid that is handed out later.
  abbrev pub IsFresh : Pipeline F → Type 0
  IsFresh s = (i : ℕ) → s.next_uuid ≤ i → find i s.alerts ≡ none

  -- From `s` to `s'` these alerts were added, each when it was due.
  pub record Raises (s s' : Pipeline F) (posts : List Post) : Type 0 where
    pub fresh : IsFresh s'
    pub follows : Follows posts s.cooldown s'.cooldown
    pub counted : length s'.alerts ≡ length s.alerts + length posts

  pub nil-Raises :
      (s s' : Pipeline F)
      → IsFresh s
      → s.next_uuid ≤ s'.next_uuid
      → s'.alerts ≡ s.alerts
      → s'.cooldown ≡ s.cooldown
      → Raises s s' []
  nil-Raises s s' f later same still = record {
    fresh = λ i h. ap (find i) same ∙ f i (omega (arith, h, later));
    follows = still;
    counted = omega (arith, ap length same);
  }

  pub same-Raises :
      (s s' t' : Pipeline F) (vs ws : List Post)
      → s' ≡ t'
      → vs ≡ ws
      → Raises s t' ws
      → Raises s s' vs
  same-Raises s s' t' vs ws e q a =
      subst (λ x. Raises s x vs) (sym e) (subst (Raises s t') (sym q) a)

  pub append-Raises :
      (s s' s'' : Pipeline F) (vs ws : List Post)
      → Raises s s' vs
      → Raises s' s'' ws
      → Raises s s'' (vs ++ ws)
  append-Raises s s' s'' vs ws a b = record {
    fresh = b.fresh;
    follows = append-Follows vs ws s.cooldown s'.cooldown s''.cooldown a.follows b.follows;
    counted = omega (arith, a.counted, b.counted, length-append vs ws);
  }

  module _ (w : World F) where
    -- The alert of a track, whose uuid is the second that the track is given.
    abbrev pub track_posts : Pipeline F → Pipeline F → List Post
    track_posts s s' = post_at w.clock (suc s.next_uuid) s.clock_calls s'.alerts

    -- The alerts of the tracks, up to the first that raises.
    abbrev pub tracks_posts :
        String
        → List (RawDetection F)
        → List (ℕ × Zone F)
        → List (ℕ × TrackedObject F)
        → Pipeline F
        → List Post
    tracks_posts camera_id raws zones [] s = []
    tracks_posts camera_id raws zones (e ∷ es) s =
        let r = process_track F w camera_id raws zones e s in
        track_posts s r.1
        ++ elim r.0 [ raise _ ↦ [] | ok _ ↦ tracks_posts camera_id raws zones es r.1 ]

    -- The alerts of a frame.
    abbrev pub frame_posts : SetOrder → Pipeline F → List Post
    frame_posts S s = elim w.detections [
      | none ↦ []
      | some raws ↦
          let s1 = track_frame F w S raws s in
          tracks_posts s.camera_id raws (list_active_for_camera F s.camera_id s.zones)
            s1.tracker.objects s1
    ]
