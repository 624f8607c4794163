-- ===== src/Sentinel/Pipeline/Tests.antt =====
-- One frame with a cat in a zone, and the theorems at that input.
use cat_sentinel.Sentinel.Pipeline.Cadence.{frame_posts}
use cat_sentinel.Prelude.{
  ℕ, map, ◌≡◌, ◌≢◌, refl, true, ok, [], ◌∷◌, some, ℕ_discrete, lookup, insert, str_dec, pair_dec,
}
use cat_sentinel.Prelude.Int.{pos, ◌+ℤ◌, quot}
use cat_sentinel.Prelude.Tables.{commit, taken, find_by}
use cat_sentinel.Prelude.Floats.{scaled}
use cat_sentinel.Sentinel.Geometry.{point_in_polygon}
use cat_sentinel.Sentinel.Zones.{Zone, list_active_for_camera}
use cat_sentinel.Sentinel.Tracker.{
  in_order, BoundingBox, TrackedObject, new_tracker, update, matching, contains,
}
use cat_sentinel.Sentinel.Cats.{get_or_create, new_cat}
use cat_sentinel.Sentinel.Alerts.{
  Pair, responded, sent, pending_alert, should_fire, mark_fired, fire,
}
use cat_sentinel.Sentinel.Detector.{RawDetection, centroid_of}
use cat_sentinel.Sentinel.Pipeline.{
  Pipeline, World, matched_zone, process_track, frame_body, process_frame, observations,
  process_tracks, cat_for_track, in_zone, confidence_of, alert_if, alert_for, ask_cooldown,
  mark_cooldown, fire_alert,
}
use cat_sentinel.Sentinel.Pipeline.Rows.{AddsRows, frame_body_rows}

unfoldable pub box : BoundingBox scaled
unfolding scaled
box = record { left = pos 0; top = pos 0; right = pos 10; bottom = pos 10 }

unfoldable pub cat_seen : RawDetection scaled
unfolding scaled
cat_seen = record { bbox = box; confidence = pos 9 }

unfoldable pub table_zone : Zone scaled
unfolding scaled
table_zone = record {
  camera_id = "default";
  name = "table";
  points = some ((pos 0, pos 0) ∷ (pos 10, pos 0) ∷ (pos 10, pos 10) ∷ (pos 0, pos 10) ∷ []);
  is_active = true;
}

abbrev pub world : World scaled
world = record {
  detections = some (cat_seen ∷ []);
  encodes = true;
  clock = λ n. 100;
  webhook = λ id. responded 200;
  others = λ t. t;
}

unfoldable pub idle : Pipeline scaled
unfolding scaled new_tracker
idle = record {
  camera_id = "default";
  tracker = new_tracker scaled (pos 5625) 30;
  cooldown = record { cooldown_seconds = 60; last_fired = [] };
  zones = (3, table_zone) ∷ [];
  cats = [];
  detections = [];
  activities = [];
  alerts = [];
  next_uuid = 10;
  clock_calls = 0;
  published = 0;
}

program : Unit {0}
unfolding scaled box cat_seen table_zone idle centroid_of ◌+ℤ◌ quot point_in_polygon
    list_active_for_camera new_tracker update matching contains get_or_create should_fire mark_fired
    fire ℕ_discrete lookup insert str_dec pair_dec commit taken find_by process_frame frame_body
    process_tracks process_track cat_for_track matched_zone in_zone confidence_of alert_if alert_for
    ask_cooldown mark_cooldown fire_alert
program = tt

abbrev after : Pipeline scaled
after = process_frame scaled world in_order idle

alert_is_sent : after.alerts ≡ (11, record (pending_alert (10, 3) "default") { status = sent }) ∷ []
unfolding program
alert_is_sent = refl

-- An alert for the first frame, and none for the next at the same time.
alerts_once :
    (map {B = Pair × ℕ} (λ p. (p.pair, p.check)) (frame_posts scaled world in_order idle)
      ≡ ((10, 3), 100) ∷ [])
    × (frame_posts scaled world in_order after ≡ [])
unfolding program
alerts_once = (refl, refl)

-- In the next frame the cat is not seen: it is recorded all the same, and the cooldown holds.
unseen_is_recorded :
    let s = process_frame scaled (record world { detections = some [] }) in_order after in
    (s.alerts ≡ after.alerts) × (s.detections ≢ after.detections)
unfolding program
unseen_is_recorded = (refl, λ e. cc e)

frame_body_rows_example :
    AddsRows scaled world "default"
      (cat_seen ∷ [])
      (list_active_for_camera scaled "default" idle.zones)
      (update scaled in_order idle.tracker (observations scaled world (cat_seen ∷ []))).objects
      []
      after.detections
unfolding program
frame_body_rows_example = frame_body_rows scaled world in_order (cat_seen ∷ []) idle after refl

abbrev tracked : TrackedObject scaled
unfolding scaled
tracked = record { track_id = 1; centroid = (pos 5, pos 5); bbox = box; age_frames_unseen = 0 }

-- The database of an earlier run, in which the cat 4 had track 1.
unfoldable pub known : Pipeline scaled
unfolding idle
known = record idle { cats = (4, new_cat "default" 1) ∷ [] }

abbrev pub known_after : Pipeline scaled
known_after = (frame_body scaled world in_order (cat_seen ∷ []) known).1

pub known_frame : frame_body scaled world in_order (cat_seen ∷ []) known ≡ (ok tt, known_after)
unfolding program known
known_frame = refl
