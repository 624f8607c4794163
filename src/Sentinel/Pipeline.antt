-- ===== src/Sentinel/Pipeline.antt =====
-- `DetectionPipeline` of cat-sentinel/app/detections/pipeline.py, with the rows that it writes
-- (detections and activities: their models, repositories and services).
-- Each repository call commits by itself, so what was written stays when a later step raises. The
-- surroundings of a frame are the record `World`: the detector's answer, the encoder, the clock, the
-- webhook, other sessions. New rows take their uuid from a counter.
pub mod Rows
pub mod Faults
pub mod Cadence
pub mod References
pub mod Tests
use cat_sentinel.Prelude.{
  ℕ, suc, ◌+◌, String, Bool, true, false, ◌&&◌, List, [], ◌∷◌, ◌++◌, Option, none, some, Outcome,
  ok, raise, if◌then◌else◌,
}
use cat_sentinel.Prelude.Tables.{Table, put}
use cat_sentinel.Prelude.Floats.{Floats}
use cat_sentinel.Sentinel.Errors.{AppError, type_error, value_error, zero_division}
use cat_sentinel.Sentinel.Geometry.{Point, point_in_polygon}
use cat_sentinel.Sentinel.Zones.{Zone, list_active_for_camera}
use cat_sentinel.Sentinel.Tracker.{
  SetOrder, BoundingBox, Observation, TrackedObject, CentroidTracker, update,
}
use cat_sentinel.Sentinel.Detector.{RawDetection, centroid_of}
use cat_sentinel.Sentinel.Cats.{Cat, Label, get_or_create}
use cat_sentinel.Sentinel.Alerts.{
  Pair, AlertCooldownTracker, should_fire, mark_fired, Alert, AlertStatus, Delivery, fire,
}

module _ (F : Floats) where
  pub record Detection : Type 0 where
    pub cat_id : ℕ
    pub camera_id : String
    pub zone_id : Option ℕ
    pub bbox : BoundingBox F
    pub centroid : Point F
    pub in_danger_zone : Bool
    pub confidence : F.Float

  -- The message of an activity, before it is formatted.
  pub data Message : Type 0 where
    detected : Label → (zone : Option ℕ) → Message
    alert_fired : Label → AlertStatus → Message

  -- `kind` is ALERT for `alert_fired` and DETECTION for `detected`.
  pub record Activity : Type 0 where
    pub camera_id : String
    pub cat_id : Option ℕ
    pub message : Message

  -- The state that outlives a frame: the pipeline's and the database's. The rows of a table that is
  -- only added to are a list, latest first.
  pub record Pipeline : Type 0 where
    pub camera_id : String
    pub tracker : CentroidTracker F
    pub cooldown : AlertCooldownTracker
    pub zones : Table (Zone F)
    pub cats : Table Cat
    pub detections : List Detection
    pub activities : List Activity
    pub alerts : Table Alert
    pub next_uuid : ℕ
    pub clock_calls : ℕ
    pub published : ℕ

  -- What a frame meets: `detected` is `none` if the model raises, `encodes` is false if the JPEG
  -- encoder fails, `clock n` is the time at the n-th call, `webhook id` what the call for the alert
  -- `id` comes to, and `others` what other sessions do to the table of cats.
  pub record World : Type 0 where
    pub detections : Option (List (RawDetection F))
    pub encodes : Bool
    pub clock : ℕ → ℕ
    pub webhook : ℕ → Delivery
    pub others : Table Cat → Table Cat

  abbrev pub Action : Type 0 → Type 0
  Action A = Pipeline → Outcome AppError A × Pipeline

  infixl 5 ◌>>=◌ ◌>>◌
  abbrev pub ◌>>=◌ : {A B : Type 0} → Action A → (A → Action B) → Action B
  ◌>>=◌ m f s = let (r, s') = m s in elim r [ ok a ↦ f a s' | raise e ↦ (raise e, s') ]

  abbrev pub ◌>>◌ : {A B : Type 0} → Action A → Action B → Action B
  m >> k = m >>= λ _. k

  abbrev pub pure : {A : Type 0} → A → Action A
  pure a s = (ok a, s)

  abbrev pub throw : {A : Type 0} → AppError → Action A
  throw e s = (raise e, s)

  -- `point_in_polygon(centroid, [(p["x"], p["y"]) for p in zone.points])`; a null `points` cannot be
  -- iterated.
  pub in_zone : Point F → Zone F → Outcome AppError Bool
  in_zone at z = elim z.points [
    | none ↦ raise type_error
    | some polygon ↦ elim (point_in_polygon F at polygon) [
      | none ↦ raise zero_division
      | some inside ↦ ok inside
    ]
  ]

  -- The loop over the zones with its `break`: the first zone that contains the point.
  pub matched_zone : Point F → List (ℕ × Zone F) → Outcome AppError (Option ℕ)
  unfolding in_zone
  matched_zone at [] = ok none
  matched_zone at ((id, z) ∷ zs) = elim (in_zone at z) [
    | raise e ↦ raise e
    | ok true ↦ ok (some id)
    | ok false ↦ matched_zone at zs
  ]

  abbrev pub same_box : BoundingBox F → BoundingBox F → Bool
  same_box a b =
      F.eq a.left b.left && F.eq a.top b.top && F.eq a.right b.right && F.eq a.bottom b.bottom

  -- `next((d.confidence for d in raw_detections if d.bbox == bbox), 0.0)`
  pub confidence_of : BoundingBox F → List (RawDetection F) → F.Float
  confidence_of box [] = F.zero_float
  confidence_of box (d ∷ ds) = if same_box d.bbox box then d.confidence else confidence_of box ds

  module _ (w : World) where
    -- `cat_service.get_or_create_for_track`
    pub cat_for_track : ℕ → Action (ℕ × Cat)
    cat_for_track track_id s =
        elim (get_or_create w.others s.camera_id track_id s.next_uuid s.cats) [
          | raise e ↦ (raise e, s)
          | ok (t, cat_id, cat) ↦
              (ok (cat_id, cat), record s { cats = t; next_uuid = suc s.next_uuid })
        ]

    -- `detection_service.create`
    abbrev pub create_detection : Detection → Action (Unit {0})
    create_detection d s = (ok tt, record s { detections = d ∷ s.detections })

    -- `activity_service.record`
    abbrev pub record_activity : Activity → Action (Unit {0})
    record_activity a s = (ok tt, record s { activities = a ∷ s.activities })

    -- `cooldown_tracker.should_fire`, which reads the clock only for a pair that has fired before; the
    -- count of calls is of no effect on a clock that does not run backwards.
    pub ask_cooldown : Pair → Action Bool
    ask_cooldown pair s = (
      ok (should_fire s.cooldown pair (w.clock s.clock_calls)),
      record s { clock_calls = suc s.clock_calls },
    )

    pub mark_cooldown : Pair → Action (Unit {0})
    mark_cooldown pair s = (
      ok tt,
      record s {
        cooldown = mark_fired s.cooldown pair (w.clock s.clock_calls);
        clock_calls = suc s.clock_calls;
      },
    )

    -- `alert_service.fire`
    pub fire_alert : Pair → Action Alert
    fire_alert pair s =
        let (r, t) = fire (w.webhook s.next_uuid) pair s.camera_id s.next_uuid s.alerts in
        (r, record s { alerts = t; next_uuid = suc s.next_uuid })

    -- The end of the loop body, for a cat in a zone.
    pub alert_for : String → ℕ → Cat → ℕ → Action (Unit {0})
    unfolding ask_cooldown mark_cooldown fire_alert
    alert_for camera_id cat_id cat zone_id = do
      due ← ask_cooldown (cat_id, zone_id)
      if due
          then (do
            alert ← fire_alert (cat_id, zone_id)
            mark_cooldown (cat_id, zone_id)
            record_activity (record {
              camera_id = camera_id;
              cat_id = some cat_id;
              message = alert_fired cat.label alert.status;
            }))
          else pure tt

    -- `in_danger_zone and matched_zone_id is not None`: the two are set together.
    abbrev pub is_some : {A : Type 0} → Option A → Bool
    is_some none = false
    is_some (some _) = true

    pub alert_if : String → ℕ → Cat → Option ℕ → Action (Unit {0})
    unfolding alert_for
    alert_if camera_id cat_id cat none = pure tt
    alert_if camera_id cat_id cat (some zone_id) = alert_for camera_id cat_id cat zone_id

    abbrev pub lift : {A : Type 0} → Outcome AppError A → Action A
    lift r s = (r, s)

    -- The body of the loop over `tracked.items()`.
    pub process_track :
        String → List (RawDetection F) → List (ℕ × Zone F) → ℕ × TrackedObject F → Action (Unit {0})
    process_track camera_id raws zones (track_id, o) = do
      (cat_id, cat) ← cat_for_track track_id
      zone ← lift (matched_zone o.centroid zones)
      create_detection (record {
        cat_id = cat_id;
        camera_id = camera_id;
        zone_id = zone;
        bbox = o.bbox;
        centroid = o.centroid;
        in_danger_zone = is_some zone;
        confidence = confidence_of o.bbox raws;
      })
      record_activity (record {
        camera_id = camera_id;
        cat_id = some cat_id;
        message = detected cat.label zone;
      })
      alert_if camera_id cat_id cat zone

    pub process_tracks :
        String
        → List (RawDetection F)
        → List (ℕ × Zone F)
        → List (ℕ × TrackedObject F)
        → Action (Unit {0})
    process_tracks camera_id raws zones [] = pure tt
    process_tracks camera_id raws zones (e ∷ es) = do
      process_track camera_id raws zones e
      process_tracks camera_id raws zones es

    -- `annotator.encode_jpeg` and `broadcaster.publish`
    abbrev pub publish_frame : Action (Unit {0})
    publish_frame s =
        if w.encodes
        then (ok tt, record s { published = suc s.published })
        else (raise value_error, s)

    abbrev pub observations : List (RawDetection F) → List (Observation F)
    observations [] = []
    observations (d ∷ ds) = (d.bbox, centroid_of F d) ∷ observations ds

    -- The tracker takes in the frame before anything can fail.
    abbrev pub track_frame : SetOrder → List (RawDetection F) → Pipeline → Pipeline
    track_frame S raws s = record s { tracker = update F S s.tracker (observations raws) }

    -- The `try` block of `_process_frame`, once the detector has answered.
    pub frame_body : SetOrder → List (RawDetection F) → Action (Unit {0})
    frame_body S raws s =
        let s1 = track_frame S raws s in
        (process_tracks s.camera_id raws (list_active_for_camera F s.camera_id s.zones)
              s1.tracker.objects
            >> publish_frame)
          s1

    -- `_process_frame`: whatever was raised is logged, and the loop goes on with the state as it is.
    pub process_frame : SetOrder → Pipeline → Pipeline
    process_frame S s = elim w.detections [ none ↦ s | some raws ↦ (frame_body S raws s).1 ]
