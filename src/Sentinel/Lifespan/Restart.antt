-- ===== src/Sentinel/Lifespan/Restart.antt =====
-- The tracks of a pipeline start again at 1, and the cats of the database do not.
use cat_sentinel.Prelude.{ℕ, ◌≡◌, ◌∙◌, ap, [], ◌∷◌, none, some, ok}
use cat_sentinel.Prelude.Tables.{find}
use cat_sentinel.Prelude.Floats.{Floats}
use cat_sentinel.Sentinel.Zones.{list_active_for_camera}
use cat_sentinel.Sentinel.Tracker.{SetOrder, fresh_object}
use cat_sentinel.Sentinel.Tracker.First.{first_track}
use cat_sentinel.Sentinel.Cats.{Cat, key, get_or_create}
use cat_sentinel.Sentinel.Cats.Race
use cat_sentinel.Sentinel.Cats.Race.{get_or_create_hit, get_by_track_id_found}
use cat_sentinel.Sentinel.Detector.{RawDetection, centroid_of}
use cat_sentinel.Sentinel.Pipeline.{
  Detection, Pipeline, World, process_track, track_frame, frame_body,
}
use cat_sentinel.Sentinel.Pipeline.Rows.{process_track_row, one_track}
use cat_sentinel.Sentinel.Lifespan.{Settings, new_pipeline}

module _ (F : Floats) (S : SetOrder) (w : World F) where
  -- The first cat that is seen behind a restart is recorded under the cat that had track 1 in an earlier
  -- run, if there was one on this camera: the frame, if it goes through, adds one detection, and with
  -- the id of that old row.
  pub frame_body-new_pipeline :
      (settings : Settings F) (database s' : Pipeline F) (raw : RawDetection F) (j : ℕ) (c : Cat)
      → Race.IsValid database.cats
      → find j database.cats ≡ some c
      → key c ≡ (settings.camera_id, 1)
      → frame_body F w S (raw ∷ []) (new_pipeline F settings none database) ≡ (ok tt, s')
      → (d : Detection F) × (s'.detections ≡ d ∷ database.detections) × (d.cat_id ≡ j)
  unfolding new_pipeline
  frame_body-new_pipeline settings database s' raw j c v stored is_first h =
      let s = new_pipeline F settings none database in
      let o = fresh_object F 1 (raw.bbox, centroid_of F raw) in
      let s1 = track_frame F w S (raw ∷ []) s in
      let zones = list_active_for_camera F s.camera_id s.zones in
      let only =
        first_track F S settings.centroid_max_distance settings.centroid_max_age_frames
          (raw.bbox, centroid_of F raw) in
      let (went, same) = one_track F w S (raw ∷ []) s s' 1 o only h in
      let r = process_track F w s.camera_id (raw ∷ []) zones (1, o) s1 in
      let e : r ≡ (ok tt, r.1) = ap (λ x. (x, r.1)) went in
      let (d, _, added, ((t, i, found_cat), got, is_i)) =
        process_track_row F w s.camera_id (raw ∷ []) zones 1 o s1 r.1 e in
      let hit : get_or_create w.others settings.camera_id 1 database.next_uuid database.cats
          ≡ ok (database.cats, j, c) =
        get_or_create_hit w.others settings.camera_id 1 database.next_uuid j c database.cats
          (get_by_track_id_found settings.camera_id 1 j c database.cats v stored is_first) in
      (d, same ∙ added, cc (hit, got, is_i))
