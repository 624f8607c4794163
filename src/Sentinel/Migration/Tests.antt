-- ===== src/Sentinel/Migration/Tests.antt =====
-- A database that only remembers the names of what was created, the last one first.
use cat_sentinel.Prelude.{
  ◌≡◌, refl, String, true, List, [], ◌∷◌, Option, none, some, str_dec, ite, arith,
}
use cat_sentinel.Sentinel.Migration.{
  Operation, create_table, create_index, drop_index, drop_table, upgrade,
}
use cat_sentinel.Sentinel.Migration.Undone.{Database, is_create, undo, run}

dropped : String → List String → Option (List String)
dropped name [] = none
dropped name (x ∷ xs) = ite (str_dec name x) (some xs) none

pub effect : Operation → List String → Option (List String)
unfolding dropped
effect (create_table table columns unique foreign_keys) s = some (table ∷ s)
effect (create_index index table column) s = some (index ∷ s)
effect (drop_index index table) s = dropped index s
effect (drop_table table) s = dropped table s

pub effect-undo :
    (o : Operation) (s s' : List String)
    → is_create o ≡ true
    → effect o s ≡ some s'
    → effect (undo o) s' ≡ some s
unfolding dropped effect
effect-undo (create_table table columns unique foreign_keys) s s' c e = ground (arith, e)
effect-undo (create_index index table column) s s' c e = ground (arith, e)
effect-undo (drop_index index table) s s' c e = absurd (ground (arith, c))
effect-undo (drop_table table) s s' c e = absurd (ground (arith, c))

abbrev pub names : Database
names = record { State = List String; apply = effect; apply-undo = effect-undo }

abbrev created : List String
created =
    "ix_detections_timestamp" ∷ "ix_detections_in_danger_zone" ∷ "ix_detections_cat_id"
    ∷ "ix_detections_camera_id" ∷ "detections" ∷ "ix_alerts_zone_id" ∷ "ix_alerts_status"
    ∷ "ix_alerts_created_at" ∷ "ix_alerts_cat_id" ∷ "ix_alerts_camera_id" ∷ "alerts"
    ∷ "ix_zones_camera_id" ∷ "zones" ∷ "ix_cats_track_id" ∷ "ix_cats_camera_id" ∷ "cats"
    ∷ "ix_activities_kind" ∷ "ix_activities_created_at" ∷ "ix_activities_cat_id"
    ∷ "ix_activities_camera_id" ∷ "activities" ∷ []

upgraded : run names upgrade [] ≡ some created
unfolding run upgrade effect
upgraded = refl
