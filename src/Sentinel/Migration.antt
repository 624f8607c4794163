-- ===== src/Sentinel/Migration.antt =====
-- The migration of cat-sentinel's database:
-- cat-sentinel/alembic/versions/20260809_1418_48ae57c8e123_initial_schema.py. The primary key is `id` in
-- each table. What a database does with an operation is an argument.
pub mod Undone
pub mod Environment
pub mod Tests
use cat_sentinel.Prelude.{String, Bool, true, false, List, [], ◌∷◌}

pub data ColumnType : Type 0 where
  uuid text integer boolean float json timestamp : ColumnType
  enum : (values : List String) → ColumnType

-- `sa.Column`; `defaults_to_now` is the server's default CURRENT_TIMESTAMP.
pub data Column : Type 0 where
  column : (name : String) (of : ColumnType) (defaults_to_now nullable : Bool) → Column

-- `op`: a unique constraint has a name and columns, a foreign key a column and the table whose id it is.
pub data Operation : Type 0 where
  create_table :
      (table : String) (columns : List Column) (unique : List (String × List String))
      (foreign_keys : List (String × String))
      → Operation
  create_index : (index table column : String) → Operation
  drop_index : (index table : String) → Operation
  drop_table : (table : String) → Operation

abbrev activities_columns : List Column
activities_columns =
    column "id" uuid false false
    ∷ column "camera_id" text false false
    ∷ column "cat_id" uuid false true
    ∷ column "kind" (enum ("DETECTION" ∷ "ALERT" ∷ [])) false false
    ∷ column "message" text false false
    ∷ column "created_at" timestamp true false
    ∷ []

abbrev cats_columns : List Column
cats_columns =
    column "id" uuid false false
    ∷ column "camera_id" text false false
    ∷ column "track_id" integer false false
    ∷ column "label" text false false
    ∷ column "is_active" boolean false false
    ∷ column "created_at" timestamp true false
    ∷ column "updated_at" timestamp true false
    ∷ []

abbrev zones_columns : List Column
zones_columns =
    column "id" uuid false false
    ∷ column "camera_id" text false false
    ∷ column "name" text false false
    ∷ column "points" json false false
    ∷ column "is_active" boolean false false
    ∷ column "created_at" timestamp true false
    ∷ column "updated_at" timestamp true false
    ∷ []

abbrev alerts_columns : List Column
alerts_columns =
    column "id" uuid false false
    ∷ column "cat_id" uuid false false
    ∷ column "zone_id" uuid false false
    ∷ column "camera_id" text false false
    ∷ column "status" (enum ("PENDING" ∷ "SENT" ∷ "FAILED" ∷ [])) false false
    ∷ column "error_message" text false true
    ∷ column "created_at" timestamp true false
    ∷ []

abbrev detections_columns : List Column
detections_columns =
    column "id" uuid false false
    ∷ column "cat_id" uuid false false
    ∷ column "camera_id" text false false
    ∷ column "zone_id" uuid false true
    ∷ column "bbox" json false false
    ∷ column "centroid" json false false
    ∷ column "in_danger_zone" boolean false false
    ∷ column "confidence" float false false
    ∷ column "timestamp" timestamp true false
    ∷ []

unfoldable pub upgrade : List Operation
upgrade =
    create_table "activities" activities_columns [] []
    ∷ create_index "ix_activities_camera_id" "activities" "camera_id"
    ∷ create_index "ix_activities_cat_id" "activities" "cat_id"
    ∷ create_index "ix_activities_created_at" "activities" "created_at"
    ∷ create_index "ix_activities_kind" "activities" "kind"
    ∷ create_table "cats" cats_columns
        (("uq_cats_camera_id_track_id", "camera_id" ∷ "track_id" ∷ []) ∷ []) []
    ∷ create_index "ix_cats_camera_id" "cats" "camera_id"
    ∷ create_index "ix_cats_track_id" "cats" "track_id"
    ∷ create_table "zones" zones_columns
        (("uq_zones_camera_id_name", "camera_id" ∷ "name" ∷ []) ∷ []) []
    ∷ create_index "ix_zones_camera_id" "zones" "camera_id"
    ∷ create_table "alerts" alerts_columns [] (("cat_id", "cats") ∷ ("zone_id", "zones") ∷ [])
    ∷ create_index "ix_alerts_camera_id" "alerts" "camera_id"
    ∷ create_index "ix_alerts_cat_id" "alerts" "cat_id"
    ∷ create_index "ix_alerts_created_at" "alerts" "created_at"
    ∷ create_index "ix_alerts_status" "alerts" "status"
    ∷ create_index "ix_alerts_zone_id" "alerts" "zone_id"
    ∷ create_table "detections" detections_columns []
        (("cat_id", "cats") ∷ ("zone_id", "zones") ∷ [])
    ∷ create_index "ix_detections_camera_id" "detections" "camera_id"
    ∷ create_index "ix_detections_cat_id" "detections" "cat_id"
    ∷ create_index "ix_detections_in_danger_zone" "detections" "in_danger_zone"
    ∷ create_index "ix_detections_timestamp" "detections" "timestamp"
    ∷ []

unfoldable pub downgrade : List Operation
downgrade =
    drop_index "ix_detections_timestamp" "detections"
    ∷ drop_index "ix_detections_in_danger_zone" "detections"
    ∷ drop_index "ix_detections_cat_id" "detections"
    ∷ drop_index "ix_detections_camera_id" "detections"
    ∷ drop_table "detections"
    ∷ drop_index "ix_alerts_zone_id" "alerts"
    ∷ drop_index "ix_alerts_status" "alerts"
    ∷ drop_index "ix_alerts_created_at" "alerts"
    ∷ drop_index "ix_alerts_cat_id" "alerts"
    ∷ drop_index "ix_alerts_camera_id" "alerts"
    ∷ drop_table "alerts"
    ∷ drop_index "ix_zones_camera_id" "zones"
    ∷ drop_table "zones"
    ∷ drop_index "ix_cats_track_id" "cats"
    ∷ drop_index "ix_cats_camera_id" "cats"
    ∷ drop_table "cats"
    ∷ drop_index "ix_activities_kind" "activities"
    ∷ drop_index "ix_activities_created_at" "activities"
    ∷ drop_index "ix_activities_cat_id" "activities"
    ∷ drop_index "ix_activities_camera_id" "activities"
    ∷ drop_table "activities"
    ∷ []
