-- ===== src/Camera/Migration.antt =====
-- The migration of the camera's database:
-- camera/app/alembic/versions/20260809_1711_a1b2c3d4e5f6_create_recordings_table.py, and the names
-- of the members of RecordingStatus in camera/app/recordings/models.py, which is what SQLAlchemy's
-- `Enum` stores; and camera/app/alembic/env.py.
pub mod Labels
mod Tests
use cat_sentinel.Prelude.{Outcome, String, Bool, true, false, List, [], ◌∷◌}
use cat_sentinel.Sentinel.Migration.{Column, column, uuid, text, integer, float, timestamp, enum}
use cat_sentinel.Sentinel.Migration.Environment.{Held}
use cat_sentinel.Sentinel.Migration.Environment
use cat_sentinel.Camera.Recordings.{RecordingStatus, recording, completed, failed, missing}

-- `checkfirst` leaves a type that is there, or one that is not, as it is.
pub data Operation : Type 0 where
  create_enum : (name : String) (labels : List String) (checkfirst : Bool) → Operation
  drop_enum : (name : String) (checkfirst : Bool) → Operation
  create_table : (table : String) (columns : List Column) → Operation
  create_index : (index table column : String) (unique : Bool) → Operation
  drop_index : (index table : String) → Operation
  drop_table : (table : String) → Operation

-- The labels of `recording_status`
abbrev pub recording_status : List String
recording_status = "recording" ∷ "completed" ∷ "failed" ∷ "missing" ∷ []

abbrev recordings_columns : List Column
recordings_columns =
    column "id" uuid false false
    ∷ column "filename" text false false
    ∷ column "started_at" timestamp true false
    ∷ column "ended_at" timestamp false true
    ∷ column "duration_seconds" float false true
    ∷ column "file_size_bytes" integer false true
    ∷ column "status" (enum recording_status) false false
    ∷ []

unfoldable pub upgrade : List Operation
upgrade =
    create_enum "recording_status" recording_status true
    ∷ create_table "recordings" recordings_columns
    ∷ create_index "ix_recordings_filename" "recordings" "filename" true
    ∷ []

unfoldable pub downgrade : List Operation
downgrade =
    drop_index "ix_recordings_filename" "recordings"
    ∷ drop_table "recordings"
    ∷ drop_enum "recording_status" true
    ∷ []

-- The name of a member, and its value.
unfoldable pub name_of : RecordingStatus → String
name_of recording = "RECORDING"
name_of completed = "COMPLETED"
name_of failed = "FAILED"
name_of missing = "MISSING"

unfoldable pub value_of : RecordingStatus → String
value_of recording = "recording"
value_of completed = "completed"
value_of failed = "failed"
value_of missing = "missing"

-- camera/app/alembic/env.py, which is that of cat-sentinel.
module _ {Err Schema : Type 0} (transactional_ddl : Bool)
    (migrate : Schema → Outcome Err (Unit {0}) × Schema) where
  abbrev pub do_run_migrations : Schema → Outcome Err (Unit {0}) × Schema
  do_run_migrations = Environment.do_run_migrations transactional_ddl migrate

  abbrev pub run_migrations_online :
      (connects : Outcome Err (Unit {0})) → Schema → Outcome Err (Unit {0}) × Held Schema
  run_migrations_online = Environment.run_migrations_online transactional_ddl migrate
