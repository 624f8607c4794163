-- ===== src/Camera/Recordings.antt =====
-- Recording metadata and its reconciliation with the disk: camera/app/recordings (models, repository,
-- service). `on_disk` gives the size of each file that the recordings directory has. Times are ticks.
pub mod Reconciled
pub mod Passes
pub mod Started
mod Tests
use cat_sentinel.Prelude.{
  ℕ, ◌-◌, String, Bool, true, false, not, ◌&&◌, ◌||◌, List, [], ◌∷◌, Option, none, some, Outcome,
  ok, raise, ◌>>=◌, str_dec, ℕ_discrete, Dict, if◌then◌else◌, ite, ◌==◌,
}
use cat_sentinel.Prelude.Tables.{Table, find, put, commit, find_by}
use cat_sentinel.Camera.Errors.{CameraError, not_found, conflict}

pub data RecordingStatus : Type 0 where
  recording completed failed missing : RecordingStatus

pub record Recording : Type 0 where
  pub filename : String
  pub started_at : ℕ
  pub ended_at : Option ℕ
  pub duration_seconds : Option ℕ
  pub file_size_bytes : Option ℕ
  pub status : RecordingStatus

abbrev pub filename_of : Recording → String
filename_of r = r.filename

-- The repository's `create`, with the defaults of the model; `now` is the database's clock.
unfoldable pub create :
    (id : ℕ) (now : ℕ) → String → Table Recording → Outcome CameraError (Table Recording)
create id now filename t =
    elim (commit filename_of str_dec id
      (record {
        filename = filename;
        started_at = now;
        ended_at = none;
        duration_seconds = none;
        file_size_bytes = none;
        status = recording;
      })
      t) [ none ↦ raise conflict | some t' ↦ ok t' ]

-- `get_by_filename`, as a 404 when there is none.
unfoldable pub get_by_filename : String → Table Recording → Outcome CameraError (ℕ × Recording)
get_by_filename filename t = elim (find_by filename_of str_dec filename t) [
  | none ↦ raise not_found
  | some row ↦ ok row
]

-- `RecordingService.stop` and `mark_completed`
unfoldable pub stop :
    (on_disk : String → Option ℕ) (now : ℕ)
    → String
    → Table Recording
    → Outcome CameraError (Table Recording)
unfolding get_by_filename
stop on_disk now filename t = do
  (id, r) ← get_by_filename filename t
  ok (
      put id
        (record r {
          ended_at = some now;
          duration_seconds = some (now - r.started_at);
          file_size_bytes = on_disk filename;
          status = completed;
        })
        t)

-- `get_file_path`: the name of a file that is there.
unfoldable pub get_file_path :
    (on_disk : String → Option ℕ) → String → Table Recording → Outcome CameraError String
unfolding get_by_filename
get_file_path on_disk filename t = do
  row ← get_by_filename filename t
  elim (on_disk filename) [ none ↦ raise not_found | some size ↦ ok filename ]

abbrev pub is_missing : RecordingStatus → Bool
is_missing missing = true
is_missing _ = false

-- `status in (COMPLETED, MISSING)`
abbrev pub is_settled : RecordingStatus → Bool
is_settled completed = true
is_settled missing = true
is_settled _ = false

abbrev pub same_size : Option ℕ → ℕ → Bool
same_size none n = false
same_size (some m) n = m == n

-- The body of the loop of `reconcile`, for a row and what the disk has of its file: `none` is no commit.
unfoldable pub fix_up : Option ℕ → Recording → Option Recording
fix_up none r = if is_missing r.status then none else some (record r { status = missing })
fix_up (some actual_size) r =
    if not (same_size r.file_size_bytes actual_size) && is_settled r.status
    then some (record r { file_size_bytes = some actual_size })
    else none

abbrev pub put_if : ℕ → Option Recording → Table Recording → Table Recording
put_if id none t = t
put_if id (some r) t = put id r t

-- `for recording in recordings`, over the rows that `list_all` gave.
unfoldable pub reconcile_rows :
    (on_disk : String → Option ℕ) → List (ℕ × Recording) → Table Recording → Table Recording
unfolding fix_up
reconcile_rows on_disk [] t = t
reconcile_rows on_disk ((id, r) ∷ rows) t =
    reconcile_rows on_disk rows (put_if id (fix_up (on_disk r.filename) r) t)

-- `RecordingService.reconcile`. The order of the rows does not matter to it (each is committed by
-- itself), so they come in the table's order, and not by `started_at`.
unfoldable pub reconcile : (on_disk : String → Option ℕ) → Table Recording → Table Recording
unfolding reconcile_rows
reconcile on_disk t = reconcile_rows on_disk t t
