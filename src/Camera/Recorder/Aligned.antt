-- ===== src/Camera/Recorder/Aligned.antt =====
-- The rows and the camera agree on which recording is in progress.
use cat_sentinel.Prelude.{
  ℕ, ◌-◌, ◌≡◌, ◌≢◌, refl, subst, String, Bool, true, false, Option, none, some, Outcome, ok, raise,
  arith, Bool-cases, inl, inr, ℕ_discrete, Distinct, insert-Distinct, lookup-insert_self, str_dec,
}
use cat_sentinel.Prelude.Tables.{
  find, put, taken, commit, find-put, Unique, put-Unique, find_by-find, taken_own,
}
use cat_sentinel.Camera.Errors.{CameraError, runtime_error}
use cat_sentinel.Camera.Recordings.{
  Recording, recording, completed, filename_of, get_by_filename, create,
}
use cat_sentinel.Camera.Recordings
use cat_sentinel.Camera.Recordings.Started
use cat_sentinel.Camera.Bridge.{
  Ends, Frame, Output, RtspCamera, new_camera, start, process_frame, connection_opened,
  connection_failed, connection_closed, size_or_default, flush_and_close, flush_output, after_flush,
  elapsed_or_zero,
}
use cat_sentinel.Camera.Bridge
use cat_sentinel.Camera.Bridge.Keeps
use cat_sentinel.Camera.Recorder.{
  Recorder, row_started, record_row, after_camera_start, start_recording,
}

-- A row of the recording that the camera is writing.
pub record Current (r : Recorder) : Type 0 where
  pub id : ℕ
  pub row : Recording
  pub stored : find id r.rows ≡ some row
  pub in_progress : row.status ≡ recording
  pub named : r.camera.record_filename ≡ some row.filename

pub record IsAligned (r : Recorder) : Type 0 where
  pub camera-IsValid : Keeps.IsValid r.camera
  pub rows-Distinct : Distinct ℕ_discrete r.rows
  pub rows-Unique : Unique filename_of str_dec r.rows
  -- A recording in progress has a row.
  pub current : r.camera.recording ≡ true → Current r
  -- A row that is said to be in progress is that of the recording in progress.
  pub only :
      (id : ℕ) (row : Recording)
      → find id r.rows ≡ some row
      → row.status ≡ recording
      → (r.camera.recording ≡ true) × (r.camera.record_filename ≡ some row.filename)

-- What the thread does to the camera leaves its recording alone.
pub with_camera-IsAligned :
    (r : Recorder) (c : RtspCamera)
    → Keeps.IsValid c
    → c.recording ≡ r.camera.recording
    → c.record_filename ≡ r.camera.record_filename
    → IsAligned r
    → IsAligned (record r { camera = c })
with_camera-IsAligned r c v same_flag same_name a = record {
  camera-IsValid = v;
  rows-Distinct = a.rows-Distinct;
  rows-Unique = a.rows-Unique;
  current = λ on.
      let k = a.current (ground (arith, on, same_flag)) in
      record {
        id = k.id;
        row = k.row;
        stored = k.stored;
        in_progress = k.in_progress;
        named = ground (arith, k.named, same_name);
      };
  only = λ id row e s. ground (arith, a.only id row e s, same_flag, same_name);
}

-- The camera began a recording under a free name, and its row was stored.
started-IsAligned :
    (r : Recorder) (c : RtspCamera) (id clock : ℕ) (filename : String)
    → IsAligned r
    → r.camera.recording ≡ false
    → Keeps.IsValid c
    → c.recording ≡ true
    → c.record_filename ≡ some filename
    → taken filename_of str_dec id filename r.rows ≡ false
    → IsAligned (record { camera = c; rows = put id (Started.started clock filename) r.rows })
started-IsAligned r c id clock filename a off v on name free =
    let row = Started.started clock filename in
    record {
      camera-IsValid = v;
      rows-Distinct = insert-Distinct ℕ_discrete id row r.rows a.rows-Distinct;
      rows-Unique = put-Unique filename_of str_dec id row r.rows a.rows-Unique free;
      current = λ on'. record {
        id = id;
        row = row;
        stored = lookup-insert_self ℕ_discrete id row r.rows;
        in_progress = refl;
        named = name;
      };
      only = λ j old e s. ground (arith, find-put j id row r.rows, a.only j old, on, name, off);
    }

pub start_recording-IsAligned :
    (opens : Bool) (now id clock : ℕ) (filename : String) (r : Recorder)
    → taken filename_of str_dec id filename r.rows ≡ false
    → IsAligned r
    → IsAligned (start_recording opens (ok tt) now id clock filename r).1
unfolding start_recording after_camera_start record_row row_started Recordings.create commit
    Bridge.start_recording
start_recording-IsAligned opens now id clock filename r free a =
    elim (Bool-cases r.camera.recording) [
      | inl on ↦ subst IsAligned {x = r} (ground (arith, on)) a
      | inr off ↦ elim (Bool-cases opens) [
        | inr refused ↦ subst IsAligned {x = r} (ground (arith, off, refused)) a
        | inl opening ↦
            let c = (Bridge.start_recording opens now filename r.camera).1 in
            subst IsAligned
              {x = record { camera = c; rows = put id (Started.started clock filename) r.rows }}
              (ground (arith, off, opening, free))
              (started-IsAligned r c id clock filename a off
                (Keeps.recording_started-IsValid opens now filename r.camera a.camera-IsValid)
                (ground (arith, off, opening)) (ground (arith, off, opening)) free)
      ]
    ]

-- The camera's part of a stop: the flush or the close raised and the recording stands, or it has ended.
pub data Ended (c : RtspCamera)
    (r : Outcome CameraError Bridge.RecordingStatusSnapshot × RtspCamera) : Type 0 where
  stands :
      (e : CameraError)
      → r.0 ≡ raise e
      → r.1.recording ≡ c.recording
      → r.1.record_filename ≡ c.record_filename
      → Ended c r
  ended :
      (snap : Bridge.RecordingStatusSnapshot)
      → r.0 ≡ ok snap
      → snap.filename ≡ c.record_filename
      → c.recording ≡ true
      → r.1.recording ≡ false
      → Ended c r

after_some-Ended :
    (flushes closes joins : Bool) (now : ℕ) (c : RtspCamera) (o : Output)
    → c.recording ≡ true
    → Ended c (
        after_flush now
          (flush_output (record { flushes = flushes; closes = closes; joins = joins }) c (some o)))
unfolding after_flush flush_output
after_some-Ended true true joins now c o on = ended _ refl refl on refl
after_some-Ended false true joins now c o on = stands _ refl refl refl
after_some-Ended flushes false joins now c o on = stands _ refl refl refl

after_flush-Ended :
    (ends : Ends) (now : ℕ) (c : RtspCamera) (o : Option Output)
    → c.recording ≡ true
    → Ended c (after_flush now (flush_output ends c o))
unfolding after_flush flush_output
after_flush-Ended ends now c none on = ended _ refl refl on refl
after_flush-Ended ends now c (some o) on =
    after_some-Ended ends.flushes ends.closes ends.joins now c o on

pub stop_recording-Ended :
    (ends : Ends) (now : ℕ) (c : RtspCamera) → Ended c (Bridge.stop_recording ends now c)
unfolding Bridge.stop_recording flush_and_close
stop_recording-Ended ends now c = elim (Bool-cases c.recording) [
  | inl on ↦
      subst (Ended c) {x = after_flush now (flush_output ends c c.output)} (ground (arith, on))
        (after_flush-Ended ends now c c.output on)
  | inr off ↦ stands runtime_error (ground (arith, off)) (ground (arith, off)) (ground (arith, off))
]

-- The row after `mark_completed`.
abbrev pub completed_row : (on_disk : String → Option ℕ) (clock : ℕ) → Recording → Recording
completed_row on_disk clock row = record row {
  ended_at = some clock;
  duration_seconds = some (clock - row.started_at);
  file_size_bytes = on_disk row.filename;
  status = completed;
}

-- The file of the current row is the one that `stop` completes.
pub stop-current :
    (on_disk : String → Option ℕ) (clock : ℕ) (r : Recorder) (k : Current r)
    → IsAligned r
    → Recordings.stop on_disk clock k.row.filename r.rows
      ≡ ok (put k.id (completed_row on_disk clock k.row) r.rows)
unfolding Recordings.stop get_by_filename
stop-current on_disk clock r k a =
    let found =
      find_by-find filename_of str_dec k.id k.row r.rows a.rows-Distinct a.rows-Unique k.stored in
    ground (arith, found)

-- Once the current row is completed and the camera is idle, nothing is in progress.
completed-only :
    (on_disk : String → Option ℕ) (clock : ℕ) (r : Recorder) (k : Current r)
    → IsAligned r
    → (j : ℕ) (row : Recording)
    → find j (put k.id (completed_row on_disk clock k.row) r.rows) ≡ some row
    → row.status ≢ recording
completed-only on_disk clock r k a j row e s =
    let row' = completed_row on_disk clock k.row in
    elim (ℕ_discrete j k.id) [
      | yes same ↦ ground (arith, find-put j k.id row' r.rows, same)
      | no other ↦
          let old : find j r.rows ≡ some row = ground (arith, find-put j k.id row' r.rows, other) in
          let (on, name) = a.only j row old s in
          other (a.rows-Unique j k.id row k.row old k.stored (ground (arith, name, k.named)))
    ]

pub completed-IsAligned :
    (on_disk : String → Option ℕ) (clock : ℕ) (r : Recorder) (k : Current r) (c : RtspCamera)
    → IsAligned r
    → Keeps.IsValid c
    → c.recording ≡ false
    → IsAligned (record { camera = c; rows = put k.id (completed_row on_disk clock k.row) r.rows })
completed-IsAligned on_disk clock r k c a v off =
    let row' = completed_row on_disk clock k.row in
    record {
      camera-IsValid = v;
      rows-Distinct = insert-Distinct ℕ_discrete k.id row' r.rows a.rows-Distinct;
      rows-Unique =
          put-Unique filename_of str_dec k.id row' r.rows a.rows-Unique (
            taken_own filename_of str_dec k.id k.row r.rows a.rows-Distinct a.rows-Unique k.stored);
      current = λ on. absurd (ground (arith, on, off));
      only = λ j row e s. absurd (completed-only on_disk clock r k a j row e s);
    }
