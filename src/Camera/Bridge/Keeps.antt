-- ===== src/Camera/Bridge/Keeps.antt =====
-- The recording flag, the file name and the open container agree, whatever is done and whatever fails.
use cat_sentinel.Prelude.{
  ℕ, ◌≡◌, ◌≢◌, refl, subst, String, Bool, true, false, List, [], ◌∷◌, Option, none, some, Outcome,
  ok, raise, arith, Bool-cases, ◌⊎◌, inl, inr,
}
use cat_sentinel.Camera.Errors.{CameraError}
use cat_sentinel.Camera.Bridge.{
  Ends, Frame, Output, RtspCamera, new_camera, start, start_recording, flush_output,
  flush_and_close, after_flush, stop_recording, after_close, close_recording, after_join, stop,
  after_stop, reset, process_frame, connection_opened, connection_failed, connection_closed,
  muxed_to, size_or_default,
}

-- What the handlers and the thread do to the camera, in any order, with the ends of the library's calls.
pub data Step : Type 0 where
  started : Step
  was_reset : (ends : Ends) → Step
  stopped : (ends : Ends) → Step
  recording_started : (opens : Bool) (now : ℕ) (filename : String) → Step
  recording_stopped : (ends : Ends) (now : ℕ) → Step
  decoded : (encodes : Bool) (now : ℕ) (frame : Frame) → Step
  opened closed : Step
  failed : String → Step

unfoldable pub step : Step → RtspCamera → RtspCamera
unfolding start stop reset start_recording stop_recording process_frame connection_opened
    connection_failed connection_closed
step started c = start c
step (stopped ends) c = (stop ends c).1
step (was_reset ends) c = (reset ends c).1
step (recording_started opens now filename) c = (start_recording opens now filename c).1
step (recording_stopped ends now) c = (stop_recording ends now c).1
step (decoded encodes now frame) c = process_frame encodes now frame c
step opened c = connection_opened c
step closed c = connection_closed c
step (failed message) c = connection_failed message c

unfoldable pub run : List Step → RtspCamera → RtspCamera
unfolding step
run [] c = c
run (s ∷ ss) c = run ss (step s c)

-- An open container belongs to a recording in progress, under its name; and a recording in progress
-- has a name and a start.
pub record IsValid (c : RtspCamera) : Type 0 where
  pub open_output :
      (o : Output) → c.output ≡ some o → (c.recording ≡ true) × (c.record_filename ≡ some o.path)
  pub named : c.recording ≡ true → (c.record_filename ≢ none) × (c.record_started_monotonic ≢ none)

-- A camera whose recording is as it was, and whose container is, or has been closed.
record IsTried (c c' : RtspCamera) : Type 0 where
  pub output : (c'.output ≡ none) ⊎ (c'.output ≡ c.output)
  pub recording : c'.recording ≡ c.recording
  pub record_filename : c'.record_filename ≡ c.record_filename
  pub started_at : c'.record_started_monotonic ≡ c.record_started_monotonic

-- A call that comes back leaves no container.
IsClosedIfOk : Outcome CameraError (Unit {0}) × RtspCamera → Type 0
IsClosedIfOk (ok u, c) = c.output ≡ none
IsClosedIfOk (raise e, c) = Unit {0}

tried :
    (flushes closes joins : Bool) (c : RtspCamera) (o : Output)
    → let ends : Ends = record { flushes = flushes; closes = closes; joins = joins } in
      IsTried c (flush_output ends c (some o)).1 × IsClosedIfOk (flush_output ends c (some o))
unfolding flush_output IsClosedIfOk
tried flushes false joins c o =
    (record { output = inr refl; recording = refl; record_filename = refl; started_at = refl }, tt)
tried true true joins c o = (
  record { output = inl refl; recording = refl; record_filename = refl; started_at = refl },
  refl,
)
tried false true joins c o =
    (record { output = inl refl; recording = refl; record_filename = refl; started_at = refl }, tt)

flush_output-IsTried :
    (ends : Ends) (c : RtspCamera) (o : Option Output)
    → c.output ≡ o
    → IsTried c (flush_output ends c o).1 × IsClosedIfOk (flush_output ends c o)
unfolding flush_output IsClosedIfOk
flush_output-IsTried ends c none e =
    (record { output = inr refl; recording = refl; record_filename = refl; started_at = refl }, e)
flush_output-IsTried ends c (some o) e = tried ends.flushes ends.closes ends.joins c o

tried-IsValid : (c c' : RtspCamera) → IsTried c c' → IsValid c → IsValid c'
tried-IsValid c c' k v = record {
  open_output = λ o e. elim k.output [
    | inl gone ↦ absurd (ground (arith, e, gone))
    | inr same ↦ ground (arith, e, same, v.open_output o, k.recording, k.record_filename)
  ];
  named = λ on. ground (arith, on, v.named, k.recording, k.record_filename, k.started_at);
}

after_close-IsValid :
    (r : Outcome CameraError (Unit {0}) × RtspCamera)
    → IsClosedIfOk r
    → IsValid r.1
    → IsValid (after_close r).1
unfolding after_close IsClosedIfOk
after_close-IsValid (ok u, c) e v = record {
  open_output = λ o h. absurd (ground (arith, e, h));
  named = λ on. absurd (ground (arith, on));
}
after_close-IsValid (raise x, c) e v = v

after_flush-IsValid :
    (now : ℕ) (r : Outcome CameraError (Unit {0}) × RtspCamera)
    → IsClosedIfOk r
    → IsValid r.1
    → IsValid (after_flush now r).1
unfolding after_flush IsClosedIfOk
after_flush-IsValid now (ok u, c) e v = record {
  open_output = λ o h. absurd (ground (arith, e, h));
  named = λ on. absurd (ground (arith, on));
}
after_flush-IsValid now (raise x, c) e v = v

muxed_to-path :
    (encodes : Bool) (f : Frame) (out : Option Output) (o : Output)
    → muxed_to encodes f out ≡ some o
    → (o' : Output) × (out ≡ some o') × (o'.path ≡ o.path)
muxed_to-path encodes f none o e = absurd (ground (arith, e))
muxed_to-path true f (some o') o e = (o', refl, ground (arith, e))
muxed_to-path false f (some o') o e = (o', refl, ground (arith, e))

stopped-IsValid : (ends : Ends) (c : RtspCamera) → IsValid c → IsValid (stop ends c).1
unfolding stop close_recording flush_and_close
stopped-IsValid ends c v =
    let c1 : RtspCamera = record c {
      stop_event = true;
      thread_alive = false;
      unjoined = after_join ends.joins c.thread_alive c.unjoined;
    } in
    let v1 : IsValid c1 = record { open_output = v.open_output; named = v.named } in
    let (k, done) = flush_output-IsTried ends c1 c1.output refl in
    elim (Bool-cases c.recording) [
      | inl on ↦
          subst IsValid {x = (after_close (flush_output ends c1 c1.output)).1} (ground (arith, on))
            (after_close-IsValid (flush_output ends c1 c1.output) done
              (tried-IsValid c1 (flush_output ends c1 c1.output).1 k v1))
      | inr off ↦ subst IsValid {x = c1} (ground (arith, off)) v1
    ]

pub recording_stopped-IsValid :
    (ends : Ends) (now : ℕ) (c : RtspCamera) → IsValid c → IsValid (stop_recording ends now c).1
unfolding stop_recording flush_and_close
recording_stopped-IsValid ends now c v =
    let (k, done) = flush_output-IsTried ends c c.output refl in
    elim (Bool-cases c.recording) [
      | inl on ↦
          subst IsValid {x = (after_flush now (flush_output ends c c.output)).1}
            (ground (arith, on))
            (after_flush-IsValid now (flush_output ends c c.output) done
              (tried-IsValid c (flush_output ends c c.output).1 k v))
      | inr off ↦ subst IsValid {x = c} (ground (arith, off)) v
    ]

pub recording_started-IsValid :
    (opens : Bool) (now : ℕ) (filename : String) (c : RtspCamera)
    → IsValid c
    → IsValid (start_recording opens now filename c).1
unfolding start_recording
recording_started-IsValid opens now filename c v = elim (Bool-cases c.recording) [
  | inl on ↦ subst IsValid {x = c} (ground (arith, on)) v
  | inr off ↦ elim (Bool-cases opens) [
    | inr refused ↦ subst IsValid {x = c} (ground (arith, off, refused)) v
    | inl opening ↦
        let c' : RtspCamera = record c {
          output = some (record {
            path = filename;
            stream_size = size_or_default c.last_frame_size;
            muxed = [];
          });
          record_filename = some filename;
          record_started_monotonic = some now;
          recording = true;
        } in
        subst IsValid {x = c'} (ground (arith, off, opening)) (record {
          open_output = λ o e. (refl, ground (arith, e));
          named = λ on. (λ e. ground (arith, e), λ e. ground (arith, e));
        })
  ]
]

decoded-IsValid :
    (encodes : Bool) (now : ℕ) (frame : Frame) (c : RtspCamera)
    → IsValid c
    → IsValid (process_frame encodes now frame c)
unfolding process_frame
decoded-IsValid encodes now frame c v = record {
  open_output = λ o e. elim (Bool-cases c.recording) [
    | inl on ↦
        let (o', e', p) = muxed_to-path encodes frame c.output o (ground (arith, e, on)) in
        ground (arith, v.open_output o' e', p)
    | inr off ↦ v.open_output o (ground (arith, e, off))
  ];
  named = v.named;
}

started-IsValid : (c : RtspCamera) → IsValid c → IsValid (start c)
unfolding start
started-IsValid c v = ground (arith, v.open_output, v.named)

after_stop-IsValid :
    (r : Outcome CameraError (Unit {0}) × RtspCamera) → IsValid r.1 → IsValid (after_stop r).1
unfolding after_stop
after_stop-IsValid (ok u, c) v = started-IsValid c v
after_stop-IsValid (raise e, c) v = v

pub step-IsValid : (s : Step) (c : RtspCamera) → IsValid c → IsValid (step s c)
unfolding step reset connection_opened connection_failed connection_closed
step-IsValid started c v = started-IsValid c v
step-IsValid (was_reset ends) c v = after_stop-IsValid (stop ends c) (stopped-IsValid ends c v)
step-IsValid (stopped ends) c v = stopped-IsValid ends c v
step-IsValid (recording_started opens now filename) c v =
    recording_started-IsValid opens now filename c v
step-IsValid (recording_stopped ends now) c v = recording_stopped-IsValid ends now c v
step-IsValid (decoded encodes now frame) c v = decoded-IsValid encodes now frame c v
step-IsValid opened c v = record { open_output = v.open_output; named = v.named }
step-IsValid closed c v = record { open_output = v.open_output; named = v.named }
step-IsValid (failed message) c v = record { open_output = v.open_output; named = v.named }

run_keeps : (ss : List Step) (c : RtspCamera) → IsValid c → IsValid (run ss c)
unfolding run
run_keeps [] c v = v
run_keeps (s ∷ ss) c v = run_keeps ss (step s c) (step-IsValid s c v)

-- Whatever the handlers and the thread do, in any order and with any failures of the library: an open
-- container belongs to the recording in progress and has its name, and a recording in progress has a
-- name and a start.
pub run_camera-IsValid : (ss : List Step) → IsValid (run ss new_camera)
unfolding new_camera
run_camera-IsValid ss = run_keeps ss new_camera (record {
  open_output = λ o e. absurd (ground (arith, e));
  named = λ on. absurd (ground (arith, on));
})
