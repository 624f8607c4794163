-- ===== src/Camera/Lifespan/Shutdown.antt =====
-- What the application leaves behind.
use cat_sentinel.Prelude.{
  ◌≡◌, ◌∙◌, refl, true, false, List, [], ◌∷◌, Outcome, ok, raise, arith, Bool-cases, Option-cases,
  inl, inr, none,
}
use cat_sentinel.Camera.Errors.{CameraError}
use cat_sentinel.Camera.Bridge.{
  Ends, RtspCamera, new_camera, start, after_join, stop, after_stop, reset, start_recording,
  stop_recording, after_flush, process_frame, connection_opened, connection_failed,
  connection_closed, close_recording, after_close, flush_and_close, flush_output,
}
use cat_sentinel.Camera.Bridge.Keeps.{
  Step, started, was_reset, stopped, recording_started, recording_stopped, decoded, opened, closed,
  failed, step, run, IsValid, run_camera-IsValid,
}
use cat_sentinel.Camera.Lifespan.{new_app, startup, shutdown, serving, lifespan}

-- The teardowns of the step wait for the thread's end.
abbrev pub JoinsAll : List Step → Type 0
JoinsAll [] = Unit
JoinsAll (was_reset ends ∷ ss) = (ends.joins ≡ true) × JoinsAll ss
JoinsAll (stopped ends ∷ ss) = (ends.joins ≡ true) × JoinsAll ss
JoinsAll (s ∷ ss) = JoinsAll ss

close_recording-unjoined :
    (ends : Ends) (c : RtspCamera) → (close_recording ends c).1.unjoined ≡ c.unjoined
unfolding close_recording after_close flush_and_close flush_output
close_recording-unjoined ends c = ground arith

stop-unjoined :
    (ends : Ends) (c : RtspCamera) → ends.joins ≡ true → (stop ends c).1.unjoined ≡ c.unjoined
unfolding stop
stop-unjoined ends c h =
    close_recording-unjoined ends (record c {
      stop_event = true;
      thread_alive = false;
      unjoined = after_join ends.joins c.thread_alive c.unjoined;
    })
    ∙ ground (arith, h)

after_stop-unjoined :
    (r : Outcome CameraError (Unit {0}) × RtspCamera) → (after_stop r).1.unjoined ≡ r.1.unjoined
unfolding after_stop start
after_stop-unjoined (ok u, c) = ground arith
after_stop-unjoined (raise e, c) = refl

step-unjoined :
    (s : Step) (ss : List Step) (c : RtspCamera)
    → JoinsAll (s ∷ ss)
    → ((step s c).unjoined ≡ c.unjoined) × JoinsAll ss
unfolding step start reset start_recording stop_recording process_frame connection_opened
    connection_failed connection_closed flush_and_close flush_output after_flush
step-unjoined started ss c h = (ground arith, h)
step-unjoined (was_reset ends) ss c (j, h) =
    (after_stop-unjoined (stop ends c) ∙ stop-unjoined ends c j, h)
step-unjoined (stopped ends) ss c (j, h) = (stop-unjoined ends c j, h)
step-unjoined (recording_started opens now filename) ss c h = (ground arith, h)
step-unjoined (recording_stopped ends now) ss c h = (ground arith, h)
step-unjoined (decoded encodes now frame) ss c h = (refl, h)
step-unjoined opened ss c h = (refl, h)
step-unjoined closed ss c h = (refl, h)
step-unjoined (failed message) ss c h = (refl, h)

run-unjoined : (ss : List Step) (c : RtspCamera) → JoinsAll ss → (run ss c).unjoined ≡ c.unjoined
unfolding run
run-unjoined [] c h = refl
run-unjoined (s ∷ ss) c h =
    let (same, later) = step-unjoined s ss c h in run-unjoined ss (step s c) later ∙ same

-- A stop whose close comes back leaves no container open.
stop-closed :
    (ends : Ends) (c : RtspCamera)
    → ends.closes ≡ true
    → IsValid c
    → ((stop ends c).1.thread_alive ≡ false) × ((stop ends c).1.output ≡ none)
unfolding stop close_recording after_close flush_and_close flush_output
stop-closed ends c closes v = elim (Option-cases c.output) [
  | inl e ↦ elim (Bool-cases c.recording) [
    | inr off ↦ (ground (arith, off), ground (arith, off, e))
    | inl on ↦ (ground (arith, on, e), ground (arith, on, e))
  ]
  | inr (o, e) ↦
      let (on, _) = v.open_output o e in
      elim (Bool-cases ends.flushes) [
        | inl f ↦ (ground (arith, closes, on, e, f), ground (arith, closes, on, e, f))
        | inr f ↦ (ground (arith, closes, on, e, f), ground (arith, closes, on, e, f))
      ]
]

-- The application that has started leaves no thread, no open container and no reconciliation task,
-- whatever was done while it served and whether or not the last flush raises, if each teardown has waited
-- for the thread's end within its timeout, and the last close does not raise. One whose motor does not
-- answer at the start ends with that exception, and its camera thread runs on.
pub lifespan_lem :
    (ends : Ends) (steps : List Step) (e : CameraError)
    → ends.closes ≡ true
    → ends.joins ≡ true
    → JoinsAll steps
    → ((lifespan (ok tt) ends steps).1.camera.thread_alive ≡ false)
      × ((lifespan (ok tt) ends steps).1.camera.unjoined ≡ 0)
      × ((lifespan (ok tt) ends steps).1.camera.output ≡ none)
      × ((lifespan (ok tt) ends steps).1.reconciling ≡ false)
      × ((lifespan (raise e) ends steps).0 ≡ raise e)
      × ((lifespan (raise e) ends steps).1.camera.thread_alive ≡ true)
unfolding lifespan startup shutdown serving new_app start new_camera run step
lifespan_lem ends steps e closes joins all =
    let c = run steps (start new_camera) in
    let (dead, gone) = stop-closed ends c closes (run_camera-IsValid (started ∷ steps)) in
    (
      dead,
      stop-unjoined ends c joins ∙ run-unjoined steps (start new_camera) all,
      gone,
      refl,
      refl,
      refl,
    )
