-- ===== src/Camera/Bridge/Thread/Lasting.antt =====
-- A recording outlasts the connections of the thread.
use mathlib.Core.List.{append_assoc, append-nil}
use cat_sentinel.Prelude.{
  ℕ, zero, suc, ◌≡◌, refl, sym, ap, ◌∙◌, String, Bool, false, List, [], ◌∷◌, ◌++◌, Option, none,
  some, arith, inl, inr, Bool-cases, Option-cases, subst,
}
use cat_sentinel.Camera.Bridge.{
  Frame, Output, RtspCamera, process_frame, connection_opened, connection_failed, connection_closed,
}
use cat_sentinel.Camera.Bridge.Keeps
use cat_sentinel.Camera.Bridge.Thread.{
  Decoded, Connection, refused, connected, Loop, over_frames, after_try, attempt, wait, run_thread,
}

-- What the thread has left of the camera: it is valid, a recording is under its name, and the file that
-- it writes has more frames at most, behind those that it had.
pub record Lasts (c c' : RtspCamera) : Type 0 where
  pub valid : Keeps.IsValid c → Keeps.IsValid c'
  pub same_flag : c'.recording ≡ c.recording
  pub same_name : c'.record_filename ≡ c.record_filename
  pub same_files : c'.files ≡ c.files
  pub grows :
      (o : Output)
      → c.output ≡ some o
      → (more : List ℕ) × (c'.output ≡ some (record o { muxed = o.muxed ++ more }))

-- A step that leaves the recording alone.
aside-Lasts :
    (c c' : RtspCamera)
    → (Keeps.IsValid c → Keeps.IsValid c')
    → c'.recording ≡ c.recording
    → c'.record_filename ≡ c.record_filename
    → c'.files ≡ c.files
    → c'.output ≡ c.output
    → Lasts c c'
aside-Lasts c c' v flag name files out = record {
  valid = v;
  same_flag = flag;
  same_name = name;
  same_files = files;
  grows = λ o e. ([], ground (arith, e, out, append-nil o.muxed));
}

Lasts-refl : (c : RtspCamera) → Lasts c c
Lasts-refl c = aside-Lasts c c (λ v. v) refl refl refl refl

Lasts-trans : (c c' c'' : RtspCamera) → Lasts c c' → Lasts c' c'' → Lasts c c''
Lasts-trans c c' c'' a b = record {
  valid = λ v. b.valid (a.valid v);
  same_flag = b.same_flag ∙ a.same_flag;
  same_name = b.same_name ∙ a.same_name;
  same_files = b.same_files ∙ a.same_files;
  grows = λ o e.
      let (more, e') = a.grows o e in
      let (more', e'') = b.grows (record o { muxed = o.muxed ++ more }) e' in
      (more ++ more', ground (arith, e'', append_assoc o.muxed more more'));
}

process_frame-Lasts :
    (encodes : Bool) (now : ℕ) (f : Frame) (c : RtspCamera)
    → Lasts c (process_frame encodes now f c)
unfolding process_frame Keeps.step
process_frame-Lasts encodes now f c = record {
  valid = Keeps.step-IsValid (Keeps.decoded encodes now f) c;
  same_flag = refl;
  same_name = refl;
  same_files = refl;
  grows = λ o e. elim (Bool-cases c.recording) [
    | inr off ↦ ([], ground (arith, e, off, append-nil o.muxed))
    | inl on ↦ elim (Bool-cases encodes) [
      | inl through ↦ (f.jpeg ∷ [], ground (arith, e, on, through))
      | inr failing ↦ ([], ground (arith, e, on, failing, append-nil o.muxed))
    ]
  ];
}

connection_opened-Lasts : (c : RtspCamera) → Lasts c (connection_opened c)
unfolding connection_opened Keeps.step
connection_opened-Lasts c =
    aside-Lasts c (connection_opened c) (Keeps.step-IsValid Keeps.opened c) refl refl refl refl

connection_closed-Lasts : (c : RtspCamera) → Lasts c (connection_closed c)
unfolding connection_closed Keeps.step
connection_closed-Lasts c =
    aside-Lasts c (connection_closed c) (Keeps.step-IsValid Keeps.closed c) refl refl refl refl

connection_failed-Lasts :
    (message : String) (c : RtspCamera) → Lasts c (connection_failed message c)
unfolding connection_failed Keeps.step
connection_failed-Lasts message c =
    aside-Lasts c (connection_failed message c) (Keeps.step-IsValid (Keeps.failed message) c) refl
      refl refl refl

over_frames-Lasts :
    (k : ℕ) (ds : List Decoded) (breaks : Option String) (l : Loop)
    → l.checks ≡ k
    → Lasts l.camera (over_frames ds breaks l).1.camera
unfolding over_frames
over_frames-Lasts k [] breaks l e = Lasts-refl l.camera
over_frames-Lasts zero (d ∷ ds) breaks l e =
    subst (λ (r : Option String × Loop). Lasts l.camera r.1.camera) {x = (none, l)}
      {y = over_frames (d ∷ ds) breaks l} (ground (arith, e)) (Lasts-refl l.camera)
over_frames-Lasts (suc k) (d ∷ ds) breaks l e = elim (Option-cases d.raises) [
  | inr (message, raised) ↦
      subst (λ (r : Option String × Loop). Lasts l.camera r.1.camera)
        {x = (some message, record l { checks = k })} {y = over_frames (d ∷ ds) breaks l}
        (ground (arith, e, raised)) (Lasts-refl l.camera)
  | inl converts ↦
      let c = process_frame d.encodes d.now d.frame l.camera in
      let l' : Loop = record l { checks = k; camera = c } in
      subst (λ (r : Option String × Loop). Lasts l.camera r.1.camera) {x = over_frames ds breaks l'}
        {y = over_frames (d ∷ ds) breaks l} (ground (arith, e, converts))
        (Lasts-trans l.camera c (over_frames ds breaks l').1.camera
          (process_frame-Lasts d.encodes d.now d.frame l.camera)
          (over_frames-Lasts k ds breaks l' refl))
]

after_try-Lasts : (r : Option String × Loop) → Lasts r.1.camera (after_try r).camera
unfolding after_try
after_try-Lasts (none, l) = connection_closed-Lasts l.camera
after_try-Lasts (some message, l) =
    Lasts-trans l.camera (connection_failed message l.camera)
      (connection_closed (connection_failed message l.camera))
      (connection_failed-Lasts message l.camera)
      (connection_closed-Lasts (connection_failed message l.camera))

attempt-Lasts : (c : Connection) (l : Loop) → Lasts l.camera (attempt c l).camera
unfolding attempt
attempt-Lasts (refused message) l = after_try-Lasts (some message, l)
attempt-Lasts (connected ds breaks) l =
    let opened : Loop = record l { camera = connection_opened l.camera } in
    let r = over_frames ds breaks opened in
    Lasts-trans l.camera r.1.camera (after_try r).camera
      (Lasts-trans l.camera opened.camera r.1.camera (connection_opened-Lasts l.camera)
        (over_frames-Lasts l.checks ds breaks opened refl))
      (after_try-Lasts r)

wait-camera : (l : Loop) → (wait l).camera ≡ l.camera
unfolding wait
wait-camera l = ground arith

-- Whatever the connections of the thread do (refuse, break, end, or give frames that do not convert or
-- do not encode), and whenever it is stopped: a recording in progress goes on under its name, its
-- container stays open with all the frames that it had, in order, and new ones only behind them, and no
-- file is closed.
pub run_thread-Lasts :
    (k : ℕ) (cs : List Connection) (l : Loop)
    → l.checks ≡ k
    → Lasts l.camera (run_thread cs l).camera
unfolding run_thread
run_thread-Lasts k [] l e = Lasts-refl l.camera
run_thread-Lasts zero (c ∷ cs) l e =
    subst (λ (r : Loop). Lasts l.camera r.camera) {x = l} {y = run_thread (c ∷ cs) l}
      (ground (arith, e)) (Lasts-refl l.camera)
run_thread-Lasts (suc k) (c ∷ cs) l e =
    let l1 = attempt c (record l { checks = k }) in
    let l2 = wait l1 in
    let here : Lasts l.camera l2.camera =
      subst (Lasts l.camera) (sym (wait-camera l1)) (attempt-Lasts c (record l { checks = k })) in
    subst (λ (r : Loop). Lasts l.camera r.camera) {x = run_thread cs l2} {y = run_thread (c ∷ cs) l}
      (ground (arith, e))
      (Lasts-trans l.camera l2.camera (run_thread cs l2).camera here
        (run_thread-Lasts l2.checks cs l2 refl))

after_try-connected : (r : Option String × Loop) → (after_try r).camera.connected ≡ false
unfolding after_try connection_closed
after_try-connected (none, l) = refl
after_try-connected (some message, l) = refl

attempt-connected : (c : Connection) (l : Loop) → (attempt c l).camera.connected ≡ false
unfolding attempt
attempt-connected (refused message) l = after_try-connected (some message, l)
attempt-connected (connected ds breaks) l =
    after_try-connected (over_frames ds breaks (record l { camera = connection_opened l.camera }))

-- Between two connections, and when the thread has ended, the camera is not said to be connected.
pub run_thread-connected :
    (k : ℕ) (cs : List Connection) (l : Loop)
    → l.checks ≡ k
    → l.camera.connected ≡ false
    → (run_thread cs l).camera.connected ≡ false
unfolding run_thread
run_thread-connected k [] l e off = off
run_thread-connected zero (c ∷ cs) l e off = ground (arith, e, off)
run_thread-connected (suc k) (c ∷ cs) l e off =
    let l1 = attempt c (record l { checks = k }) in
    let l2 = wait l1 in
    let off2 : l2.camera.connected ≡ false =
      ap (λ x. x.connected) (wait-camera l1) ∙ attempt-connected c (record l { checks = k }) in
    ground (arith, e, run_thread-connected l2.checks cs l2 refl off2)
