-- ===== src/Camera/Ptz/Estimate.antt =====
-- What the controller's estimate means.
use cat_sentinel.Prelude.{
  ◌≡◌, refl, ap, ◌∙◌, inl, inr, Bool, List, [], ◌∷◌, none, some, arith, Outcome, ok, raise,
  if◌then◌else◌, Option-cases,
}
use cat_sentinel.Prelude.Floats.{Floats}
use cat_sentinel.Camera.Errors.{CameraError}
use cat_sentinel.Camera.Ptz.{
  Move, calibrated, PtzController, PtzStatus, status, call, move_motor, units, set_estimate,
  move_to, ended, nudge, calibrate, Command, ptz_move, ptz_nudge, ptz_calibrate, other, caught,
  dispatch, dispatch_all,
}

module _ (F : Floats) (accepts : List (Move F) → Move F → Bool) (full_circle : F.Float) where
  -- The estimate that a command leaves, when it returned this.
  abbrev pub estimate_after : Command F accepts full_circle → Bool → PtzStatus F → PtzStatus F
  estimate_after (ptz_move (some pan) (some tilt)) b old = if b then (pan, tilt) else old
  estimate_after ptz_calibrate b old = if b then (F.zero_float, F.zero_float) else old
  estimate_after _ _ old = old

  -- The estimate that a sequence of commands leaves: the target of the last move that succeeded, or
  -- the home position, if a calibration succeeded after it.
  abbrev pub last_target :
      List (Command F accepts full_circle) → List Bool → PtzStatus F → PtzStatus F
  last_target (c ∷ cs) (b ∷ bs) old = last_target cs bs (estimate_after c b old)
  last_target _ _ old = old

  set_estimate_lem :
      (pan tilt : F.Float) (m : Outcome CameraError (PtzController F)) (p : PtzController F)
      → let end = caught F accepts full_circle (set_estimate F accepts full_circle pan tilt m p) in
        status F end.1 ≡ (if end.0 then (pan, tilt) else status F p)
  unfolding set_estimate
  set_estimate_lem pan tilt (ok p') p = refl
  set_estimate_lem pan tilt (raise e) p = refl

  move_to_lem :
      (pan tilt : F.Float) (p : PtzController F)
      → let end = caught F accepts full_circle (move_to F accepts full_circle pan tilt p) in
        status F end.1 ≡ (if end.0 then (pan, tilt) else status F p)
  unfolding move_to
  move_to_lem pan tilt p = elim (Option-cases (units F accepts full_circle pan p.pan_deg p)) [
    | inl e ↦ ground (arith, e)
    | inr (x, e) ↦ elim (Option-cases (units F accepts full_circle tilt p.tilt_deg p)) [
      | inl e' ↦ ground (arith, e, e')
      | inr (y, e') ↦
          ground
            (arith, e, e', set_estimate_lem pan tilt (move_motor F accepts full_circle x y p) p)
    ]
  ]

  ended_lem :
      (m : Outcome CameraError (PtzController F)) (p : PtzController F)
      → ((p' : PtzController F) → m ≡ ok p' → status F p' ≡ status F p)
      → status F (caught F accepts full_circle (ended F accepts full_circle m p)).1 ≡ status F p
  unfolding ended
  ended_lem (ok p') p h = h p' refl
  ended_lem (raise e) p h = refl

  nudge_lem :
      (direction : F.Float) (p : PtzController F)
      → status F (caught F accepts full_circle (nudge F accepts full_circle direction p)).1
        ≡ status F p
  unfolding nudge call ended
  nudge_lem direction p = ground arith

  -- One command.
  dispatch_lem :
      (c : Command F accepts full_circle) (p : PtzController F)
      → status F (dispatch F accepts full_circle c p).1
        ≡ estimate_after c (dispatch F accepts full_circle c p).0 (status F p)
  unfolding dispatch calibrate
  dispatch_lem (ptz_move (some pan) (some tilt)) p = move_to_lem pan tilt p
  dispatch_lem (ptz_move (some pan) none) p = refl
  dispatch_lem (ptz_move none tilt) p = refl
  dispatch_lem (ptz_nudge (some direction)) p = nudge_lem direction p
  dispatch_lem (ptz_nudge none) p = refl
  dispatch_lem ptz_calibrate p =
      set_estimate_lem F.zero_float F.zero_float (call F accepts full_circle (calibrated) p) p
  dispatch_lem (other command) p = refl

  -- After any commands, the estimate that `status` reports is the target of the last `ptz_move` for
  -- which `dispatch` returned True, or (0, 0) if a `ptz_calibrate` returned True later, or else the
  -- old one: a command that fails leaves it, and so does every nudge.
  pub dispatch_all_estimate :
      (cs : List (Command F accepts full_circle)) (p : PtzController F)
      → status F (dispatch_all F accepts full_circle cs p).1
        ≡ last_target cs (dispatch_all F accepts full_circle cs p).0 (status F p)
  unfolding dispatch_all
  dispatch_all_estimate [] p = refl
  dispatch_all_estimate (c ∷ cs) p =
      dispatch_all_estimate cs (dispatch F accepts full_circle c p).1
      ∙ ap
          (last_target cs
            (dispatch_all F accepts full_circle cs (dispatch F accepts full_circle c p).1).0)
          (dispatch_lem c p)
