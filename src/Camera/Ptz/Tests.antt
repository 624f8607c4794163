-- ===== src/Camera/Ptz/Tests.antt =====
-- Commands in whole degrees, to a motor that refuses to step.
use cat_sentinel.Prelude.{◌≡◌, Bool, true, false, List, [], ◌∷◌, none, some}
use cat_sentinel.Prelude.Int.{pos}
use cat_sentinel.Prelude.Floats.{scaled}
use cat_sentinel.Camera.Ptz.{
  Move, motor_step, PtzController, new_ptz, status, Command, ptz_move, ptz_nudge, dispatch_all,
}
use cat_sentinel.Camera.Ptz.Estimate.{last_target, dispatch_all_estimate}

abbrev full_circle : scaled.Float
unfolding scaled
full_circle = pos 360

abbrev no_steps : List (Move scaled) → Move scaled → Bool
no_steps moves (motor_step d) = false
no_steps moves _ = true

abbrev ptz : PtzController scaled
unfolding scaled new_ptz
ptz = record { units_per_degree = pos 10; pan_deg = pos 0; tilt_deg = pos 0; moves = [] }

abbrev commands : List (Command scaled no_steps full_circle)
unfolding scaled
commands =
    ptz_move (some (pos 3)) (some (pos 1))
    ∷ ptz_nudge (some (pos 90))
    ∷ ptz_move none (some (pos 7))
    ∷ []

dispatch_all_estimate_example :
    status scaled (dispatch_all scaled no_steps full_circle commands ptz).1
    ≡ last_target scaled no_steps full_circle commands
        (dispatch_all scaled no_steps full_circle commands ptz).0
        (status scaled ptz)
dispatch_all_estimate_example = dispatch_all_estimate scaled no_steps full_circle commands ptz
