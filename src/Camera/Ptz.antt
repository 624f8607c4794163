-- ===== src/Camera/Ptz.antt =====
-- The motor of the camera: camera/app/ptz/service.py, the `/ptz` routes, and the event dispatcher
-- (camera/app/events/camera_command_dispatcher.py). pytapo's client is the argument `accepts`: whether
-- a call comes back without an exception, after the calls that did. The lock makes each call one step.
pub mod Estimate
mod Tests
use cat_sentinel.Prelude.{
  ℕ, zero, String, Bool, true, false, not, ◌&&◌, ◌||◌, List, [], ◌∷◌, ◌++◌, Option, none, some,
  Outcome, ok, raise, Dict, lookup, str_dec, if◌then◌else◌,
}
use cat_sentinel.Prelude.Int.{ℤ, pos, negsuc}
use cat_sentinel.Prelude.Floats.{Floats}
use cat_sentinel.Camera.Errors.{
  CameraError, motor_error, key_error, value_error, overflow_error, invalid_request,
}

-- `x != 0`
abbrev pub nonzero : ℤ → Bool
nonzero (pos zero) = false
nonzero _ = true

module _ (F : Floats) where
  -- A call of the client that came back.
  pub data Move : Type 0 where
    motor : (x y : ℤ) → Move
    motor_step : F.Float → Move
    calibrated : Move

  pub record PtzController : Type 0 where
    pub units_per_degree : F.Float
    pub pan_deg : F.Float
    pub tilt_deg : F.Float
    pub moves : List Move

  unfoldable pub new_ptz : F.Float → PtzController
  new_ptz units_per_degree = record {
    units_per_degree = units_per_degree;
    pan_deg = F.zero_float;
    tilt_deg = F.zero_float;
    moves = [];
  }

  -- `status`: the estimate.
  abbrev pub PtzStatus : Type 0
  PtzStatus = F.Float × F.Float

  abbrev pub status : PtzController → PtzStatus
  status p = (p.pan_deg, p.tilt_deg)

  -- The bounds of an angle of `nudge`, and of the request model: 0 <= direction < 360.
  unfoldable pub in_circle : F.Float → F.Float → Bool
  in_circle full_circle direction = F.le F.zero_float direction && F.lt direction full_circle

  module _ (accepts : List Move → Move → Bool) (full_circle : F.Float) where
    -- A call of the client.
    unfoldable pub call : Move → PtzController → Outcome CameraError PtzController
    call m p =
        if accepts p.moves m then ok (record p { moves = p.moves ++ m ∷ [] }) else raise motor_error

    -- `if x != 0 or y != 0: self._client.moveMotor(x, y)`
    unfoldable pub move_motor : ℤ → ℤ → PtzController → Outcome CameraError PtzController
    unfolding call
    move_motor x y p = if nonzero x || nonzero y then call (motor x y) p else ok p

    -- `round(delta * self._units_per_degree)`
    unfoldable pub units : F.Float → F.Float → PtzController → Option ℤ
    units target estimate p = F.round (F.mul (F.sub target estimate) p.units_per_degree)

    -- From the call of the motor on: the estimate is set once the motor has moved.
    unfoldable pub set_estimate :
        F.Float
        → F.Float
        → Outcome CameraError PtzController
        → PtzController
        → Outcome CameraError PtzStatus × PtzController
    set_estimate pan tilt (ok p') p = (ok (pan, tilt), record p' { pan_deg = pan; tilt_deg = tilt })
    set_estimate pan tilt (raise e) p = (raise e, p)

    -- `move_to`; `none` of a rounding is an OverflowError or a ValueError.
    unfoldable pub move_to :
        F.Float → F.Float → PtzController → Outcome CameraError PtzStatus × PtzController
    unfolding units move_motor set_estimate
    move_to pan tilt p = elim (units pan p.pan_deg p) [
      | none ↦ (raise overflow_error, p)
      | some x ↦ elim (units tilt p.tilt_deg p) [
        | none ↦ (raise overflow_error, p)
        | some y ↦ set_estimate pan tilt (move_motor x y p) p
      ]
    ]

    unfoldable pub ended :
        Outcome CameraError PtzController
        → PtzController
        → Outcome CameraError (Unit {0}) × PtzController
    ended (ok p') p = (ok tt, p')
    ended (raise e) p = (raise e, p)

    -- `nudge`: the estimate stays.
    unfoldable pub nudge : F.Float → PtzController → Outcome CameraError (Unit {0}) × PtzController
    unfolding in_circle call ended
    nudge direction_deg p =
        if not (in_circle full_circle direction_deg)
        then (raise value_error, p)
        else ended (call (motor_step direction_deg) p) p

    unfoldable pub calibrate : PtzController → Outcome CameraError PtzStatus × PtzController
    unfolding call set_estimate
    calibrate p = set_estimate F.zero_float F.zero_float (call calibrated p) p

    -- A command of the event map, with its numbers as `float(params[...])` reads them; `none` is a
    -- KeyError, a TypeError or a ValueError there.
    pub data Command : Type 0 where
      ptz_move : (pan tilt : Option F.Float) → Command
      ptz_nudge : (direction : Option F.Float) → Command
      ptz_calibrate : Command
      other : (command : String) → Command

    -- `except Exception`: the end of a command as `dispatch` returns it.
    abbrev pub caught : {A : Type 0} → Outcome CameraError A × PtzController → Bool × PtzController
    caught (ok a, p) = (true, p)
    caught (raise e, p) = (false, p)

    -- `TapoCameraCommandDispatcher.dispatch` with the logging fallback, which returns True.
    unfoldable pub dispatch : Command → PtzController → Bool × PtzController
    unfolding move_to nudge calibrate
    dispatch (ptz_move (some pan) (some tilt)) p = caught (move_to pan tilt p)
    dispatch (ptz_move _ _) p = (false, p)
    dispatch (ptz_nudge (some direction)) p = caught (nudge direction p)
    dispatch (ptz_nudge none) p = (false, p)
    dispatch ptz_calibrate p = caught (calibrate p)
    dispatch (other command) p = (true, p)

    -- A sequence of commands: what each call returned, and the controller behind them.
    unfoldable pub dispatch_all : List Command → PtzController → List Bool × PtzController
    unfolding dispatch
    dispatch_all [] p = ([], p)
    dispatch_all (c ∷ cs) p =
        let (b, p') = dispatch c p in let (bs, end) = dispatch_all cs p' in (b ∷ bs, end)
