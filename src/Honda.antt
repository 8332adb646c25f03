-- ===== src/Honda.antt =====
-- The steering controller of the Civic with its stepper servo: selfdrive/car/honda/carcontroller.py, with
-- hondacan.py and the constants of values.py. Floats are integers in thousandths. `interp` of
-- numpy_fast, float products and quotients that are not exact in thousandths, and the packer of opendbc
-- are parameters.
mod Checksum
mod Controller
mod Run
mod Tests
use openpilot9xxcivic.Prelude.{
  ℕ, zero, suc, ℤ, pos, neg, abs, milli, int_round, ◌+ℤ◌, ◌-ℤ◌, ◌*ℤ◌, ltb_ℤ, ◌+◌, ◌-◌, ◌*◌, ◌/◌,
  ◌%◌, ◌≡◌, Bool, true, false, not, ◌&&◌, ◌||◌, nat_beq, ltb, leb, if◌then◌else◌, List, [], ◌∷◌,
  ◌++◌, String, Dict,
}
use openpilot9xxcivic.Can.{CanMessage, Packer, int_value, nat_value}
use openpilot9xxcivic.Clip.{Clip}
use openpilot9xxcivic.Limits.{SteerLimits, apply_toyota_steer_torque_limits}

-- `CarControllerParams`; the limiter of Toyota does not read the driver's limits.
unfoldable pub params : SteerLimits
params = record {
  steer_max = 1500;
  steer_delta_up = 3;
  steer_delta_down = 25;
  steer_error_max = 350;
  steer_driver_allowance = 0;
  steer_driver_factor = 0;
  steer_driver_multiplier = 0;
}

-- `SteerLimitParams.MAX_STEERING_TQ`
abbrev pub max_steering_tq : ℤ
max_steering_tq = pos 12000

-- The sum of the bytes from the address on.
unfoldable pub add_bytes : ℕ → List ℕ → ℕ
add_bytes checksum [] = checksum
add_bytes checksum (byte ∷ rest) = add_bytes (checksum + byte) rest

-- `& 0xFF` is the rest by 256, `>> 8` the quotient.
unfoldable pub calc_checksum_8bit : (work_data : List ℕ) (msg_id : ℕ) → ℕ
unfolding add_bytes
calc_checksum_8bit work_data msg_id =
    let checksum = add_bytes msg_id work_data in (checksum % 256 + checksum / 256) % 256

module _ (packer : Packer) where
  -- Ints become floats here: all values are in thousandths.
  unfoldable pub create_steer_command : (steer steer_req : ℤ) (raw_cnt : ℕ) → CanMessage
  create_steer_command steer steer_req raw_cnt = packer "STEERING_LKA" 0 (
      ("STEER_REQUEST", milli steer_req)
      ∷ ("STEER_TORQUE_CMD", milli steer)
      ∷ ("COUNTER", milli (pos raw_cnt))
      ∷ ("SET_ME_1", milli (pos 1))
      ∷ [])

  unfoldable pub steer_values : (mode steer_delta steer_tq : ℤ) (frame : ℕ) → Dict String ℤ
  steer_values mode steer_delta steer_tq frame =
      ("SERVO_COUNTER", milli (pos (frame % 15)))
      ∷ ("STEER_MODE", milli mode)
      ∷ ("STEER_ANGLE", steer_delta)
      ∷ ("STEER_TORQUE", steer_tq)
      ∷ []

  unfoldable pub create_new_steer_command : (mode steer_delta steer_tq : ℤ) (frame : ℕ) → CanMessage
  unfolding steer_values calc_checksum_8bit
  create_new_steer_command mode steer_delta steer_tq frame =
      let values = steer_values mode steer_delta steer_tq frame in
      let msg = packer "STEERING_COMMAND" 0 values in
      packer "STEERING_COMMAND" 0
        (values ++ ("SERVO_CHECKSUM", milli (pos (calc_checksum_8bit msg.dat msg.address))) ∷ [])

-- The parts of numpy and of the float arithmetic that the controller uses. The laws are those of 0.
pub record Floats : Type 0 where
  pub interp : (x : ℤ) (xp fp : List ℤ) → ℤ
  pub times : ℤ → ℤ → ℤ
  pub divided : ℤ → ℤ → ℤ
  pub times_zero : (x : ℤ) → times (pos 0) x ≡ pos 0
  pub divided_zero : (x : ℤ) → divided (pos 0) x ≡ pos 0

-- The fields of the object that `update` reads or writes; `fakes_camera` is
-- `Ecu.fwdCamera in self.fake_ecus`.
pub record CarController : Type 0 where
  pub last_steer : ℤ
  pub frame : ℕ
  pub last_target_angle_lim : ℤ
  pub last_controls_enabled : Bool
  pub planner_cnt : ℕ
  pub inertia_tq : ℤ
  pub target_angle_delta : ℤ
  pub steer_tq_r : ℤ
  pub apply_steer_last : ℤ
  pub steer_rate_limited : Bool
  pub fakes_camera : Bool

-- What `update` reads of `CC` and `CS`.
pub record Controls : Type 0 where
  pub lat_active : Bool
  pub steer : ℤ
  pub steering_angle_deg : ℤ
  pub measured_angle_deg : ℤ
  pub v_ego : ℤ

unfoldable pub init : CarController
init = record {
  last_steer = pos 0;
  frame = 0;
  last_target_angle_lim = pos 0;
  last_controls_enabled = false;
  planner_cnt = 0;
  inertia_tq = pos 0;
  target_angle_delta = pos 0;
  steer_tq_r = pos 0;
  apply_steer_last = pos 0;
  steer_rate_limited = false;
  fakes_camera = true;
}
