-- ===== src/Mazda.antt =====
-- The steering controller of the Mazda port: selfdrive/car/mazda/carcontroller.py, with the messages of
-- mazdacan.py. The packer of opendbc is a parameter; torques of the driver are in thousandths.
mod Messages
mod Controller
mod Run
mod Tests
use openpilot9xxcivic.Can.{CanMessage, Packer, nat_value, int_value, flag, copied}
use openpilot9xxcivic.Prelude.{
  ℕ, ℤ, pos, negsuc, milli, int_round, ◌+ℤ◌, ◌-ℤ◌, ◌*ℤ◌, ltb_ℤ, ltb, ◌+◌, ◌-◌, ◌*◌, ◌/◌, ◌%◌,
  Option, none, some, Bool, true, false, not, ◌&&◌, nat_beq, if◌then◌else◌, List, [], ◌∷◌, ◌++◌,
  map, String, Dict, lookup_or, string_comparable,
}
use openpilot9xxcivic.Clip.{Clip}
use openpilot9xxcivic.Limits.{SteerLimits, apply_driver_steer_torque_limits}

-- `CarControllerParams` of selfdrive/car/mazda/values.py.
unfoldable pub params : SteerLimits
params = record {
  steer_max = 800;
  steer_delta_up = 10;
  steer_delta_down = 25;
  steer_error_max = 350;
  steer_driver_allowance = 15;
  steer_driver_factor = 1;
  steer_driver_multiplier = 1;
}

-- `% 256` of Python, which is not negative.
abbrev pub mod_256 : ℤ → ℕ
mod_256 (pos n) = n % 256
mod_256 (negsuc n) = 255 - n % 256

-- `& 0xFF` and `>> 8` of an int.
abbrev pub shift_8 : ℤ → ℤ
shift_8 (pos n) = pos (n / 256)
shift_8 (negsuc n) = negsuc (n / 256)

-- The bits that the camera's message hands on, `lkas`.
pub record Lkas : Type 0 where
  pub bit_1 : ℕ
  pub err_bit_1 : ℕ
  pub err_bit_2 : ℕ

-- The steering angle in the message is 0, so that its three parts are 2, 0 and 0; the line and departure
-- bits and the last bit are 0 as well.
unfoldable pub raw_checksum : (ctr : ℕ) (hi lo : ℤ) → Lkas → ℤ
raw_checksum ctr hi lo lkas =
    pos 249
    -ℤ pos ctr
    -ℤ hi
    -ℤ lo
    -ℤ pos lkas.err_bit_1
    -ℤ pos (lkas.err_bit_2 * 16)
    -ℤ pos (lkas.bit_1 * 32)
    -ℤ pos 2

-- The shifts into range before `% 256`.
unfoldable pub steering_checksum : (ctr : ℕ) (hi lo : ℤ) → Lkas → ℕ
unfolding raw_checksum
steering_checksum ctr hi lo lkas =
    let csum = raw_checksum ctr hi lo lkas in
    mod_256 (
      if ltb_ℤ csum (pos 0)
      then (if ltb_ℤ csum (negsuc 255) then csum +ℤ pos 512 else csum +ℤ pos 256)
      else csum)

module _ (packer : Packer) (gen1 : Bool) where
  unfoldable pub create_steering_control : (frame : ℕ) (apply_steer : ℤ) → Lkas → CanMessage
  unfolding steering_checksum
  create_steering_control frame apply_steer lkas =
      let tmp = apply_steer +ℤ pos 2048 in
      let ctr = frame % 16 in
      let csum = steering_checksum ctr (shift_8 tmp) (pos (mod_256 tmp)) lkas in
      packer "CAM_LKAS" 0 (
        if gen1
        then int_value "LKAS_REQUEST" apply_steer
          ∷ nat_value "CTR" ctr
          ∷ nat_value "ERR_BIT_1" lkas.err_bit_1
          ∷ nat_value "LINE_NOT_VISIBLE" 0
          ∷ nat_value "LDW" 0
          ∷ nat_value "BIT_1" lkas.bit_1
          ∷ nat_value "ERR_BIT_2" lkas.err_bit_2
          ∷ nat_value "STEERING_ANGLE" 0
          ∷ nat_value "ANGLE_ENABLED" 0
          ∷ nat_value "CHKSUM" csum
          ∷ []
        else [])

  abbrev pub camera_signals : List String
  camera_signals =
      "LINE_VISIBLE" ∷ "LINE_NOT_VISIBLE" ∷ "LANE_LINES" ∷ "BIT1" ∷ "BIT2" ∷ "BIT3" ∷ "NO_ERR_BIT"
      ∷ "S1" ∷ "S1_HBEAM" ∷ []

  -- The camera's message has all the signals that are copied.
  unfoldable pub create_alert_command :
      (cam_msg : String → ℤ) (ldw steer_required : Bool) → CanMessage
  create_alert_command cam_msg ldw steer_required = packer "CAM_LANEINFO" 0 (
      copied camera_signals cam_msg
      ++ nat_value "HANDS_WARN_3_BITS" (flag steer_required * 7)
        ∷ nat_value "HANDS_ON_STEER_WARN" (flag steer_required)
        ∷ nat_value "HANDS_ON_STEER_WARN_2" (flag steer_required)
        ∷ nat_value "LDW_WARN_LL" 0
        ∷ nat_value "LDW_WARN_RL" 0
        ∷ [])

-- The buttons that the controller sends.
pub data Button : Type 0 where
  cancel resume : Button

abbrev pub is_cancel : Button → ℕ
is_cancel cancel = 1
is_cancel resume = 0

abbrev pub is_resume : Button → ℕ
is_resume cancel = 0
is_resume resume = 1

module _ (packer : Packer) where
  -- The source returns `None` for a car that is not of the first generation.
  unfoldable pub create_button_cmd : (gen1 : Bool) (counter : ℕ) → Button → Option CanMessage
  create_button_cmd false counter button = none
  create_button_cmd true counter button = some (
      packer "CRZ_BTNS" 0 (
        nat_value "CAN_OFF" (is_cancel button)
        ∷ nat_value "CAN_OFF_INV" ((is_cancel button + 1) % 2)
        ∷ nat_value "SET_P" 0
        ∷ nat_value "SET_P_INV" 1
        ∷ nat_value "RES" (is_resume button)
        ∷ nat_value "RES_INV" ((is_resume button + 1) % 2)
        ∷ nat_value "SET_M" 0
        ∷ nat_value "SET_M_INV" 1
        ∷ nat_value "DISTANCE_LESS" 0
        ∷ nat_value "DISTANCE_LESS_INV" 1
        ∷ nat_value "DISTANCE_MORE" 0
        ∷ nat_value "DISTANCE_MORE_INV" 1
        ∷ nat_value "MODE_X" 0
        ∷ nat_value "MODE_X_INV" 1
        ∷ nat_value "MODE_Y" 0
        ∷ nat_value "MODE_Y_INV" 1
        ∷ nat_value "BIT1" 1
        ∷ nat_value "BIT2" 1
        ∷ nat_value "BIT3" 1
        ∷ nat_value "CTR" ((counter + 1) % 16)
        ∷ []))
