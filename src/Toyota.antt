-- ===== src/Toyota.antt =====
-- The port of Toyota: the messages of selfdrive/car/toyota/toyotacan.py. `is_angle` is the steering by angle.
pub mod Controller
pub mod Drive
use openpilot9xxcivic.Prelude.{
  ℕ, ℤ, ◌+◌, Bool, true, false, not, if◌then◌else◌, Option, none, some, List, [], ◌∷◌, ◌++◌, String,
  Dict, insert, string_comparable,
}
use openpilot9xxcivic.Can.{CanMessage, Packer, int_value, nat_value, bool_value, flag}

abbrev pub lane_sway_signals : List String
lane_sway_signals =
    "LANE_SWAY_FLD" ∷ "LANE_SWAY_BUZZER" ∷ "LANE_SWAY_WARNING" ∷ "LANE_SWAY_SENSITIVITY"
    ∷ "LANE_SWAY_TOGGLE" ∷ []

-- `values.update(...)` with the values of the stock message, if it has come.
abbrev pub updated : List String → Option (String → ℤ) → Dict String ℤ → Dict String ℤ
updated [] msg values = values
updated (s ∷ names) none values = values
updated (s ∷ names) (some msg) values = updated names (some msg) (insert s (msg s) values)

-- 3 for a line that is crossed, 1 for one that is seen and 2 for none.
abbrev pub line_shown : (depart line : Bool) → ℕ
line_shown depart line = if depart then 3 else if line then 1 else 2

-- What the driver sees of the lanes.
pub record Lanes : Type 0 where
  pub left_line : Bool
  pub right_line : Bool
  pub left_lane_depart : Bool
  pub right_lane_depart : Bool

unfoldable pub ui_values :
    (steer chime enabled : Bool) → Lanes → (stock_lkas_hud : Option (String → ℤ)) → Dict String ℤ
ui_values steer chime enabled l stock_lkas_hud = updated lane_sway_signals stock_lkas_hud (
    bool_value "TWO_BEEPS" chime
    ∷ bool_value "LDA_ALERT" steer
    ∷ nat_value "RIGHT_LINE" (line_shown l.right_lane_depart l.right_line)
    ∷ nat_value "LEFT_LINE" (line_shown l.left_lane_depart l.left_line)
    ∷ nat_value "BARRIERS" (flag enabled)
    ∷ nat_value "SET_ME_X02" 2
    ∷ nat_value "SET_ME_X01" 1
    ∷ nat_value "LKAS_STATUS" 1
    ∷ nat_value "REPEATED_BEEPS" 0
    ∷ nat_value "LANE_SWAY_FLD" 7
    ∷ nat_value "LANE_SWAY_BUZZER" 0
    ∷ nat_value "LANE_SWAY_WARNING" 0
    ∷ nat_value "LDA_FRONT_CAMERA_BLOCKED" 0
    ∷ nat_value "TAKE_CONTROL" 0
    ∷ nat_value "LANE_SWAY_SENSITIVITY" 2
    ∷ nat_value "LANE_SWAY_TOGGLE" 1
    ∷ nat_value "LDA_ON_MESSAGE" 0
    ∷ nat_value "LDA_MESSAGES" 0
    ∷ nat_value "LDA_SA_TOGGLE" 1
    ∷ nat_value "LDA_SENSITIVITY" 2
    ∷ nat_value "LDA_UNAVAILABLE" 0
    ∷ nat_value "LDA_MALFUNCTION" 0
    ∷ nat_value "LDA_UNAVAILABLE_QUIET" 0
    ∷ nat_value "ADJUSTING_CAMERA" 0
    ∷ nat_value "LDW_EXIST" 1
    ∷ [])

-- What an acceleration command says beyond its value.
pub record AccelState : Type 0 where
  pub pcm_cancel : Bool
  pub standstill_req : Bool
  pub lead : Bool
  pub acc_type : ℕ
  pub fcw_alert : Bool
  pub distance : Bool

module _ (packer : Packer) where
  unfoldable pub create_steer_command : (steer : ℤ) (steer_req : Bool) → CanMessage
  create_steer_command steer steer_req = packer "STEERING_LKA" 0 (
      bool_value "STEER_REQUEST" steer_req
      ∷ int_value "STEER_TORQUE_CMD" steer
      ∷ nat_value "SET_ME_1" 1
      ∷ [])

  -- `steer_angle` is in ten-thousandths of a degree.
  unfoldable pub create_lta_steer_command :
      (is_angle : Bool) (steer_angle : ℤ) (steer_req : Bool) (frame torque_wind_down : ℕ)
      → CanMessage
  create_lta_steer_command is_angle steer_angle steer_req frame torque_wind_down =
      packer "STEERING_LTA" 0 (
        nat_value "COUNTER" (frame + 128)
        ∷ nat_value "SETME_X1" 1
        ∷ nat_value "SETME_X3" (if is_angle then 1 else 3)
        ∷ nat_value "PERCENTAGE" 100
        ∷ nat_value "TORQUE_WIND_DOWN" torque_wind_down
        ∷ nat_value "ANGLE" 0
        ∷ ("STEER_ANGLE_CMD", steer_angle)
        ∷ bool_value "STEER_REQUEST" steer_req
        ∷ bool_value "STEER_REQUEST_2" steer_req
        ∷ nat_value "CLEAR_HOLD_STEERING_ALERT" 0
        ∷ [])

  unfoldable pub create_accel_command : (accel : ℤ) → AccelState → CanMessage
  create_accel_command accel a = packer "ACC_CONTROL" 0 (
      ("ACCEL_CMD", accel)
      ∷ nat_value "ACC_TYPE" a.acc_type
      ∷ bool_value "DISTANCE" a.distance
      ∷ bool_value "MINI_CAR" a.lead
      ∷ nat_value "PERMIT_BRAKING" 1
      ∷ bool_value "RELEASE_STANDSTILL" (not a.standstill_req)
      ∷ bool_value "CANCEL_REQ" a.pcm_cancel
      ∷ nat_value "ALLOW_LONG_PRESS" 1
      ∷ bool_value "ACC_CUT_IN" a.fcw_alert
      ∷ [])

  unfoldable pub create_acc_cancel_command : CanMessage
  create_acc_cancel_command = packer "PCM_CRUISE" 0 (
      nat_value "GAS_RELEASED" 0
      ∷ nat_value "CRUISE_ACTIVE" 0
      ∷ nat_value "ACC_BRAKING" 0
      ∷ nat_value "ACCEL_NET" 0
      ∷ nat_value "CRUISE_STATE" 0
      ∷ nat_value "CANCEL_REQ" 1
      ∷ [])

  unfoldable pub create_fcw_command : (fcw : Bool) → CanMessage
  create_fcw_command fcw = packer "PCS_HUD" 0 (
      nat_value "PCS_INDICATOR" 1
      ∷ bool_value "FCW" fcw
      ∷ nat_value "SET_ME_X20" 32
      ∷ nat_value "SET_ME_X10" 16
      ∷ nat_value "PCS_OFF" 1
      ∷ nat_value "PCS_SENSITIVITY" 0
      ∷ [])

  unfoldable pub create_ui_command :
      (steer chime enabled : Bool) → Lanes → (stock_lkas_hud : Option (String → ℤ)) → CanMessage
  unfolding ui_values
  create_ui_command steer chime enabled l stock_lkas_hud =
      packer "LKAS_HUD" 0 (ui_values steer chime enabled l stock_lkas_hud)
