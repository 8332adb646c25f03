-- ===== src/Nissan.antt =====
-- The port of Nissan: the messages of selfdrive/car/nissan/nissancan.py. The checksum is crcmod's, a parameter.
pub mod Controller
pub mod Run
mod Tests
use openpilot9xxcivic.Prelude.{
  ℕ, ℤ, pos, milli, ◌%◌, Bool, ◌&&◌, if◌then◌else◌, List, [], ◌∷◌, take, String, Dict, insert,
  string_comparable,
}
use openpilot9xxcivic.Can.{CanMessage, Packer, nat_value, bool_value, flag, copied}

-- `values[name] = n`
abbrev pub put : String → ℕ → Dict String ℤ → Dict String ℤ
put name n values = insert name (milli (pos n)) values

abbrev pub cruise_throttle_signals : List String
cruise_throttle_signals =
    "COUNTER" ∷ "PROPILOT_BUTTON" ∷ "CANCEL_BUTTON" ∷ "GAS_PEDAL_INVERTED" ∷ "SET_BUTTON"
    ∷ "RES_BUTTON" ∷ "FOLLOW_DISTANCE_BUTTON" ∷ "NO_BUTTON_PRESSED" ∷ "GAS_PEDAL"
    ∷ "USER_BRAKE_PRESSED" ∷ "NEW_SIGNAL_2" ∷ "GAS_PRESSED_INVERTED" ∷ "unsure1" ∷ "unsure2"
    ∷ "unsure3" ∷ []

abbrev pub cancel_signals : List String
cancel_signals = "CANCEL_SEATBELT" ∷ "NEW_SIGNAL_1" ∷ "NEW_SIGNAL_2" ∷ "NEW_SIGNAL_3" ∷ []

abbrev pub lkas_hud_signals : List String
lkas_hud_signals =
    "LARGE_WARNING_FLASHING" ∷ "SIDE_RADAR_ERROR_FLASHING1" ∷ "SIDE_RADAR_ERROR_FLASHING2"
    ∷ "LEAD_CAR" ∷ "LEAD_CAR_ERROR" ∷ "FRONT_RADAR_ERROR" ∷ "FRONT_RADAR_ERROR_FLASHING"
    ∷ "SIDE_RADAR_ERROR_FLASHING3" ∷ "LKAS_ERROR_FLASHING" ∷ "SAFETY_SHIELD_ACTIVE"
    ∷ "RIGHT_LANE_GREEN_FLASH" ∷ "LEFT_LANE_GREEN_FLASH" ∷ "FOLLOW_DISTANCE" ∷ "AUDIBLE_TONE"
    ∷ "SPEED_SET_ICON" ∷ "SMALL_STEERING_WHEEL_ICON" ∷ "unknown59" ∷ "unknown55" ∷ "unknown26"
    ∷ "unknown28" ∷ "unknown31" ∷ "SET_SPEED" ∷ "unknown43" ∷ "unknown08" ∷ "unknown05"
    ∷ "unknown02" ∷ []

abbrev pub lkas_hud_info_signals : List String
lkas_hud_info_signals =
    "NA_HIGH_ACCEL_TEMP" ∷ "SIDE_RADAR_NA_HIGH_CABIN_TEMP" ∷ "SIDE_RADAR_MALFUNCTION"
    ∷ "LKAS_MALFUNCTION" ∷ "FRONT_RADAR_MALFUNCTION" ∷ "SIDE_RADAR_NA_CLEAN_REAR_CAMERA"
    ∷ "NA_POOR_ROAD_CONDITIONS" ∷ "CURRENTLY_UNAVAILABLE" ∷ "SAFETY_SHIELD_OFF"
    ∷ "FRONT_COLLISION_NA_FRONT_RADAR_OBSTRUCTION" ∷ "PEDAL_MISSAPPLICATION_SYSTEM_ACTIVATED"
    ∷ "SIDE_IMPACT_NA_RADAR_OBSTRUCTION" ∷ "WARNING_DO_NOT_ENTER" ∷ "SIDE_IMPACT_SYSTEM_OFF"
    ∷ "SIDE_IMPACT_MALFUNCTION" ∷ "FRONT_COLLISION_MALFUNCTION" ∷ "SIDE_RADAR_MALFUNCTION2"
    ∷ "LKAS_MALFUNCTION2" ∷ "FRONT_RADAR_MALFUNCTION2" ∷ "PROPILOT_NA_MSGS" ∷ "BOTTOM_MSG"
    ∷ "HANDS_ON_WHEEL_WARNING" ∷ "WARNING_STEP_ON_BRAKE_NOW" ∷ "PROPILOT_NA_FRONT_CAMERA_OBSTRUCTED"
    ∷ "PROPILOT_NA_HIGH_CABIN_TEMP" ∷ "WARNING_PROPILOT_MALFUNCTION"
    ∷ "ACC_UNAVAILABLE_HIGH_CABIN_TEMP" ∷ "ACC_NA_FRONT_CAMERA_IMPARED" ∷ "unknown07" ∷ "unknown10"
    ∷ "unknown15" ∷ "unknown23" ∷ "unknown19" ∷ "unknown31" ∷ "unknown32" ∷ "unknown46"
    ∷ "unknown61" ∷ "unknown55" ∷ "unknown50" ∷ []

module _ (packer : Packer) where
  -- The angle is in thousandths, and so is the torque.
  unfoldable pub create_steering_control :
      (nissan_checksum : List ℕ → ℕ) (apply_steer : ℤ) (frame : ℕ) (steer_on : Bool)
      (lkas_max_torque : ℤ)
      → CanMessage
  create_steering_control nissan_checksum apply_steer frame steer_on lkas_max_torque =
      let values =
        nat_value "COUNTER" (frame % 16)
        ∷ ("DESIRED_ANGLE", apply_steer)
        ∷ nat_value "SET_0x80_2" 128
        ∷ nat_value "SET_0x80" 128
        ∷ ("MAX_TORQUE", if steer_on then lkas_max_torque else pos 0)
        ∷ bool_value "LKA_ACTIVE" steer_on
        ∷ [] in
      packer "LKAS" 0
        (put "CHECKSUM" (nissan_checksum (take 7 (packer "LKAS" 0 values).dat)) values)

  unfoldable pub create_acc_cancel_cmd : (is_altima : Bool) (msg : String → ℤ) → CanMessage
  create_acc_cancel_cmd is_altima msg = packer "CRUISE_THROTTLE" (if is_altima then 1 else 2) (
      put "FOLLOW_DISTANCE_BUTTON" 0 (
        put "RES_BUTTON" 0 (
          put "SET_BUTTON" 0 (
            put "PROPILOT_BUTTON" 0 (
              put "NO_BUTTON_PRESSED" 0
                (put "CANCEL_BUTTON" 1 (copied cruise_throttle_signals msg)))))))

  unfoldable pub create_cancel_msg : (msg : String → ℤ) (cruise_cancel : Bool) → CanMessage
  create_cancel_msg msg cruise_cancel =
      let values = copied cancel_signals msg in
      packer "CANCEL_MSG" 2 (if cruise_cancel then put "CANCEL_SEATBELT" 1 values else values)

  unfoldable pub create_lkas_hud_msg :
      (msg : String → ℤ) (enabled left_line right_line left_lane_depart right_lane_depart : Bool)
      → CanMessage
  create_lkas_hud_msg msg enabled left_line right_line left_lane_depart right_lane_depart =
      packer "PROPILOT_HUD" 0 (
        put "LEFT_LANE_GREEN" (flag (left_line && enabled)) (
          put "RIGHT_LANE_GREEN" (flag (right_line && enabled)) (
            put "LARGE_STEERING_WHEEL_ICON" (if enabled then 2 else 0) (
              put "LEFT_LANE_YELLOW_FLASH" (flag left_lane_depart) (
                put "RIGHT_LANE_YELLOW_FLASH" (flag right_lane_depart)
                  (copied lkas_hud_signals msg))))))

  unfoldable pub create_lkas_hud_info_msg : (msg : String → ℤ) (steer_hud_alert : Bool) → CanMessage
  create_lkas_hud_info_msg msg steer_hud_alert =
      let values = copied lkas_hud_info_signals msg in
      packer "PROPILOT_HUD_INFO_MSG" 0
        (if steer_hud_alert then put "HANDS_ON_WHEEL_WARNING" 1 values else values)
