-- ===== src/Subaru/Messages.antt =====
-- The messages of selfdrive/car/subaru/subarucan.py for the global platforms. A stock message is its values by
-- name, in thousandths.
use openpilot9xxcivic.Prelude.{
  ℕ, ℤ, pos, milli, ltb_ℤ, ◌%◌, Bool, true, false, not, ◌&&◌, ◌||◌, if◌then◌else◌, List, [], ◌∷◌,
  String, Dict, insert, lookup_or, string_comparable,
}
use openpilot9xxcivic.Can.{CanMessage, Packer, int_value, nat_value, bool_value, flag, copied}

-- The alerts of cereal's `HUDControl` that the messages tell apart.
pub data VisualAlert : Type 0 where
  steer_required ldw fcw other_alert : VisualAlert

abbrev pub is_steer_required : VisualAlert → Bool
is_steer_required steer_required = true
is_steer_required _ = false

abbrev pub is_ldw : VisualAlert → Bool
is_ldw ldw = true
is_ldw _ = false

abbrev pub is_fcw : VisualAlert → Bool
is_fcw fcw = true
is_fcw _ = false

abbrev pub Values : Type 0
Values = Dict String ℤ

-- `values[name] = n`
abbrev pub put : String → ℕ → Values → Values
put name n values = insert name (milli (pos n)) values

-- `values[name] == n`, for a name that is there.
abbrev pub has : Values → String → ℕ → Bool
has values name n =
    let v = lookup_or (pos 0) name values in
    not (ltb_ℤ v (milli (pos n))) && not (ltb_ℤ (milli (pos n)) v)

abbrev pub put_if : Bool → String → ℕ → Values → Values
put_if b name n values = if b then put name n values else values

-- The stock values with the counter of this message.
abbrev pub stock_values : List String → (msg : String → ℤ) → (frame : ℕ) → Values
stock_values names msg frame = put "COUNTER" (frame % 16) (copied names msg)

abbrev pub es_distance_signals : List String
es_distance_signals =
    "CHECKSUM" ∷ "Signal1" ∷ "Cruise_Fault" ∷ "Cruise_Throttle" ∷ "Signal2" ∷ "Car_Follow"
    ∷ "Low_Speed_Follow" ∷ "Cruise_Soft_Disable" ∷ "Signal7" ∷ "Cruise_Brake_Active"
    ∷ "Distance_Swap" ∷ "Cruise_EPB" ∷ "Signal4" ∷ "Close_Distance" ∷ "Signal5" ∷ "Cruise_Cancel"
    ∷ "Cruise_Set" ∷ "Cruise_Resume" ∷ "Signal6" ∷ []

abbrev pub es_lkas_state_signals : List String
es_lkas_state_signals =
    "CHECKSUM" ∷ "LKAS_Alert_Msg" ∷ "Signal1" ∷ "LKAS_ACTIVE" ∷ "LKAS_Dash_State" ∷ "Signal2"
    ∷ "Backward_Speed_Limit_Menu" ∷ "LKAS_Left_Line_Enable" ∷ "LKAS_Left_Line_Light_Blink"
    ∷ "LKAS_Right_Line_Enable" ∷ "LKAS_Right_Line_Light_Blink" ∷ "LKAS_Left_Line_Visible"
    ∷ "LKAS_Right_Line_Visible" ∷ "LKAS_Alert" ∷ "Signal3" ∷ []

abbrev pub es_dashstatus_signals : List String
es_dashstatus_signals =
    "CHECKSUM" ∷ "PCB_Off" ∷ "LDW_Off" ∷ "Signal1" ∷ "Cruise_State_Msg" ∷ "LKAS_State_Msg"
    ∷ "Signal2" ∷ "Cruise_Soft_Disable" ∷ "Cruise_Status_Msg" ∷ "Signal3" ∷ "Cruise_Distance"
    ∷ "Signal4" ∷ "Conventional_Cruise" ∷ "Signal5" ∷ "Cruise_Disengaged" ∷ "Cruise_Activated"
    ∷ "Signal6" ∷ "Cruise_Set_Speed" ∷ "Cruise_Fault" ∷ "Cruise_On" ∷ "Display_Own_Car"
    ∷ "Brake_Lights" ∷ "Car_Follow" ∷ "Signal7" ∷ "Far_Distance" ∷ "Cruise_State" ∷ []

abbrev pub es_brake_signals : List String
es_brake_signals =
    "CHECKSUM" ∷ "Signal1" ∷ "Brake_Pressure" ∷ "AEB_Status" ∷ "Cruise_Brake_Lights"
    ∷ "Cruise_Brake_Fault" ∷ "Cruise_Brake_Active" ∷ "Cruise_Activated" ∷ "Signal3" ∷ []

abbrev pub es_status_signals : List String
es_status_signals =
    "CHECKSUM" ∷ "Signal1" ∷ "Cruise_Fault" ∷ "Cruise_RPM" ∷ "Cruise_Activated" ∷ "Brake_Lights"
    ∷ "Cruise_Hold" ∷ "Signal3" ∷ []

abbrev pub es_infotainment_signals : List String
es_infotainment_signals =
    "CHECKSUM" ∷ "LKAS_State_Infotainment" ∷ "LKAS_Blue_Lines" ∷ "Signal1" ∷ "Signal2" ∷ []

-- The commands of the longitudinal controller that `create_es_distance` takes.
pub record Cruise : Type 0 where
  pub long_enabled : Bool
  pub brake_cmd : Bool
  pub cruise_throttle : ℤ

abbrev pub no_cruise : Cruise
no_cruise = record { long_enabled = false; brake_cmd = false; cruise_throttle = pos 0 }

unfoldable pub es_distance_values :
    (frame : ℕ) (msg : String → ℤ) (pcm_cancel_cmd : Bool) → Cruise → Values
es_distance_values frame msg pcm_cancel_cmd c =
    let values = stock_values es_distance_signals msg frame in
    let long =
      if c.long_enabled
      then put "Cruise_Brake_Active" (flag c.brake_cmd) (
          put "Cruise_Fault" 0 (
            put "Cruise_Soft_Disable" 0
              (insert "Cruise_Throttle" (milli c.cruise_throttle) values)))
      else values in
    if pcm_cancel_cmd then put "Cruise_Throttle" 1818 (put "Cruise_Cancel" 1 long) else long

-- The alerts of the stock system that are not passed on.
unfoldable pub filter_alerts : Values → Values
filter_alerts values =
    let a = put_if (has values "LKAS_Alert_Msg" 1) "LKAS_Alert_Msg" 0 values in
    let b = put_if (has a "LKAS_Alert" 27) "LKAS_Alert" 0 a in
    let c = put_if (has b "LKAS_Alert" 28 && has b "LKAS_Alert_Msg" 7) "LKAS_Alert" 0 b in
    let d = put_if (has c "LKAS_Alert" 30) "LKAS_Alert" 0 c in
    put_if (has d "LKAS_Alert_Msg" 7) "LKAS_Alert_Msg" 0 d

-- What the dash shows of the lanes.
pub record Lanes : Type 0 where
  pub left_line : Bool
  pub right_line : Bool
  pub left_lane_depart : Bool
  pub right_lane_depart : Bool

-- The alerts of openpilot.
unfoldable pub add_alerts : VisualAlert → Lanes → Values → Values
add_alerts visual_alert l values =
    let a = put_if (is_steer_required visual_alert) "LKAS_Alert_Msg" 1 values in
    if is_ldw visual_alert && has a "LKAS_Alert" 0
    then (if l.left_lane_depart
        then put "LKAS_Alert" 12 a
        else put_if l.right_lane_depart "LKAS_Alert" 11 a)
    else a

unfoldable pub es_lkas_state_values :
    (frame : ℕ) (msg : String → ℤ) (enabled : Bool) → VisualAlert → Lanes → Values
unfolding filter_alerts add_alerts
es_lkas_state_values frame msg enabled visual_alert l =
    let alerts =
      add_alerts visual_alert l (filter_alerts (stock_values es_lkas_state_signals msg frame)) in
    let shown =
      if enabled
      then put "LKAS_Dash_State" 2 (put "LKAS_ACTIVE" 1 alerts)
      else put "LKAS_Dash_State" 0 alerts in
    put "LKAS_Right_Line_Visible" (flag l.right_line)
      (put "LKAS_Left_Line_Visible" (flag l.left_line) shown)

unfoldable pub es_dashstatus_values :
    (frame : ℕ) (msg : String → ℤ) (enabled long_enabled lead_visible : Bool) → Values
es_dashstatus_values frame msg enabled long_enabled lead_visible =
    let values = stock_values es_dashstatus_signals msg frame in
    let long =
      if long_enabled
      then put "Cruise_Fault" 0 (
          put "LDW_Off" 0 (
            put "PCB_Off" 1 (
              put "Car_Follow" (flag lead_visible) (
                put "Cruise_Disengaged" 0
                  (put "Cruise_Activated" (flag enabled) (put "Cruise_State" 0 values))))))
      else values in
    put_if (has long "LKAS_State_Msg" 2 || has long "LKAS_State_Msg" 3) "LKAS_State_Msg" 0 long

unfoldable pub es_brake_values :
    (frame : ℕ) (msg : String → ℤ) (long_enabled long_active : Bool) (brake_value : ℤ) → Values
es_brake_values frame msg long_enabled long_active brake_value =
    let values = stock_values es_brake_signals msg frame in
    if long_enabled
    then put "Cruise_Brake_Lights" (flag (not (ltb_ℤ brake_value (pos 70)))) (
        put "Cruise_Brake_Active" (flag (ltb_ℤ (pos 0) brake_value)) (
          insert "Brake_Pressure" (milli brake_value)
            (put "Cruise_Activated" (flag long_active) (put "Cruise_Brake_Fault" 0 values))))
    else values

unfoldable pub es_status_values :
    (frame : ℕ) (msg : String → ℤ) (long_enabled long_active : Bool) (cruise_rpm : ℤ) → Values
es_status_values frame msg long_enabled long_active cruise_rpm =
    let values = stock_values es_status_signals msg frame in
    if long_enabled
    then put "Cruise_Activated" (flag long_active)
        (put "Cruise_Fault" 0 (insert "Cruise_RPM" (milli cruise_rpm) values))
    else values

unfoldable pub es_infotainment_values : (frame : ℕ) (msg : String → ℤ) → VisualAlert → Values
es_infotainment_values frame msg visual_alert =
    let values = stock_values es_infotainment_signals msg frame in
    let a =
      put_if (has values "LKAS_State_Infotainment" 3 || has values "LKAS_State_Infotainment" 4)
        "LKAS_State_Infotainment" 0 values in
    put_if (is_fcw visual_alert) "LKAS_State_Infotainment" 2
      (put_if (is_steer_required visual_alert) "LKAS_State_Infotainment" 3 a)

-- `CanBus.main`
abbrev pub main_bus : ℕ
main_bus = 0

module _ (packer : Packer) where
  unfoldable pub create_steering_control : (apply_steer : ℤ) (steer_req : Bool) → CanMessage
  create_steering_control apply_steer steer_req = packer "ES_LKAS" 0 (
      int_value "LKAS_Output" apply_steer
      ∷ bool_value "LKAS_Request" steer_req
      ∷ nat_value "SET_1" 1
      ∷ [])

  unfoldable pub create_steering_control_angle : (apply_steer : ℤ) (steer_req : Bool) → CanMessage
  create_steering_control_angle apply_steer steer_req = packer "ES_LKAS_ANGLE" 0 (
      int_value "LKAS_Output" apply_steer
      ∷ bool_value "LKAS_Request" steer_req
      ∷ nat_value "SET_3" 3
      ∷ [])

  unfoldable pub create_steering_status : CanMessage
  create_steering_status = packer "ES_LKAS_State" 0 []

  unfoldable pub create_es_distance :
      (frame : ℕ) (msg : String → ℤ) (bus : ℕ) (pcm_cancel_cmd : Bool) → Cruise → CanMessage
  unfolding es_distance_values
  create_es_distance frame msg bus pcm_cancel_cmd c =
      packer "ES_Distance" bus (es_distance_values frame msg pcm_cancel_cmd c)

  unfoldable pub create_es_lkas_state :
      (frame : ℕ) (msg : String → ℤ) (enabled : Bool) → VisualAlert → Lanes → CanMessage
  unfolding es_lkas_state_values
  create_es_lkas_state frame msg enabled visual_alert l =
      packer "ES_LKAS_State" main_bus (es_lkas_state_values frame msg enabled visual_alert l)

  unfoldable pub create_es_dashstatus :
      (frame : ℕ) (msg : String → ℤ) (enabled long_enabled lead_visible : Bool) → CanMessage
  unfolding es_dashstatus_values
  create_es_dashstatus frame msg enabled long_enabled lead_visible =
      packer "ES_DashStatus" main_bus
        (es_dashstatus_values frame msg enabled long_enabled lead_visible)

  unfoldable pub create_es_brake :
      (frame : ℕ) (msg : String → ℤ) (long_enabled long_active : Bool) (brake_value : ℤ)
      → CanMessage
  unfolding es_brake_values
  create_es_brake frame msg long_enabled long_active brake_value =
      packer "ES_Brake" main_bus (es_brake_values frame msg long_enabled long_active brake_value)

  unfoldable pub create_es_status :
      (frame : ℕ) (msg : String → ℤ) (long_enabled long_active : Bool) (cruise_rpm : ℤ) → CanMessage
  unfolding es_status_values
  create_es_status frame msg long_enabled long_active cruise_rpm =
      packer "ES_Status" main_bus (es_status_values frame msg long_enabled long_active cruise_rpm)

  unfoldable pub create_es_infotainment : (frame : ℕ) (msg : String → ℤ) → VisualAlert → CanMessage
  unfolding es_infotainment_values
  create_es_infotainment frame msg visual_alert =
      packer "ES_Infotainment" main_bus (es_infotainment_values frame msg visual_alert)

  unfoldable pub create_es_highbeamassist : CanMessage
  create_es_highbeamassist =
      packer "ES_HighBeamAssist" main_bus (bool_value "HBA_Available" false ∷ [])

  unfoldable pub create_es_static_1 : CanMessage
  create_es_static_1 = packer "ES_STATIC_1" main_bus (nat_value "SET_3" 3 ∷ [])

  unfoldable pub create_es_static_2 : CanMessage
  create_es_static_2 = packer "ES_STATIC_2" main_bus (nat_value "SET_3" 3 ∷ [])
