-- ===== src/Chrysler.antt =====
-- The port of Chrysler and RAM: the messages of selfdrive/car/chrysler/chryslercan.py.
pub mod Controller
pub mod Edges
pub mod Bounds
mod Tests
use openpilot9xxcivic.Prelude.{
  ℕ, ℤ, pos, milli, ltb, ◌%◌, Bool, if◌then◌else◌, List, [], ◌∷◌, ◌++◌, String, Dict,
}
use openpilot9xxcivic.Can.{CanMessage, Packer, int_value, nat_value, bool_value}

-- What `DAS_6` shows: `hud_alert` is an alert for which the driver is to take the wheel.
unfoldable pub lkas_hud_values :
    (is_ram lkas_active hud_alert : Bool) (hud_count : ℕ) (car_model auto_high_beam : ℤ)
    → Dict String ℤ
lkas_hud_values is_ram lkas_active hud_alert hud_count car_model auto_high_beam =
    let color : ℕ = if hud_alert then 4 else if lkas_active then 2 else 1 in
    let lines : ℕ = if hud_alert then 0 else if lkas_active then 3 else 0 in
    let alerts : ℕ =
      if hud_alert then 6 else if ltb hud_count 4 then 1 else if lkas_active then 7 else 0 in
    (nat_value "LKAS_ICON_COLOR" color
      ∷ int_value "CAR_MODEL" car_model
      ∷ nat_value "LKAS_LANE_LINES" lines
      ∷ nat_value "LKAS_ALERTS" alerts
      ∷ [])
    ++ (if is_ram then int_value "AUTO_HIGH_BEAM_ON" auto_high_beam ∷ [] else [])

module _ (packer : Packer) where
  unfoldable pub create_lkas_hud :
      (is_ram lkas_active hud_alert : Bool) (hud_count : ℕ) (car_model auto_high_beam : ℤ)
      → CanMessage
  unfolding lkas_hud_values
  create_lkas_hud is_ram lkas_active hud_alert hud_count car_model auto_high_beam =
      packer "DAS_6" 0
        (lkas_hud_values is_ram lkas_active hud_alert hud_count car_model auto_high_beam)

  unfoldable pub create_lkas_command :
      (is_ram : Bool) (apply_steer : ℤ) (lkas_control_bit : Bool) → CanMessage
  create_lkas_command is_ram apply_steer lkas_control_bit = packer "LKAS_COMMAND" 0 (
      int_value "STEERING_TORQUE" apply_steer
      ∷ nat_value "LKAS_CONTROL_BIT" (if lkas_control_bit then (if is_ram then 2 else 1) else 0)
      ∷ [])

  unfoldable pub create_cruise_buttons : (frame bus : ℕ) (cancel resume : Bool) → CanMessage
  create_cruise_buttons frame bus cancel resume = packer "CRUISE_BUTTONS" bus (
      bool_value "ACC_Cancel" cancel
      ∷ bool_value "ACC_Resume" resume
      ∷ nat_value "COUNTER" (frame % 16)
      ∷ [])
