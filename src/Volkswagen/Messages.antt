-- ===== src/Volkswagen/Messages.antt =====
-- The operations that selfdrive/car/volkswagen/mqbcan.py and pqcan.py share, as an interface: the
-- controller takes one of the two modules as `self.CCS`.
use openpilot9xxcivic.Prelude.{ℕ, ℤ, Bool, Option, List, String}
use openpilot9xxcivic.Can.{CanMessage}

-- The fields of cereal's `HUDControl` that the messages show.
pub record HudControl : Type 0 where
  pub take_over : Bool
  pub left_lane_depart : Bool
  pub left_lane_visible : Bool
  pub right_lane_depart : Bool
  pub right_lane_visible : Bool
  pub lead_visible : Bool
  pub set_speed : ℤ
  pub lead_distance_bars : ℕ

-- What an acceleration command says beyond its value.
pub record AccState : Type 0 where
  pub acc_type : ℕ
  pub acc_enabled : Bool
  pub accel : ℤ
  pub stopping : Bool
  pub starting : Bool
  pub esp_hold : Bool

-- A module of messages; each takes the bus. `pqcan` has no `create_eps_update`.
pub record Messages : Type 0 where
  pub create_steering_control : (bus : ℕ) (apply_steer : ℤ) (lkas_enabled : Bool) → CanMessage
  pub create_eps_update :
      Option ((bus : ℕ) (eps_stock_values : String → ℤ) (ea_simulated_torque : ℤ) → CanMessage)
  pub create_lka_hud_control :
      (bus : ℕ) (ldw_stock_values : Option (String → ℤ)) (lat_active steering_pressed : Bool)
      (hud_alert : ℕ)
      → HudControl
      → CanMessage
  pub create_acc_buttons_control :
      (bus : ℕ) (gra_stock_values : String → ℤ) (counter : ℕ) (cancel resume : Bool) → CanMessage
  pub acc_control_value : (main_switch_on acc_faulted long_active : Bool) → ℕ
  pub acc_hud_status_value : (main_switch_on acc_faulted long_active : Bool) → ℕ
  pub create_acc_accel_control : (bus : ℕ) → AccState → (acc_control : ℕ) → List CanMessage
  pub create_acc_hud_control :
      (bus acc_hud_status : ℕ) (set_speed : ℤ) (lead_distance distance : ℕ) → CanMessage
