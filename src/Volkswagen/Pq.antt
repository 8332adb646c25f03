-- ===== src/Volkswagen/Pq.antt =====
-- The messages of selfdrive/car/volkswagen/pqcan.py.
use openpilot9xxcivic.Prelude.{
  ℕ, ℤ, pos, abs, ◌+◌, ◌%◌, Bool, not, ◌&&◌, nat_beq, if◌then◌else◌, Option, none, List, [], ◌∷◌,
  ◌++◌, String, Dict,
}
use openpilot9xxcivic.Can.{CanMessage, Packer, nat_value, bool_value, copied}
use openpilot9xxcivic.Volkswagen.Messages.{HudControl, AccState, Messages}
use openpilot9xxcivic.Volkswagen.Mqb.{ldw_signals, stock, sign, lane_shown}

abbrev pub gra_signals : List String
gra_signals = "GRA_Hauptschalt" ∷ "GRA_Typ_Hauptschalt" ∷ "GRA_Kodierinfo" ∷ "GRA_Sender" ∷ []

unfoldable pub acc_control_value : (main_switch_on acc_faulted long_active : Bool) → ℕ
acc_control_value main_switch_on acc_faulted long_active =
    if long_active then 1 else if main_switch_on then 2 else 0

unfoldable pub acc_hud_status_value : (main_switch_on acc_faulted long_active : Bool) → ℕ
acc_hud_status_value main_switch_on acc_faulted long_active =
    if acc_faulted then 6 else if long_active then 3 else if main_switch_on then 2 else 0

unfoldable pub steering_values : (apply_steer : ℤ) (lkas_enabled : Bool) → Dict String ℤ
steering_values apply_steer lkas_enabled =
    nat_value "LM_Offset" (abs apply_steer)
    ∷ nat_value "LM_OffSign" (sign apply_steer)
    ∷ nat_value "HCA_Status" (if lkas_enabled && not (nat_beq (abs apply_steer) 0) then 5 else 3)
    ∷ nat_value "Vib_Freq" 16
    ∷ []

module _ (packer : Packer) where
  unfoldable pub create_steering_control :
      (bus : ℕ) (apply_steer : ℤ) (lkas_enabled : Bool) → CanMessage
  unfolding steering_values
  create_steering_control bus apply_steer lkas_enabled =
      packer "HCA_1" bus (steering_values apply_steer lkas_enabled)

  unfoldable pub create_lka_hud_control :
      (bus : ℕ) (ldw_stock_values : Option (String → ℤ)) (lat_active steering_pressed : Bool)
      (hud_alert : ℕ)
      → HudControl
      → CanMessage
  create_lka_hud_control bus ldw_stock_values lat_active steering_pressed hud_alert hud =
      packer "LDW_Status" bus (
        stock ldw_signals ldw_stock_values
        ++ bool_value "LDW_Lampe_gelb" (lat_active && steering_pressed)
          ∷ bool_value "LDW_Lampe_gruen" (lat_active && not steering_pressed)
          ∷ nat_value "LDW_Lernmodus_links" (lane_shown hud.left_lane_depart hud.left_lane_visible)
          ∷ nat_value "LDW_Lernmodus_rechts"
              (lane_shown hud.right_lane_depart hud.right_lane_visible)
          ∷ nat_value "LDW_Textbits" hud_alert
          ∷ [])

  unfoldable pub create_acc_buttons_control :
      (bus : ℕ) (gra_stock_values : String → ℤ) (counter : ℕ) (cancel resume : Bool) → CanMessage
  create_acc_buttons_control bus gra_stock_values counter cancel resume = packer "GRA_Neu" bus (
      copied gra_signals gra_stock_values
      ++ nat_value "COUNTER" ((counter + 1) % 16)
        ∷ bool_value "GRA_Abbrechen" cancel
        ∷ bool_value "GRA_Recall" resume
        ∷ [])

  unfoldable pub create_acc_accel_control :
      (bus : ℕ) → AccState → (acc_control : ℕ) → List CanMessage
  create_acc_accel_control bus a acc_control =
      packer "ACC_System" bus (
        nat_value "ACS_Sta_ADR" acc_control
        ∷ bool_value "ACS_StSt_Info" a.acc_enabled
        ∷ nat_value "ACS_Typ_ACC" a.acc_type
        ∷ bool_value "ACS_Anhaltewunsch" (nat_beq a.acc_type 1 && a.stopping)
        ∷ bool_value "ACS_FreigSollB" a.acc_enabled
        ∷ ("ACS_Sollbeschl", if a.acc_enabled then a.accel else pos 3010)
        ∷ ("ACS_zul_Regelabw", if a.acc_enabled then pos 200 else pos 1270)
        ∷ ("ACS_max_AendGrad", if a.acc_enabled then pos 3000 else pos 5080)
        ∷ [])
      ∷ []

  unfoldable pub create_acc_hud_control :
      (bus acc_hud_status : ℕ) (set_speed : ℤ) (lead_distance distance : ℕ) → CanMessage
  create_acc_hud_control bus acc_hud_status set_speed lead_distance distance =
      packer "ACC_GRA_Anzeige" bus (
        nat_value "ACA_StaACC" acc_hud_status
        ∷ nat_value "ACA_Zeitluecke" (distance + 2)
        ∷ ("ACA_V_Wunsch", set_speed)
        ∷ nat_value "ACA_gemZeitl" lead_distance
        ∷ nat_value "ACA_PrioDisp" 3
        ∷ [])

  abbrev pub pqcan : Messages
  pqcan = record {
    create_steering_control = create_steering_control;
    create_eps_update = none;
    create_lka_hud_control = create_lka_hud_control;
    create_acc_buttons_control = create_acc_buttons_control;
    acc_control_value = acc_control_value;
    acc_hud_status_value = acc_hud_status_value;
    create_acc_accel_control = create_acc_accel_control;
    create_acc_hud_control = create_acc_hud_control;
  }
