-- ===== src/Volkswagen/Mqb.antt =====
-- The messages of selfdrive/car/volkswagen/mqbcan.py. Torques are ints; the stock values are in thousandths.
use openpilot9xxcivic.Prelude.{
  ℕ, ℤ, pos, abs, ltb_ℤ, ◌+◌, ◌%◌, Bool, not, ◌&&◌, if◌then◌else◌, Option, none, some, List, [],
  ◌∷◌, ◌++◌, String, Dict,
}
use openpilot9xxcivic.Can.{CanMessage, Packer, nat_value, bool_value, flag, copied}
use openpilot9xxcivic.Volkswagen.Messages.{HudControl, AccState, Messages}

abbrev pub eps_signals : List String
eps_signals =
    "COUNTER" ∷ "EPS_Lenkungstyp" ∷ "EPS_Berechneter_LW" ∷ "EPS_VZ_BLW" ∷ "EPS_HCA_Status" ∷ []

abbrev pub ldw_signals : List String
ldw_signals =
    "LDW_SW_Warnung_links" ∷ "LDW_SW_Warnung_rechts" ∷ "LDW_Seite_DLCTLC" ∷ "LDW_DLC" ∷ "LDW_TLC"
    ∷ []

abbrev pub gra_signals : List String
gra_signals =
    "GRA_Hauptschalter" ∷ "GRA_Typ_Hauptschalter" ∷ "GRA_Codierung" ∷ "GRA_Tip_Stufe_2"
    ∷ "GRA_ButtonTypeInfo" ∷ []

-- The stock values that are copied, or none where the message has not come yet.
abbrev pub stock : List String → Option (String → ℤ) → Dict String ℤ
stock names none = []
stock names (some msg) = copied names msg

-- `1 if x < 0 else 0`
abbrev pub sign : ℤ → ℕ
sign x = flag (ltb_ℤ x (pos 0))

-- `3 if depart else 1 + visible`
abbrev pub lane_shown : (depart visible : Bool) → ℕ
lane_shown depart visible = if depart then 3 else 1 + flag visible

unfoldable pub acc_control_value : (main_switch_on acc_faulted long_active : Bool) → ℕ
acc_control_value main_switch_on acc_faulted long_active =
    if acc_faulted then 6 else if long_active then 3 else if main_switch_on then 2 else 0

unfoldable pub steering_values : (apply_steer : ℤ) (lkas_enabled : Bool) → Dict String ℤ
steering_values apply_steer lkas_enabled =
    nat_value "HCA_01_Status_HCA" (if lkas_enabled then 5 else 3)
    ∷ nat_value "HCA_01_LM_Offset" (abs apply_steer)
    ∷ nat_value "HCA_01_LM_OffSign" (sign apply_steer)
    ∷ nat_value "HCA_01_Vib_Freq" 18
    ∷ nat_value "HCA_01_Sendestatus" (flag lkas_enabled)
    ∷ ("EA_ACC_Wunschgeschwindigkeit", pos 327360)
    ∷ []

-- The type of hold that the second acceleration message asks for.
unfoldable pub acc_hold_type : AccState → ℕ
acc_hold_type a = if a.starting then 4 else if a.esp_hold then 3 else if a.stopping then 1 else 0

module _ (packer : Packer) where
  unfoldable pub create_steering_control :
      (bus : ℕ) (apply_steer : ℤ) (lkas_enabled : Bool) → CanMessage
  unfolding steering_values
  create_steering_control bus apply_steer lkas_enabled =
      packer "HCA_01" bus (steering_values apply_steer lkas_enabled)

  -- The torque here is a float: the driver's, or twice the command.
  unfoldable pub create_eps_update :
      (bus : ℕ) (eps_stock_values : String → ℤ) (ea_simulated_torque : ℤ) → CanMessage
  create_eps_update bus eps_stock_values ea_simulated_torque = packer "LH_EPS_03" bus (
      copied eps_signals eps_stock_values
      ++ ("EPS_Lenkmoment", pos (abs ea_simulated_torque))
        ∷ nat_value "EPS_VZ_Lenkmoment" (sign ea_simulated_torque)
        ∷ [])

  unfoldable pub create_lka_hud_control :
      (bus : ℕ) (ldw_stock_values : Option (String → ℤ)) (lat_active steering_pressed : Bool)
      (hud_alert : ℕ)
      → HudControl
      → CanMessage
  create_lka_hud_control bus ldw_stock_values lat_active steering_pressed hud_alert hud =
      packer "LDW_02" bus (
        stock ldw_signals ldw_stock_values
        ++ bool_value "LDW_Status_LED_gelb" (lat_active && steering_pressed)
          ∷ bool_value "LDW_Status_LED_gruen" (lat_active && not steering_pressed)
          ∷ nat_value "LDW_Lernmodus_links" (lane_shown hud.left_lane_depart hud.left_lane_visible)
          ∷ nat_value "LDW_Lernmodus_rechts"
              (lane_shown hud.right_lane_depart hud.right_lane_visible)
          ∷ nat_value "LDW_Texte" hud_alert
          ∷ [])

  unfoldable pub create_acc_buttons_control :
      (bus : ℕ) (gra_stock_values : String → ℤ) (counter : ℕ) (cancel resume : Bool) → CanMessage
  create_acc_buttons_control bus gra_stock_values counter cancel resume = packer "GRA_ACC_01" bus (
      copied gra_signals gra_stock_values
      ++ nat_value "COUNTER" ((counter + 1) % 16)
        ∷ bool_value "GRA_Abbrechen" cancel
        ∷ bool_value "GRA_Tip_Wiederaufnahme" resume
        ∷ [])

  unfoldable pub create_acc_accel_control :
      (bus : ℕ) → AccState → (acc_control : ℕ) → List CanMessage
  unfolding acc_hold_type
  create_acc_accel_control bus a acc_control =
      let accel : ℤ = if a.acc_enabled then a.accel else pos 3010 in
      packer "ACC_06" bus (
        nat_value "ACC_Typ" a.acc_type
        ∷ nat_value "ACC_Status_ACC" acc_control
        ∷ bool_value "ACC_StartStopp_Info" a.acc_enabled
        ∷ ("ACC_Sollbeschleunigung_02", accel)
        ∷ ("ACC_zul_Regelabw_unten", pos 200)
        ∷ ("ACC_zul_Regelabw_oben", pos 200)
        ∷ nat_value "ACC_neg_Sollbeschl_Grad_02" (if a.acc_enabled then 4 else 0)
        ∷ nat_value "ACC_pos_Sollbeschl_Grad_02" (if a.acc_enabled then 4 else 0)
        ∷ bool_value "ACC_Anfahren" a.starting
        ∷ bool_value "ACC_Anhalten" a.stopping
        ∷ [])
      ∷ packer "ACC_07" bus (
          ("ACC_Anhalteweg", if a.stopping then pos 300 else pos 20460)
          ∷ nat_value "ACC_Freilauf_Info" (if a.acc_enabled then 2 else 0)
          ∷ ("ACC_Folgebeschl", pos 3020)
          ∷ ("ACC_Sollbeschleunigung_02", accel)
          ∷ nat_value "ACC_Anforderung_HMS" (acc_hold_type a)
          ∷ bool_value "ACC_Anfahren" a.starting
          ∷ bool_value "ACC_Anhalten" a.stopping
          ∷ [])
      ∷ []

  unfoldable pub create_acc_hud_control :
      (bus acc_hud_status : ℕ) (set_speed : ℤ) (lead_distance distance : ℕ) → CanMessage
  create_acc_hud_control bus acc_hud_status set_speed lead_distance distance = packer "ACC_02" bus (
      nat_value "ACC_Status_Anzeige" acc_hud_status
      ∷ ("ACC_Wunschgeschw_02", if ltb_ℤ set_speed (pos 250000) then set_speed else pos 327360)
      ∷ nat_value "ACC_Gesetzte_Zeitluecke" (distance + 2)
      ∷ nat_value "ACC_Display_Prio" 3
      ∷ nat_value "ACC_Abstandsindex" lead_distance
      ∷ [])

  abbrev pub mqbcan : Messages
  mqbcan = record {
    create_steering_control = create_steering_control;
    create_eps_update = some create_eps_update;
    create_lka_hud_control = create_lka_hud_control;
    create_acc_buttons_control = create_acc_buttons_control;
    acc_control_value = acc_control_value;
    acc_hud_status_value = acc_control_value;
    create_acc_accel_control = create_acc_accel_control;
    create_acc_hud_control = create_acc_hud_control;
  }
