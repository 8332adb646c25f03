-- ===== src/Tesla.antt =====
-- The port of Tesla: the messages of selfdrive/car/tesla/teslacan.py. The CRC is crcmod's, a parameter.
pub mod Controller
pub mod Run
use openpilot9xxcivic.Prelude.{
  ℕ, ℤ, pos, milli, neg, ◌*ℤ◌, ◌+◌, ◌/◌, ◌%◌, Bool, if◌then◌else◌, List, [], ◌∷◌, take, String,
  Dict, insert, string_comparable,
}
use openpilot9xxcivic.Can.{CanMessage, Packer, int_value, nat_value, bool_value, flag, copied}

abbrev pub chassis : ℕ
chassis = 0

abbrev pub autopilot_chassis : ℕ
autopilot_chassis = 2

abbrev pub powertrain : ℕ
powertrain = 4

abbrev pub sum : List ℕ → ℕ
sum [] = 0
sum (b ∷ bytes) = b + sum bytes

unfoldable pub checksum : (msg_id : ℕ) (dat : List ℕ) → ℕ
checksum msg_id dat = (msg_id % 256 + msg_id / 256 % 256 + sum dat) % 256

abbrev pub action_signals : List String
action_signals =
    "SpdCtrlLvr_Stat" ∷ "VSL_Enbl_Rq" ∷ "SpdCtrlLvrStat_Inv" ∷ "DTR_Dist_Rq" ∷ "TurnIndLvr_Stat"
    ∷ "HiBmLvr_Stat" ∷ "WprWashSw_Psd" ∷ "WprWash_R_Sw_Posn_V2" ∷ "StW_Lvr_Stat" ∷ "StW_Cond_Flt"
    ∷ "StW_Cond_Psd" ∷ "HrnSw_Psd" ∷ "StW_Sw00_Psd" ∷ "StW_Sw01_Psd" ∷ "StW_Sw02_Psd"
    ∷ "StW_Sw03_Psd" ∷ "StW_Sw04_Psd" ∷ "StW_Sw05_Psd" ∷ "StW_Sw06_Psd" ∷ "StW_Sw07_Psd"
    ∷ "StW_Sw08_Psd" ∷ "StW_Sw09_Psd" ∷ "StW_Sw10_Psd" ∷ "StW_Sw11_Psd" ∷ "StW_Sw12_Psd"
    ∷ "StW_Sw13_Psd" ∷ "StW_Sw14_Psd" ∷ "StW_Sw15_Psd" ∷ "WprSw6Posn" ∷ "MC_STW_ACTN_RQ"
    ∷ "CRC_STW_ACTN_RQ" ∷ []

-- What a longitudinal command says. `set_speed` is in ten-thousandths of a kilometre per hour.
unfoldable pub das_control_values :
    (acc_state : ℕ) (speed min_accel max_accel : ℤ) (cnt : ℕ) → Dict String ℤ
das_control_values acc_state speed min_accel max_accel cnt =
    ("DAS_setSpeed", speed *ℤ pos 36)
    ∷ nat_value "DAS_accState" acc_state
    ∷ nat_value "DAS_aebEvent" 0
    ∷ int_value "DAS_jerkMin" (neg (pos 8))
    ∷ nat_value "DAS_jerkMax" 8
    ∷ ("DAS_accelMin", min_accel)
    ∷ ("DAS_accelMax", max_accel)
    ∷ nat_value "DAS_controlCounter" cnt
    ∷ nat_value "DAS_controlChecksum" 0
    ∷ []

module _ (packer pt_packer : Packer) (crc : List ℕ → ℕ) where
  -- The angle is in thousandths.
  unfoldable pub create_steering_control : (angle : ℤ) (enabled : Bool) (counter : ℕ) → CanMessage
  unfolding checksum
  create_steering_control angle enabled counter =
      let values =
        ("DAS_steeringAngleRequest", neg angle)
        ∷ nat_value "DAS_steeringHapticRequest" 0
        ∷ bool_value "DAS_steeringControlType" enabled
        ∷ nat_value "DAS_steeringControlCounter" counter
        ∷ [] in
      let dat = (packer "DAS_steeringControl" chassis values).dat in
      packer "DAS_steeringControl" chassis
        (insert "DAS_steeringControlChecksum" (milli (pos (checksum 0x488 (take 3 dat)))) values)

  -- The values of a copied message, with a pressed cancel.
  abbrev pub action_values :
      (msg_stw_actn_req : String → ℤ) (cancel : Bool) (counter : ℕ) → Dict String ℤ
  action_values msg_stw_actn_req cancel counter =
      let values = copied action_signals msg_stw_actn_req in
      if cancel
      then insert "MC_STW_ACTN_RQ" (milli (pos counter))
          (insert "SpdCtrlLvr_Stat" (milli (pos 1)) values)
      else values

  unfoldable pub create_action_request :
      (msg_stw_actn_req : String → ℤ) (cancel : Bool) (bus counter : ℕ) → CanMessage
  create_action_request msg_stw_actn_req cancel bus counter =
      let values = action_values msg_stw_actn_req cancel counter in
      let dat = (packer "STW_ACTN_RQ" bus values).dat in
      packer "STW_ACTN_RQ" bus (insert "CRC_STW_ACTN_RQ" (milli (pos (crc (take 7 dat)))) values)

  -- `values` after a round of the loop, for one packer and bus.
  unfoldable pub signed_values : Packer → (bus : ℕ) → Dict String ℤ → Dict String ℤ
  unfolding checksum
  signed_values p bus values =
      insert "DAS_controlChecksum"
        (milli (pos (checksum 0x2b9 (take 7 (p "DAS_control" bus values).dat)))) values

  -- The second round signs the values that the first one has left, with its checksum.
  unfoldable pub create_longitudinal_commands :
      (acc_state : ℕ) (speed min_accel max_accel : ℤ) (cnt : ℕ) → List CanMessage
  unfolding das_control_values signed_values
  create_longitudinal_commands acc_state speed min_accel max_accel cnt =
      let first =
        signed_values packer chassis (das_control_values acc_state speed min_accel max_accel cnt) in
      packer "DAS_control" chassis first
      ∷ pt_packer "DAS_control" powertrain (signed_values pt_packer powertrain first)
      ∷ []
