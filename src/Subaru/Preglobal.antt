-- ===== src/Subaru/Preglobal.antt =====
-- The messages of selfdrive/car/subaru/subarucan.py for the platforms before the global one.
use openpilot9xxcivic.Prelude.{
  ℕ, ℤ, ◌+◌, ◌%◌, Bool, List, [], ◌∷◌, take, drop, String, string_comparable,
}
use openpilot9xxcivic.Can.{CanMessage, Packer, int_value, nat_value, bool_value, copied}
use openpilot9xxcivic.Subaru.Messages.{Values, put, main_bus}

abbrev pub preglobal_es_distance_signals : List String
preglobal_es_distance_signals =
    "Cruise_Throttle" ∷ "Signal1" ∷ "Car_Follow" ∷ "Signal2" ∷ "Cruise_Brake_Active"
    ∷ "Distance_Swap" ∷ "Standstill" ∷ "Signal3" ∷ "Close_Distance" ∷ "Signal4" ∷ "Standstill_2"
    ∷ "Cruise_Fault" ∷ "Signal5" ∷ "COUNTER" ∷ "Signal6" ∷ "Cruise_Button" ∷ "Signal7" ∷ []

abbrev pub sum : List ℕ → ℕ
sum [] = 0
sum (b ∷ dat) = b + sum dat

-- The sum of the bytes but the one of the checksum.
unfoldable pub byte_checksum : (dat : List ℕ) (checksum_byte : ℕ) → ℕ
byte_checksum dat checksum_byte =
    (sum (take checksum_byte dat) + sum (drop (checksum_byte + 1) dat)) % 256

module _ (packer : Packer) where
  unfoldable pub subaru_preglobal_checksum : Values → (addr : String) → ℕ
  unfolding byte_checksum
  subaru_preglobal_checksum values addr = byte_checksum (packer addr 0 values).dat 7

  -- The values with their checksum.
  abbrev pub with_checksum : Values → (addr : String) → Values
  with_checksum values addr = put "Checksum" (subaru_preglobal_checksum values addr) values

  unfoldable pub create_preglobal_steering_control :
      (frame : ℕ) (apply_steer : ℤ) (steer_req : Bool) → CanMessage
  create_preglobal_steering_control frame apply_steer steer_req = packer "ES_LKAS" main_bus (
      with_checksum
        (nat_value "COUNTER" (frame % 8)
          ∷ int_value "LKAS_Command" apply_steer
          ∷ bool_value "LKAS_Active" steer_req
          ∷ [])
        "ES_LKAS")

  unfoldable pub create_preglobal_es_distance : (cruise_button : ℕ) (msg : String → ℤ) → CanMessage
  create_preglobal_es_distance cruise_button msg = packer "ES_Distance" main_bus (
      with_checksum (put "Cruise_Button" cruise_button (copied preglobal_es_distance_signals msg))
        "ES_Distance")
