-- ===== src/Subaru/Tests.antt =====
-- The Subaru's controller at concrete inputs.
use openpilot9xxcivic.Can.{CanMessage, Packer, Reader}
use openpilot9xxcivic.Prelude.{
  ℕ, ℤ, pos, abs, milli, ◌≡◌, refl, ap, ◌≤◌, ◌/◌, true, false, nat_beq, leb, if◌then◌else◌, List,
  [], ◌∷◌, String, Dict, Option, none, some, lookup, ◌==◌, string_comparable, arith, Bool-cases,
  inl, inr,
}
use openpilot9xxcivic.Clip.{max_min}
use openpilot9xxcivic.Common.FaultAvoidance.{AvoidsFault, sent_bits}
use openpilot9xxcivic.Subaru.Messages.{other_alert}
use openpilot9xxcivic.Subaru.Controller.{Car, Controls, init}
use openpilot9xxcivic.Subaru.Drive.{steering_inputs, request_bits, request_bits-AvoidsFault}
use openpilot9xxcivic.Subaru.Presses.{presses, is_unstuck, chosen, presses-is_unstuck}

abbrev first_value : ℤ → List ℤ → List ℤ → ℤ
first_value x xp [] = x
first_value x xp (v ∷ vs) = v

-- The whole part of a value in thousandths.
abbrev whole : Option ℤ → ℕ
whole none = 0
whole (some z) = abs z / 1000

whole-milli : (n : ℕ) → whole (some (milli (pos n))) ≡ n
whole-milli n = omega arith

-- A packer that writes one signal, to messages with an address of their own.
abbrev packer_of : (name signal : String) → Packer
packer_of name signal other bus values = record {
  address = if other == name then 290 else 291;
  dat = whole (lookup signal values) ∷ [];
  bus = bus;
}

abbrev first_byte : List ℕ → Option ℕ
first_byte [] = none
first_byte (b ∷ dat) = some b

abbrev read_first : CanMessage → Option ℕ
read_first m = if nat_beq m.address 290 then first_byte m.dat else none

packed_first :
    (name signal : String) (bus n max : ℕ) (values : Dict String ℤ)
    → (name == name) ≡ true
    → lookup signal values ≡ some (milli (pos n))
    → n ≤ max
    → read_first (packer_of name signal name bus values) ≡ some n
packed_first name signal bus n max values e h k = rw (e, h) (ap some (whole-milli n))

other_first :
    (name signal other : String) (bus : ℕ) (values : Dict String ℤ)
    → (other == name) ≡ false
    → read_first (packer_of name signal other bus values) ≡ none
other_first name signal other bus values h = rw h refl

diagnostic_first : (m : CanMessage) → leb 0x700 m.address ≡ true → read_first m ≡ none
diagnostic_first m h = elim (Bool-cases (nat_beq m.address 290)) [
  | inl low ↦ absurd (ground arith)
  | inr other ↦ rw other refl
]

abbrev reader_of :
    (name signal : String) (max : ℕ)
    → (name == name) ≡ true
    → Reader (packer_of name signal) name signal max
reader_of name signal max e = record {
  read = read_first;
  read_packed = λ bus n values h k. packed_first name signal bus n max values e h k;
  read_other = λ other bus values h. other_first name signal other bus values h;
  read_diagnostic = diagnostic_first;
}

abbrev lkas_packer : Packer
lkas_packer = packer_of "ES_LKAS" "LKAS_Request"

abbrev lkas_reader : Reader lkas_packer "ES_LKAS" "LKAS_Request" 1
lkas_reader = reader_of "ES_LKAS" "LKAS_Request" 1 refl

abbrev button_packer : Packer
button_packer = packer_of "ES_Distance" "Cruise_Button"

abbrev button_reader : Reader button_packer "ES_Distance" "Cruise_Button" 7
button_reader = reader_of "ES_Distance" "Cruise_Button" 7 refl

abbrev crosstrek : Car
crosstrek = record {
  global_gen2 = false;
  impreza_2020 = true;
  preglobal = false;
  steer_rate_limited = true;
  send_infotainment = true;
  disable_eyesight = false;
  hybrid = false;
  openpilot_longitudinal_control = true;
}

abbrev old_forester : Car
old_forester = record crosstrek { preglobal = true; steer_rate_limited = false }

abbrev call : Controls
call = record {
  enabled = true;
  lat_active = true;
  long_active = true;
  cancel = true;
  steer = pos 1000;
  accel = pos 500;
  visual_alert = other_alert;
  lanes = record {
    left_line = true;
    right_line = true;
    left_lane_depart = false;
    right_lane_depart = false;
  };
  lead_visible = true;
  steering_torque = pos 0;
  steering_rate_deg = pos 30000;
  cruise_available = true;
  ready = true;
  cruise_button = 0;
  es_distance_msg = λ s. pos 0;
  es_distance_counter = 3;
  es_dashstatus_msg = λ s. pos 0;
  es_lkas_state_msg = λ s. pos 0;
  es_infotainment_msg = λ s. pos 0;
  es_status_msg = λ s. pos 0;
  es_brake_msg = λ s. pos 0;
}

abbrev calls : List Controls
calls = call ∷ call ∷ call ∷ []

request_bits-AvoidsFault_example :
    let inputs = steering_inputs 0 calls in
    let bits = request_bits max_min first_value lkas_packer crosstrek lkas_reader init calls in
    AvoidsFault 7 0 inputs bits × (bits ≡ sent_bits 7 1 0 inputs)
request_bits-AvoidsFault_example =
    request_bits-AvoidsFault max_min first_value lkas_packer crosstrek lkas_reader calls refl refl

presses-is_unstuck_example :
    let pressed =
      presses max_min first_value button_packer old_forester 7 button_reader init calls in
    (is_unstuck 0 pressed ≡ true) × (pressed ≡ chosen 0 0 calls)
presses-is_unstuck_example =
    presses-is_unstuck max_min first_value button_packer old_forester 7 button_reader calls refl
      (omega arith) (omega arith, (omega arith, (omega arith, tt)))
