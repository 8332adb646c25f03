-- ===== src/Nissan/Tests.antt =====
-- The Nissan's controller at concrete inputs.
use openpilot9xxcivic.Can.{Packer}
use openpilot9xxcivic.Prelude.{
  ℕ, ℤ, pos, ◌≤ℤ◌, ◌≡◌, true, false, is_empty, Every, List, [], ◌∷◌, arith,
}
use openpilot9xxcivic.Limits.Angle.{Interp}
use openpilot9xxcivic.Nissan.Controller.{Controls}

abbrev first_value : ℤ → List ℤ → List ℤ → ℤ
first_value x xp [] = pos 0
first_value x xp (v ∷ vs) = v

first_value_bounds :
    (x : ℤ) (xp fp : List ℤ) (lo hi : ℤ)
    → is_empty fp ≡ false
    → Every (λ y. (lo ≤ℤ y) × (y ≤ℤ hi)) fp
    → (lo ≤ℤ first_value x xp fp) × (first_value x xp fp ≤ℤ hi)
first_value_bounds x xp [] lo hi e h = absurd (ground arith)
first_value_bounds x xp (v ∷ vs) lo hi e h = h.0

abbrev first_interp : Interp
first_interp = record { interp = first_value; interp_bounds = first_value_bounds }

abbrev packer : Packer
packer name bus values = record { address = 361; dat = 1 ∷ 2 ∷ []; bus = bus }

abbrev no_checksum : List ℕ → ℕ
no_checksum dat = 0

abbrev to_milli : ℤ → ℤ
to_milli t = t

abbrev call : Controls
call = record {
  enabled = true;
  lat_active = true;
  cancel = false;
  steer_hud_alert = false;
  left_lane_visible = true;
  right_lane_visible = true;
  left_lane_depart = false;
  right_lane_depart = false;
  target_angle_deg = pos 40000;
  v_ego_raw = pos 10000;
  steering_pressed = true;
  steering_torque = pos 1500;
  steering_angle_deg = pos 1000;
  cruise_throttle_msg = λ s. pos 0;
  cancel_msg = λ s. pos 0;
  lkas_hud_msg = λ s. pos 0;
  lkas_hud_info_msg = λ s. pos 0;
}
