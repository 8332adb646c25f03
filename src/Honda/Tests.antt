-- ===== src/Honda/Tests.antt =====
-- The controller at concrete inputs.
use openpilot9xxcivic.Can.{CanMessage, Packer}
use openpilot9xxcivic.Prelude.{
  ℤ, pos, negsuc, ◌*ℤ◌, ◌*◌, ◌/◌, ◌≡◌, ◌≢◌, refl, true, List, [], ◌∷◌, ◌++◌, some, arith,
}
use openpilot9xxcivic.Clip.{max_min}
use openpilot9xxcivic.Honda.{Floats, CarController, Controls, calc_checksum_8bit, add_bytes}
use openpilot9xxcivic.Honda.Controller.{Actuators, update}
use openpilot9xxcivic.Honda.Checksum.{calc_checksum_8bit_detects}
use openpilot9xxcivic.Honda.Run.{after, IsWeak, update-IsWeak, zero_mul}

abbrev first_value : ℤ → List ℤ → List ℤ → ℤ
first_value x xp [] = x
first_value x xp (v ∷ vs) = v

-- The quotient of positive numbers in thousandths.
abbrev quotient : ℤ → ℤ → ℤ
quotient (pos m) (pos n) = pos (m * 1000 / n)
quotient x y = pos 0

quotient_zero : (y : ℤ) → quotient (pos 0) y ≡ pos 0
quotient_zero (pos n) = ground arith
quotient_zero (negsuc n) = refl

abbrev floats : Floats
floats = record {
  interp = first_value;
  times = λ x y. x *ℤ y;
  divided = quotient;
  times_zero = zero_mul;
  divided_zero = quotient_zero;
}

abbrev packer : Packer
packer name bus values = record { address = 558; dat = 1 ∷ 2 ∷ []; bus = bus }

abbrev full_left : Controls
full_left = record {
  lat_active = true;
  steer = pos 1000;
  steering_angle_deg = pos 90000;
  measured_angle_deg = pos 1000;
  v_ego = pos 10000;
}

update-IsWeak_example :
    (s : CarController) × (next : CarController) × (out : Actuators × List CanMessage) × (after
        max_min floats
        (pos 17)
        packer
        (full_left ∷ full_left ∷ [])
      ≡ some s)
    × (update max_min floats (pos 17) packer s full_left ≡ some (next, out.0, out.1))
    × IsWeak max_min floats (pos 17) packer s full_left next out
update-IsWeak_example =
    update-IsWeak max_min floats (pos 17) packer full_left (full_left ∷ full_left ∷ [])

calc_checksum_8bit_detects_example :
    calc_checksum_8bit ((1 ∷ []) ++ 7 ∷ 9 ∷ []) 558
    ≢ calc_checksum_8bit ((1 ∷ []) ++ 200 ∷ 9 ∷ []) 558
calc_checksum_8bit_detects_example =
    calc_checksum_8bit_detects (1 ∷ []) (9 ∷ []) 7 200 558 (omega arith) (omega arith)

-- A change from 0 to 255 goes unseen.
unseen : calc_checksum_8bit (0 ∷ []) 558 ≡ calc_checksum_8bit (255 ∷ []) 558
unfolding calc_checksum_8bit add_bytes
unseen = refl
