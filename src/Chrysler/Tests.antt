-- ===== src/Chrysler/Tests.antt =====
-- The Chrysler's controller at concrete inputs.
use openpilot9xxcivic.Can.{Packer}
use openpilot9xxcivic.Prelude.{
  ℕ, zero, suc, pos, ◌<◌, refl, not, ◌&&◌, ◌||◌, true, false, List, [], ◌∷◌,
}
use openpilot9xxcivic.Clip.{max_min}
use openpilot9xxcivic.Chrysler.Controller.{
  Car, Controls, init, update, steered, lkas_control_bit, wanted_bit,
}
use openpilot9xxcivic.Chrysler.Edges.{after, control_bit, off_run, control_bit_lem}
use openpilot9xxcivic.Chrysler.Bounds.{IsLimited, apply_steer-IsLimited}

abbrev packer : Packer
packer name bus values = record { address = 658; dat = 1 ∷ 2 ∷ []; bus = bus }

abbrev pacifica : Car
pacifica = record {
  ram_hd = false;
  ram_dt = false;
  higher_min_steering_speed = false;
  min_steer_speed = pos 3800;
}

abbrev call : Controls
call = record {
  lat_active = true;
  cancel = false;
  resume = false;
  hud_alert = false;
  steer = pos 1000;
  steering_torque_eps = pos 0;
  v_ego = pos 20000;
  button_counter = 3;
  lkas_car_model = pos 5;
  auto_high_beam = pos 0;
}

abbrev calls : ℕ → List Controls
calls zero = []
calls (suc n) = call ∷ calls n

-- At a constant speed the bit goes on in call 203.
control_bit_lem_example : 200 < off_run max_min packer pacifica (calls 202)
unfolding after init update steered lkas_control_bit wanted_bit
control_bit_lem_example = control_bit_lem max_min packer pacifica call (calls 202) refl refl

apply_steer-IsLimited_example :
    IsLimited max_min packer pacifica
      (not (true && control_bit max_min packer pacifica (call ∷ call ∷ []))
        || not (control_bit max_min packer pacifica (call ∷ call ∷ call ∷ [])))
      (after max_min packer pacifica (call ∷ call ∷ [])).apply_steer_last
      (after max_min packer pacifica (call ∷ call ∷ call ∷ [])).apply_steer_last
unfolding after init update steered
apply_steer-IsLimited_example =
    apply_steer-IsLimited max_min packer pacifica call (call ∷ call ∷ []) refl
