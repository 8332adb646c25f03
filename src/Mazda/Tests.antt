-- ===== src/Mazda/Tests.antt =====
-- The controller at concrete inputs.
use openpilot9xxcivic.Can.{Packer}
use openpilot9xxcivic.Prelude.{pos, true, false, []}
use openpilot9xxcivic.Mazda.{Lkas}
use openpilot9xxcivic.Mazda.Controller.{Controls}

abbrev packer : Packer
packer name bus values = record { address = 579; dat = []; bus = bus }

abbrev lkas : Lkas
lkas = record { bit_1 = 1; err_bit_1 = 0; err_bit_2 = 1 }

abbrev braking : Controls
braking = record {
  lat_active = true;
  steer = pos 500;
  cruise_cancel = true;
  cruise_resume = false;
  alert_ldw = false;
  alert_steer_required = true;
  steering_torque = pos 3000;
  brake_pressed = true;
  crz_btns_counter = 15;
  lkas_allowed_speed = true;
}
