-- ===== src/Volkswagen/Tests.antt =====
-- The Volkswagen's controller at concrete inputs.
use openpilot9xxcivic.Can.{Packer}
use openpilot9xxcivic.Prelude.{
  ℤ, pos, ◌≤◌, ◌≤ℤ◌, ◌≡◌, ◌⊎◌, true, false, List, [], ◌∷◌, some, none, ltb, is_empty, ◌||◌,
  if◌then◌else◌,
}
use openpilot9xxcivic.Clip.{max_min}
use openpilot9xxcivic.Limits.Bounds.{IsWithin, lower, upper}
use openpilot9xxcivic.Volkswagen.Messages.{HudControl}
use openpilot9xxcivic.Volkswagen.Mqb.{mqbcan}
use openpilot9xxcivic.Volkswagen.Pq.{pqcan}
use openpilot9xxcivic.Volkswagen.Controller.{SteerInput, Controls, Car, steering_frame}
use openpilot9xxcivic.Volkswagen.Stuck.{
  after, same_run, steering_run, same_run-le, steering_frame_lem,
}
use openpilot9xxcivic.Volkswagen.Drive.{drive, history, has_messages, drive_lem}

abbrev full_left : SteerInput
full_left = record { lat_active = true; steer = pos 1000; steering_torque = pos 0 }

abbrev lat_off : SteerInput
lat_off = record { lat_active = false; steer = pos 1000; steering_torque = pos 0 }

abbrev frames : List SteerInput
frames = full_left ∷ full_left ∷ lat_off ∷ full_left ∷ []

same_run-le_example : same_run max_min false frames ≤ 96
same_run-le_example = same_run-le max_min false frames

steering_frame_lem_example :
    let s = after max_min false frames in
    let next = (steering_frame max_min false full_left s).0 in
    (IsWithin (pos 300) next.apply_steer_last)
    × ((true ≡ false) × (next.apply_steer_last ≡ pos 0)
        ⊎ (true ≡ true)
          × (lower s.apply_steer_last (pos 4) (pos 10) ≤ℤ next.apply_steer_last)
          × (next.apply_steer_last ≤ℤ upper s.apply_steer_last (pos 4) (pos 10)))
    × (next.eps_timer_soft_disable_alert
        ≡ ltb 17500 (steering_run max_min false (full_left ∷ frames)))
steering_frame_lem_example = steering_frame_lem max_min false full_left frames

abbrev packer : Packer
packer name bus values = record { address = 294; dat = 1 ∷ 2 ∷ []; bus = bus }

abbrev golf : Car
golf = record {
  pq = false;
  stock_hca_present = true;
  openpilot_longitudinal_control = true;
  pcm_cruise = true;
  camera_harness = true;
  v_ego_stopping = pos 500;
}

abbrev no_hud : HudControl
no_hud = record {
  take_over = false;
  left_lane_depart = false;
  left_lane_visible = true;
  right_lane_depart = false;
  right_lane_visible = true;
  lead_visible = false;
  set_speed = pos 20000;
  lead_distance_bars = 2;
}

abbrev call : Controls
call = record {
  steer_input = full_left;
  steering_pressed = false;
  long_active = true;
  accel = pos 1000;
  long_stopping = false;
  long_pid = true;
  cruise_cancel = false;
  cruise_resume = false;
  hud = no_hud;
  cruise_available = true;
  acc_faulted = false;
  esp_hold_confirmation = false;
  v_ego = pos 15000;
  acc_type = 0;
  upscale_lead_car_signal = false;
  eps_stock_values = λ s. pos 0;
  ldw_stock_values = some (λ s. pos 0);
  gra_stock_values = λ s. pos 0;
  gra_counter = 3;
}

abbrev to_kph : ℤ → ℤ
to_kph v = v

drive_lem_example : drive max_min to_kph golf (mqbcan packer) (call ∷ call ∷ call ∷ []) ≡ (
    if is_empty (call ∷ call ∷ call ∷ []) || has_messages max_min to_kph golf (mqbcan packer)
    then some (history max_min to_kph golf (mqbcan packer) (call ∷ call ∷ call ∷ []))
    else none)
drive_lem_example = drive_lem max_min to_kph golf (mqbcan packer) (call ∷ call ∷ call ∷ [])

-- A car with stock lane keeping cannot be driven with the messages of pqcan.py.
pq_raises : drive max_min to_kph golf (pqcan packer) (call ∷ []) ≡ none
pq_raises = drive_lem max_min to_kph golf (pqcan packer) (call ∷ [])
