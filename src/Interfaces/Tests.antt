-- ===== src/Interfaces/Tests.antt =====
-- Runs of the filters, and the theorems at concrete inputs.
use openpilot9xxcivic.Prelude.{
  ℕ, pos, ◌≡◌, refl, Bool, true, false, not, ◌&&◌, ◌||◌, if◌then◌else◌, List, [], ◌∷◌, Option, none,
  some, arith, nat_comparable, nat_beq,
}
use openpilot9xxcivic.Clip.{max_min}
use openpilot9xxcivic.Interfaces.Blinkers.{
  off, update_blinker_from_stalk, released, countdown, update_blinker_from_stalk_touch,
}
use openpilot9xxcivic.Interfaces.Pressed.{
  update_steering_pressed, pressed_frames, held_for, update_steering_pressed_debounce,
}
use openpilot9xxcivic.Interfaces.Events.{
  CarState, Options, steer_fault_events, create_common_events, steer_temp_unavailable,
  steer_temp_unavailable_silent,
}
use openpilot9xxcivic.Interfaces.Faults.{
  Frame, init, after, is_held, is_softened, steer_fault_events_lem,
}
use openpilot9xxcivic.Interfaces.Engagement.{engaged, engaged-create_common_events}
use openpilot9xxcivic.Interfaces.Cluster.{Interface, Parser, frames, shown, IsShown, update_cluster}
use openpilot9xxcivic.Interfaces.Cluster
use openpilot9xxcivic.Interfaces.Pedals.{Pedals, update_events, drive, all_free, drive_free}

update_blinker_from_stalk_touch_example :
    let out = update_blinker_from_stalk 3 true false off in
    (out.1 ≡ true)
    × (out.2 ≡ false)
    × (out.0.right_blinker_cnt ≡ 0)
    × (released 3 4 out.0 ≡ countdown 2 4)
update_blinker_from_stalk_touch_example = update_blinker_from_stalk_touch 3 4 off refl

-- A touch with `blinker_time` 3: on in the frame itself and in one more.
touched_three :
    released 3 3 (update_blinker_from_stalk 3 true false off).0 ≡ true ∷ false ∷ false ∷ []
unfolding released update_blinker_from_stalk
touched_three = refl

update_steering_pressed_debounce_example :
    ((update_steering_pressed max_min true 5 (pressed_frames max_min 5 (held_for true 6 []))).1
      ≡ true)
    × ((update_steering_pressed max_min false 5 (pressed_frames max_min 5 (held_for false 5 []))).1
        ≡ false)
update_steering_pressed_debounce_example =
    update_steering_pressed_debounce max_min 5 6 [] (omega arith) (omega arith)

abbrev fault_now : Frame
fault_now = record { fault = true; pressed = false; standstill = false }

abbrev no_fault : Frame
no_fault = record { fault = false; pressed = true; standstill = false }

steer_fault_events_lem_example :
    (steer_fault_events true false false false (after (no_fault ∷ []))).1 ≡ (
      if true && not (is_held (fault_now ∷ no_fault ∷ []))
      then (if is_softened (fault_now ∷ no_fault ∷ [])
          then steer_temp_unavailable_silent
          else steer_temp_unavailable)
        ∷ []
      else [])
steer_fault_events_lem_example = steer_fault_events_lem fault_now (no_fault ∷ [])

abbrev cruising : Bool → CarState ℕ ℕ
cruising enabled = record {
  door_open = false;
  seatbelt_unlatched = false;
  gear_shifter = 4;
  cruise_available = true;
  cruise_enabled = enabled;
  cruise_non_adaptive = false;
  esp_disabled = false;
  esp_active = false;
  stock_fcw = false;
  stock_aeb = false;
  v_ego = pos 20000;
  standstill = false;
  brake_hold_active = false;
  parking_brake = false;
  acc_faulted = false;
  steering_pressed = true;
  brake_pressed = false;
  gas_pressed = true;
  button_events = record { pressed = true; type = 2 } ∷ [];
  steer_fault_temporary = true;
  steer_fault_permanent = false;
}

abbrev options : Options ℕ ℕ
options = record {
  openpilot_longitudinal_control = true;
  pcm_cruise = true;
  extra_gears = none;
  pcm_enable = true;
  allow_enable = true;
  enable_buttons = 3 ∷ 4 ∷ [];
}

engaged-create_common_events_example :
    engaged false
      (create_common_events 4 3 2 (pos 41389) options (cruising true) (cruising false) init).1
    ≡ (true && (false || true))
engaged-create_common_events_example =
    engaged-create_common_events 4 3 2 (pos 41389) options (cruising true) (cruising false) init

abbrev at_speed : ℕ → ℕ → Cluster.CarState
at_speed v_ego cluster = record {
  v_ego = pos v_ego;
  v_ego_cluster = pos cluster;
  speed = pos 0;
  speed_cluster = pos 0;
  can_valid = true;
  can_timeout = false;
}

abbrev parsers : List (Option Parser)
parsers = some (record { can_valid = true; bus_timeout = false }) ∷ none ∷ []

abbrev start : Interface
start = record {
  v_ego_cluster_seen = false;
  cluster_speed_hyst_gap = 500;
  cluster_min_speed = 1000;
  out = at_speed 0 0;
}

update_cluster_example :
    IsShown false 500
      (shown (at_speed 10000 10300) ((parsers, at_speed 9000 0) ∷ []))
      (frames start
        ((parsers, at_speed 10000 10300) ∷ (parsers, at_speed 9000 0) ∷ [])).out.v_ego_cluster
update_cluster_example =
    update_cluster start parsers (at_speed 10000 10300) ((parsers, at_speed 9000 0) ∷ []) refl

abbrev coasting : Pedals
coasting = record {
  gas_pressed = true;
  brake_pressed = false;
  regen_braking = false;
  standstill = false;
}

drive_free_example : all_free 7 (nat_beq 7) false ((coasting, 3 ∷ []) ∷ (coasting, []) ∷ []) ≡ true
unfolding drive update_events
drive_free_example =
    drive_free 7 (nat_beq 7) false coasting ((coasting, 3 ∷ []) ∷ (coasting, []) ∷ []) refl refl
      refl
