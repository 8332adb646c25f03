-- ===== src/Volkswagen/Controller.antt =====
-- `CarController.update` of selfdrive/car/volkswagen/carcontroller.py. Torques of the driver, accelerations and
-- speeds are in thousandths; times are counted in frames of 10 ms.
use mathlib.Core.Option
use openpilot9xxcivic.Prelude.{
  ℕ, ℤ, pos, neg, abs, milli, int_round, ◌-ℤ◌, ◌*ℤ◌, ltb_ℤ, ltb, ◌+◌, ◌%◌, Bool, false, not, ◌&&◌,
  ◌||◌, nat_beq, if◌then◌else◌, Option, none, some, List, [], ◌∷◌, ◌++◌, String, ◌==◌,
  option_comparable, nat_comparable,
}
use openpilot9xxcivic.Can.{CanMessage}
use openpilot9xxcivic.Clip.{Clip}
use openpilot9xxcivic.Limits.{SteerLimits, apply_driver_steer_torque_limits}
use openpilot9xxcivic.Volkswagen.Messages.{HudControl, Messages}

-- `CarControllerParams`, which differ between the two networks.
unfoldable pub params : (pq : Bool) → SteerLimits
params pq = record {
  steer_max = 300;
  steer_delta_up = if pq then 6 else 4;
  steer_delta_down = 10;
  steer_error_max = 0;
  steer_driver_allowance = 80;
  steer_driver_factor = 1;
  steer_driver_multiplier = 3;
}

abbrev pub steer_step : ℕ
steer_step = 2

-- `STEER_TIME_STUCK_TORQUE / DT_CTRL` and `STEER_TIME_ALERT / DT_CTRL`
abbrev pub stuck_frames : ℕ
stuck_frames = 190

abbrev pub alert_frames : ℕ
alert_frames = 35000

-- The fields that the steering reads and writes.
pub record Hca : Type 0 where
  pub apply_steer_last : ℤ
  pub hca_frame_timer_running : ℕ
  pub hca_frame_same_torque : ℕ
  pub eps_timer_soft_disable_alert : Bool

-- What the steering reads of `CC` and `CS`.
pub record SteerInput : Type 0 where
  pub lat_active : Bool
  pub steer : ℤ
  pub steering_torque : ℤ

unfoldable pub init_hca : Hca
init_hca = record {
  apply_steer_last = pos 0;
  hca_frame_timer_running = 0;
  hca_frame_same_torque = 0;
  eps_timer_soft_disable_alert = false;
}

-- `(1, -1)[apply_steer < 0]`
abbrev pub toward_zero : ℤ → ℤ
toward_zero apply_steer = if ltb_ℤ apply_steer (pos 0) then neg (pos 1) else pos 1

abbrev pub int_eq : ℤ → ℤ → Bool
int_eq x y = not (ltb_ℤ x y) && not (ltb_ℤ y x)

-- The command while lateral control is on, from the limited torque: the torque and the new count of
-- frames with the same torque.
unfoldable pub avoid_stuck : (limited : ℤ) → Hca → ℤ × ℕ
avoid_stuck limited s =
    if int_eq s.apply_steer_last limited
    then (if ltb stuck_frames (s.hca_frame_same_torque + steer_step)
        then (limited -ℤ toward_zero limited, 0)
        else (limited, s.hca_frame_same_torque + steer_step))
    else (limited, 0)

module _ (np : Clip) (pq : Bool) where
  unfoldable pub limited_torque : SteerInput → Hca → ℤ
  limited_torque c s =
      apply_driver_steer_torque_limits np (milli (int_round (c.steer *ℤ pos (params pq).steer_max)))
        s.apply_steer_last c.steering_torque (params pq)

  -- A steering frame: the new fields, and whether the rack is to steer.
  unfoldable pub steering_frame : SteerInput → Hca → Hca × Bool
  unfolding limited_torque avoid_stuck
  steering_frame c s =
      let (moved, same) = avoid_stuck (limited_torque c s) s in
      let apply_steer : ℤ = if c.lat_active then moved else pos 0 in
      let hca_enabled = c.lat_active && ltb 0 (abs apply_steer) in
      let running : ℕ = if hca_enabled then s.hca_frame_timer_running + steer_step else 0 in
      (
        record {
          apply_steer_last = apply_steer;
          hca_frame_timer_running = running;
          hca_frame_same_torque = if c.lat_active then same else s.hca_frame_same_torque;
          eps_timer_soft_disable_alert = ltb alert_frames running;
        },
        hca_enabled,
      )

-- The rest of `self` and what the class takes from `CP`.
pub record CarController : Type 0 where
  pub hca : Hca
  pub gra_acc_counter_last : Option ℕ
  pub frame : ℕ

pub record Car : Type 0 where
  pub pq : Bool
  pub stock_hca_present : Bool
  pub openpilot_longitudinal_control : Bool
  pub pcm_cruise : Bool
  pub camera_harness : Bool
  pub v_ego_stopping : ℤ

unfoldable pub init : CarController
unfolding init_hca
init = record { hca = init_hca; gra_acc_counter_last = none; frame = 0 }

-- What the rest of `update` reads of `CC` and `CS`.
pub record Controls : Type 0 where
  pub steer_input : SteerInput
  pub steering_pressed : Bool
  pub long_active : Bool
  pub accel : ℤ
  pub long_stopping : Bool
  pub long_pid : Bool
  pub cruise_cancel : Bool
  pub cruise_resume : Bool
  pub hud : HudControl
  pub cruise_available : Bool
  pub acc_faulted : Bool
  pub esp_hold_confirmation : Bool
  pub v_ego : ℤ
  pub acc_type : ℕ
  pub upscale_lead_car_signal : Bool
  pub eps_stock_values : String → ℤ
  pub ldw_stock_values : Option (String → ℤ)
  pub gra_stock_values : String → ℤ
  pub gra_counter : ℕ

-- The buses of `CANBUS`.
abbrev pub pt_bus : ℕ
pt_bus = 0

abbrev pub cam_bus : ℕ
cam_bus = 2

module _ (np : Clip) (ms_to_kph : ℤ → ℤ) (car : Car) (ccs : Messages) where
  open np use {clip}

  -- Twice the command within the actuator's range, or the driver's torque if that is greater.
  unfoldable pub ea_simulated_torque : (apply_steer : ℤ) → SteerInput → ℤ
  ea_simulated_torque apply_steer c =
      let simulated = clip (milli (apply_steer *ℤ pos 2)) (neg (pos 300000)) (pos 300000) in
      if ltb (abs simulated) (abs c.steering_torque) then c.steering_torque else simulated

  -- The message for the rack, if the module has it; `none` is the `AttributeError`.
  abbrev pub eps_message : (apply_steer : ℤ) → Controls → Option (List CanMessage)
  eps_message apply_steer c = elim ccs.create_eps_update [
    | none ↦ none
    | some create ↦
        some
          (create cam_bus c.eps_stock_values (ea_simulated_torque apply_steer c.steer_input) ∷ [])
  ]

  unfoldable pub steering_messages :
      (hca : Hca) (hca_enabled : Bool) → Controls → Option (List CanMessage)
  unfolding ea_simulated_torque
  steering_messages hca hca_enabled c =
      let command = ccs.create_steering_control pt_bus hca.apply_steer_last hca_enabled in
      if car.stock_hca_present
      then Option.map (λ eps. command ∷ eps) (eps_message hca.apply_steer_last c)
      else some (command ∷ [])

  unfoldable pub acc_messages : Controls → List CanMessage
  acc_messages c =
      ccs.create_acc_accel_control pt_bus
        (record {
          acc_type = c.acc_type;
          acc_enabled = c.long_active;
          accel = if c.long_active then clip c.accel (neg (pos 3500)) (pos 2000) else pos 0;
          stopping = c.long_stopping;
          starting = c.long_pid && (c.esp_hold_confirmation || ltb_ℤ c.v_ego car.v_ego_stopping);
          esp_hold = c.esp_hold_confirmation;
        })
        (ccs.acc_control_value c.cruise_available c.acc_faulted c.long_active)

  -- `self.CCP.LDW_MESSAGES["laneAssistTakeOver"]`: the table of a PQ network and the one of an MQB network.
  abbrev pub lane_assist_take_over : ℕ
  lane_assist_take_over = if car.pq then 4 else 8

  unfoldable pub ldw_message : Controls → CanMessage
  ldw_message c =
      ccs.create_lka_hud_control pt_bus c.ldw_stock_values c.steer_input.lat_active
        c.steering_pressed (if c.hud.take_over then lane_assist_take_over else 0) c.hud

  unfoldable pub acc_hud_message : (frame : ℕ) → Controls → CanMessage
  acc_hud_message frame c =
      let lead_distance : ℕ =
        if c.hud.lead_visible && ltb 100 frame
        then (if c.upscale_lead_car_signal then 512 else 8)
        else 0 in
      ccs.create_acc_hud_control pt_bus
        (ccs.acc_hud_status_value c.cruise_available c.acc_faulted c.long_active)
        (ms_to_kph c.hud.set_speed) lead_distance c.hud.lead_distance_bars

  unfoldable pub button_messages : CarController → Controls → List CanMessage
  button_messages s c =
      let gra_send_ready = car.pcm_cruise && not (some c.gra_counter == s.gra_acc_counter_last) in
      if gra_send_ready && (c.cruise_cancel || c.cruise_resume)
      then ccs.create_acc_buttons_control (if car.camera_harness then pt_bus else cam_bus)
          c.gra_stock_values c.gra_counter c.cruise_cancel c.cruise_resume
        ∷ []
      else []

  -- `if self.frame % step == 0`
  abbrev pub at_step : (frame step : ℕ) → Bool
  at_step frame step = nat_beq (frame % step) 0

  abbrev pub steered : CarController → Controls → Hca × Bool
  steered s c =
      if at_step s.frame steer_step
      then steering_frame np car.pq c.steer_input s.hca
      else (s.hca, false)

  -- The messages of a call, in their order.
  unfoldable pub can_sends : CarController → Controls → Option (List CanMessage)
  unfolding steering_messages acc_messages ldw_message acc_hud_message button_messages
  can_sends s c =
      let (hca, hca_enabled) = steered s c in
      let steering =
        if at_step s.frame steer_step then steering_messages hca hca_enabled c else some [] in
      Option.map
        (λ first.
          first
          ++ (if at_step s.frame 2 && car.openpilot_longitudinal_control
              then acc_messages c
              else [])
          ++ (if at_step s.frame (if car.pq then 5 else 10) then ldw_message c ∷ [] else [])
          ++ (if at_step s.frame (if car.pq then 4 else 6) && car.openpilot_longitudinal_control
              then acc_hud_message s.frame c ∷ []
              else [])
          ++ button_messages s c)
        steering

  -- The object after the call, `steerOutputCan`, and the messages. The field `steer` of the actuators, a
  -- quotient of the command, is left out.
  unfoldable pub update : CarController → Controls → Option (CarController × ℤ × List CanMessage)
  unfolding steering_frame can_sends
  update s c =
      let hca = (steered s c).0 in
      Option.map
        (λ messages. (
          record { hca = hca; gra_acc_counter_last = some c.gra_counter; frame = s.frame + 1 },
          hca.apply_steer_last,
          messages,
        ))
        (can_sends s c)
