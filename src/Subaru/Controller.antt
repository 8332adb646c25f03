-- ===== src/Subaru/Controller.antt =====
-- `CarController.update` of selfdrive/car/subaru/carcontroller.py. Torques of the driver, accelerations and rates
-- of the wheel are in thousandths.
use openpilot9xxcivic.Prelude.{
  ℕ, ℤ, pos, neg, abs, milli, int_round, ◌*ℤ◌, ltb_ℤ, ltb, ◌+◌, ◌%◌, ◌/◌, Bool, not, ◌&&◌, nat_beq,
  if◌then◌else◌, List, [], ◌∷◌, ◌++◌, String,
}
use openpilot9xxcivic.Can.{CanMessage, Packer}
use openpilot9xxcivic.Clip.{Clip}
use openpilot9xxcivic.Common.FaultAvoidance.{common_fault_avoidance}
use openpilot9xxcivic.Limits.{SteerLimits, apply_driver_steer_torque_limits}
use openpilot9xxcivic.Subaru.Messages.{
  VisualAlert, Lanes, no_cruise, create_steering_control, create_es_distance, create_es_lkas_state,
  create_es_dashstatus, create_es_brake, create_es_status, create_es_infotainment,
  create_es_highbeamassist, create_es_static_1, create_es_static_2,
}
use openpilot9xxcivic.Subaru.Preglobal.{
  create_preglobal_steering_control, create_preglobal_es_distance,
}

-- The flags of `CP` and the one car that the class asks for.
pub record Car : Type 0 where
  pub global_gen2 : Bool
  pub impreza_2020 : Bool
  pub preglobal : Bool
  pub steer_rate_limited : Bool
  pub send_infotainment : Bool
  pub disable_eyesight : Bool
  pub hybrid : Bool
  pub openpilot_longitudinal_control : Bool

-- `CarControllerParams`
unfoldable pub params : Car → SteerLimits
params car = record {
  steer_max = if car.global_gen2 then 1000 else if car.impreza_2020 then 1439 else 2047;
  steer_delta_up = if car.global_gen2 then 40 else 50;
  steer_delta_down = if car.global_gen2 then 40 else 70;
  steer_error_max = 0;
  steer_driver_allowance = 60;
  steer_driver_factor = 1;
  steer_driver_multiplier = 50;
}

abbrev pub steer_step : ℕ
steer_step = 2

-- `MAX_STEER_RATE`, in thousandths of a degree per second, and `MAX_STEER_RATE_FRAMES`.
abbrev pub max_steer_rate : ℕ
max_steer_rate = 25000

abbrev pub max_steer_rate_frames : ℕ
max_steer_rate_frames = 7

pub record CarController : Type 0 where
  pub apply_steer_last : ℤ
  pub frame : ℕ
  pub cruise_button_prev : ℕ
  pub steer_rate_counter : ℕ

unfoldable pub init : CarController
init = record {
  apply_steer_last = pos 0;
  frame = 0;
  cruise_button_prev = 0;
  steer_rate_counter = 0;
}

-- What `update` reads of `CC` and `CS`.
pub record Controls : Type 0 where
  pub enabled : Bool
  pub lat_active : Bool
  pub long_active : Bool
  pub cancel : Bool
  pub steer : ℤ
  pub accel : ℤ
  pub visual_alert : VisualAlert
  pub lanes : Lanes
  pub lead_visible : Bool
  pub steering_torque : ℤ
  pub steering_rate_deg : ℤ
  pub cruise_available : Bool
  pub ready : Bool
  pub cruise_button : ℕ
  pub es_distance_msg : String → ℤ
  pub es_distance_counter : ℕ
  pub es_dashstatus_msg : String → ℤ
  pub es_lkas_state_msg : String → ℤ
  pub es_infotainment_msg : String → ℤ
  pub es_status_msg : String → ℤ
  pub es_brake_msg : String → ℤ

-- The three commands of the longitudinal control.
pub record Long : Type 0 where
  pub cruise_throttle : ℤ
  pub cruise_rpm : ℤ
  pub cruise_brake : ℤ

abbrev pub is_fast : Controls → Bool
is_fast c = ltb max_steer_rate (abs c.steering_rate_deg)

-- The counter and the request bit of a steering frame on a global platform.
unfoldable pub steer_request : Car → Controls → (steer_rate_counter : ℕ) → ℕ × Bool
steer_request car c steer_rate_counter =
    if car.steer_rate_limited
    then common_fault_avoidance (is_fast c) c.lat_active steer_rate_counter max_steer_rate_frames 1
    else (steer_rate_counter, c.lat_active)

-- The button that is pressed on a platform before the global one: 1 is the main switch.
unfoldable pub next_button : Controls → (cruise_button_prev : ℕ) → ℕ
next_button c cruise_button_prev =
    let cruise_button : ℕ =
      if c.cancel then 1 else if not c.cruise_available && c.ready then 1 else c.cruise_button in
    if nat_beq cruise_button 1 && nat_beq cruise_button_prev 1 then 0 else cruise_button

-- `if self.frame % n == 0`
abbrev pub every : (n frame : ℕ) → Bool
every n frame = nat_beq (frame % n) 0

module _ (np : Clip) (interp : ℤ → List ℤ → List ℤ → ℤ) (packer : Packer) (car : Car) where
  open np use {clip}

  unfoldable pub apply_steer : Controls → (apply_steer_last : ℤ) → ℤ
  apply_steer c apply_steer_last =
      if c.lat_active
      then apply_driver_steer_torque_limits np
          (milli (int_round (c.steer *ℤ pos (params car).steer_max))) apply_steer_last
          c.steering_torque (params car)
      else pos 0

  -- `int(round(interp(actuators.accel, bp, v)))`
  abbrev pub looked_up : Controls → (bp v : List ℤ) → ℤ
  looked_up c bp v = int_round (interp c.accel bp v)

  unfoldable pub long_commands : Controls → Long
  long_commands c =
      if c.long_active
      then record {
        cruise_throttle =
            clip (looked_up c (pos 0 ∷ pos 2000 ∷ []) (pos 1818000 ∷ pos 3400000 ∷ [])) (pos 808)
              (pos 3400);
        cruise_rpm =
            clip (looked_up c (pos 0 ∷ pos 2000 ∷ []) (pos 600000 ∷ pos 3600000 ∷ [])) (pos 0)
              (pos 3600);
        cruise_brake =
            clip (looked_up c (neg (pos 3500) ∷ pos 0 ∷ []) (pos 600000 ∷ pos 0 ∷ [])) (pos 0)
              (pos 600);
      }
      else record { cruise_throttle = pos 1818; cruise_rpm = pos 0; cruise_brake = pos 0 }

  -- The fields after the steering.
  unfoldable pub steered : CarController → Controls → CarController
  unfolding apply_steer steer_request
  steered s c =
      if every steer_step s.frame
      then record s {
        apply_steer_last = apply_steer c s.apply_steer_last;
        steer_rate_counter =
            if car.preglobal
            then s.steer_rate_counter
            else (steer_request car c s.steer_rate_counter).0;
      }
      else s

  unfoldable pub steering_messages : CarController → Controls → List CanMessage
  unfolding apply_steer steer_request
  steering_messages s c =
      if every steer_step s.frame
      then (if car.preglobal
          then create_preglobal_steering_control packer (s.frame / steer_step)
              (apply_steer c s.apply_steer_last) c.lat_active
            ∷ []
          else create_steering_control packer (apply_steer c s.apply_steer_last)
              (steer_request car c s.steer_rate_counter).1
            ∷ [])
      else []

  unfoldable pub alert_messages : (frame : ℕ) → Controls → List CanMessage
  alert_messages frame c =
      create_es_dashstatus packer (frame / 10) c.es_dashstatus_msg c.enabled
        car.openpilot_longitudinal_control c.lead_visible
      ∷ create_es_lkas_state packer (frame / 10) c.es_lkas_state_msg c.enabled c.visual_alert
          c.lanes
      ∷ (if car.send_infotainment
          then create_es_infotainment packer (frame / 10) c.es_infotainment_msg c.visual_alert ∷ []
          else [])

  unfoldable pub long_messages : (frame : ℕ) → Controls → List CanMessage
  unfolding long_commands
  long_messages frame c =
      let long = long_commands c in
      create_es_status packer (frame / 5) c.es_status_msg car.openpilot_longitudinal_control
        c.long_active long.cruise_rpm
      ∷ create_es_brake packer (frame / 5) c.es_brake_msg car.openpilot_longitudinal_control
          c.long_active long.cruise_brake
      ∷ create_es_distance packer (frame / 5) c.es_distance_msg 0 c.cancel (record {
        long_enabled = car.openpilot_longitudinal_control;
        brake_cmd = ltb_ℤ (pos 0) long.cruise_brake;
        cruise_throttle = long.cruise_throttle;
      })
      ∷ []

  -- The message that cancels the stock cruise control.
  unfoldable pub cancel_messages : Controls → List CanMessage
  cancel_messages c =
      if c.cancel && not car.hybrid
      then create_es_distance packer (c.es_distance_counter + 1) c.es_distance_msg
          (if car.global_gen2 then 1 else 0) c.cancel no_cruise
        ∷ []
      else []

  -- The messages that stand in for a disabled EyeSight; the first is tester present on the camera bus.
  unfoldable pub eyesight_messages : (frame : ℕ) → List CanMessage
  eyesight_messages frame =
      (if every 100 frame
        then record { address = 0x787; dat = 2 ∷ 62 ∷ 128 ∷ 0 ∷ 0 ∷ 0 ∷ 0 ∷ 0 ∷ []; bus = 2 } ∷ []
        else [])
      ++ (if every 5 frame then create_es_highbeamassist packer ∷ [] else [])
      ++ (if every 10 frame then create_es_static_1 packer ∷ [] else [])
      ++ (if every 2 frame then create_es_static_2 packer ∷ [] else [])

  unfoldable pub global_messages : (frame : ℕ) → Controls → List CanMessage
  unfolding alert_messages long_messages cancel_messages eyesight_messages
  global_messages frame c =
      (if every 10 frame then alert_messages frame c else [])
      ++ (if car.openpilot_longitudinal_control
          then (if every 5 frame then long_messages frame c else [])
          else cancel_messages c)
      ++ (if car.disable_eyesight then eyesight_messages frame else [])

  -- The object after the call, and the messages. The fields of the actuators, `apply_steer_last` and a
  -- quotient of it, are left out.
  unfoldable pub update : CarController → Controls → CarController × List CanMessage
  unfolding steered steering_messages next_button global_messages
  update s c =
      let pressed = car.preglobal && every 5 s.frame in
      let button = next_button c s.cruise_button_prev in
      (
        record (steered s c) {
          frame = s.frame + 1;
          cruise_button_prev = if pressed then button else s.cruise_button_prev;
        },
        steering_messages s c
            ++ (if car.preglobal
                then (if every 5 s.frame
                    then create_preglobal_es_distance packer button c.es_distance_msg ∷ []
                    else [])
                else global_messages s.frame c),
      )
