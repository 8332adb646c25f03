-- ===== src/Chrysler/Controller.antt =====
-- `CarController.update` of selfdrive/car/chrysler/carcontroller.py. Speeds and torques of the motor are in
-- thousandths; times are counted in frames of 10 ms.
use openpilot9xxcivic.Prelude.{
  ℕ, ℤ, pos, negsuc, milli, int_round, ◌*ℤ◌, ◌-ℤ◌, ltb_ℤ, ltb, ◌+◌, ◌-◌, ◌%◌, Bool, true, false,
  not, ◌&&◌, ◌||◌, nat_beq, if◌then◌else◌, List, [], ◌∷◌, ◌++◌,
}
use openpilot9xxcivic.Can.{CanMessage, Packer}
use openpilot9xxcivic.Clip.{Clip}
use openpilot9xxcivic.Limits.{SteerLimits, apply_meas_steer_torque_limits}
use openpilot9xxcivic.Chrysler.{create_lkas_hud, create_lkas_command, create_cruise_buttons}

-- What the class takes from `CP`: the sets `RAM_HD` and `RAM_DT`, and a flag.
pub record Car : Type 0 where
  pub ram_hd : Bool
  pub ram_dt : Bool
  pub higher_min_steering_speed : Bool
  pub min_steer_speed : ℤ

-- `RAM_CARS`
abbrev pub is_ram : Car → Bool
is_ram car = car.ram_dt || car.ram_hd

-- `CarControllerParams`, without the limits for the torque of the driver, which the class does not set.
unfoldable pub params : Car → SteerLimits
params car = record {
  steer_max = if car.ram_hd then 361 else 261;
  steer_delta_up = if car.ram_hd then 14 else if car.ram_dt then 6 else 3;
  steer_delta_down = if car.ram_hd then 14 else if car.ram_dt then 6 else 3;
  steer_error_max = 80;
  steer_driver_allowance = 0;
  steer_driver_factor = 0;
  steer_driver_multiplier = 0;
}

abbrev pub steer_step : ℕ
steer_step = 2

pub record CarController : Type 0 where
  pub apply_steer_last : ℤ
  pub frame : ℕ
  pub hud_count : ℕ
  pub last_lkas_falling_edge : ℕ
  pub lkas_control_bit_prev : Bool
  pub last_button_frame : ℕ

unfoldable pub init : CarController
init = record {
  apply_steer_last = pos 0;
  frame = 0;
  hud_count = 0;
  last_lkas_falling_edge = 0;
  lkas_control_bit_prev = false;
  last_button_frame = 0;
}

-- What `update` reads of `CC` and `CS`; `lkas_car_model` is -1 before its message has come.
pub record Controls : Type 0 where
  pub lat_active : Bool
  pub cancel : Bool
  pub resume : Bool
  pub hud_alert : Bool
  pub steer : ℤ
  pub steering_torque_eps : ℤ
  pub v_ego : ℤ
  pub button_counter : ℕ
  pub lkas_car_model : ℤ
  pub auto_high_beam : ℤ

-- The bit that the speed asks for.
unfoldable pub wanted_bit : Car → (v_ego : ℤ) (lkas_control_bit_prev : Bool) → Bool
wanted_bit car v_ego lkas_control_bit_prev =
    if ltb_ℤ car.min_steer_speed v_ego
    then true
    else if car.higher_min_steering_speed
    then (if ltb_ℤ v_ego (car.min_steer_speed -ℤ pos 3000) then false else lkas_control_bit_prev)
    else if is_ram car
    then (if ltb_ℤ v_ego (car.min_steer_speed -ℤ pos 500) then false else lkas_control_bit_prev)
    else lkas_control_bit_prev

-- The bit of a steering frame: the rack faults if it is set again too soon.
unfoldable pub lkas_control_bit : Car → CarController → Controls → Bool
unfolding wanted_bit
lkas_control_bit car s c =
    wanted_bit car c.v_ego s.lkas_control_bit_prev && ltb 200 (s.frame - s.last_lkas_falling_edge)

-- `if self.frame % n == 0`
abbrev pub every : (n frame : ℕ) → Bool
every n frame = nat_beq (frame % n) 0

-- `lkas_car_model == -1`
abbrev pub is_unknown : ℤ → Bool
is_unknown (negsuc n) = nat_beq n 0
is_unknown (pos n) = false

abbrev pub lkas_active : CarController → Controls → Bool
lkas_active s c = c.lat_active && s.lkas_control_bit_prev

-- A button is sent: more than 50 ms after the last one.
abbrev pub is_button_sent : CarController → Controls → Bool
is_button_sent s c = ltb 5 (s.frame - s.last_button_frame) && (c.cancel || c.resume)

module _ (np : Clip) (packer : Packer) (car : Car) where
  unfoldable pub apply_steer : CarController → Controls → ℤ
  unfolding lkas_control_bit
  apply_steer s c =
      if not (lkas_active s c) || not (lkas_control_bit car s c)
      then pos 0
      else apply_meas_steer_torque_limits np
          (milli (int_round (c.steer *ℤ pos (params car).steer_max))) s.apply_steer_last
          c.steering_torque_eps (params car)

  -- The fields after the steering.
  unfoldable pub steered : CarController → Controls → CarController
  unfolding apply_steer lkas_control_bit
  steered s c =
      if every steer_step s.frame
      then record s {
        apply_steer_last = apply_steer s c;
        last_lkas_falling_edge =
            if not (lkas_control_bit car s c) && s.lkas_control_bit_prev
            then s.frame
            else s.last_lkas_falling_edge;
        lkas_control_bit_prev = lkas_control_bit car s c;
      }
      else s

  unfoldable pub can_sends : CarController → Controls → List CanMessage
  unfolding apply_steer lkas_control_bit
  can_sends s c =
      (if is_button_sent s c
        then create_cruise_buttons packer (c.button_counter + 1) (if is_ram car then 2 else 0)
            c.cancel (not c.cancel && c.resume)
          ∷ []
        else [])
      ++ (if every 25 s.frame && not (is_unknown c.lkas_car_model)
          then create_lkas_hud packer (is_ram car) (lkas_active s c) c.hud_alert s.hud_count
              c.lkas_car_model c.auto_high_beam
            ∷ []
          else [])
      ++ (if every steer_step s.frame
          then create_lkas_command packer (is_ram car) (apply_steer s c) (lkas_control_bit car s c)
            ∷ []
          else [])

  -- The object after the call, and the messages. The fields of the actuators, `apply_steer_last` and a
  -- quotient of it, are left out.
  unfoldable pub update : CarController → Controls → CarController × List CanMessage
  unfolding steered can_sends
  update s c = (
    record (steered s c) {
      frame = s.frame + 1;
      hud_count =
          if every 25 s.frame && not (is_unknown c.lkas_car_model)
          then s.hud_count + 1
          else s.hud_count;
      last_button_frame = if is_button_sent s c then s.frame else s.last_button_frame;
    },
    can_sends s c,
  )
