-- ===== src/Toyota/Controller.antt =====
-- `CarController.update` of selfdrive/car/toyota/carcontroller.py. Torques, speeds, rates and accelerations are in
-- thousandths, and angles in ten-thousandths of a degree, in which MAX_LTA_ANGLE is exact.
use openpilot9xxcivic.Prelude.{
  ℕ, ℤ, pos, neg, abs, milli, int_round, ◌+ℤ◌, ◌*ℤ◌, ltb_ℤ, ltb, leb, ◌+◌, ◌%◌, ◌/◌, Bool, false,
  not, ◌&&◌, ◌||◌, nat_beq, if◌then◌else◌, Option, List, [], ◌∷◌, ◌++◌, String, contains,
  string_comparable,
}
use openpilot9xxcivic.Can.{CanMessage, Packer}
use openpilot9xxcivic.Clip.{Clip}
use openpilot9xxcivic.Common.FaultAvoidance.{common_fault_avoidance}
use openpilot9xxcivic.Limits.{SteerLimits, apply_meas_steer_torque_limits}
use openpilot9xxcivic.Limits.Angle.{Interp, AngleLimits, apply_std_steer_angle_limits}
use openpilot9xxcivic.Toyota.{
  Lanes, create_steer_command, create_lta_steer_command, create_accel_command,
  create_acc_cancel_command, create_fcw_command, create_ui_command,
}

-- What the class takes from `CP`, with the sets of cars as tests.
pub record Car : Type 0 where
  pub car_fingerprint : String
  pub is_torque_tuned : Bool
  pub is_angle : Bool
  pub is_tss2 : Bool
  pub is_no_stop_timer : Bool
  pub is_unsupported_dsu : Bool
  pub is_prius_v : Bool
  pub enable_dsu : Bool
  pub disable_radar : Bool
  pub openpilot_longitudinal_control : Bool

-- `CarControllerParams`, without the limits for the torque of the driver, which the class does not set.
unfoldable pub params : Car → SteerLimits
params car = record {
  steer_max = 1500;
  steer_delta_up = if car.is_torque_tuned then 15 else 10;
  steer_delta_down = 25;
  steer_error_max = 350;
  steer_driver_allowance = 0;
  steer_driver_factor = 0;
  steer_driver_multiplier = 0;
}

abbrev pub angle_params : AngleLimits
angle_params = record {
  angle_rate_limit_up = record {
    speed_bp = pos 5000 ∷ pos 25000 ∷ [];
    angle_v = pos 3000 ∷ pos 1500 ∷ [];
  };
  angle_rate_limit_down = record {
    speed_bp = pos 5000 ∷ pos 25000 ∷ [];
    angle_v = pos 3600 ∷ pos 2600 ∷ [];
  };
}

abbrev pub max_lta_angle : ℤ
max_lta_angle = pos 949461

abbrev pub max_steer_rate_frames : ℕ
max_steer_rate_frames = 18

-- A row of `STATIC_DSU_MSGS`.
pub record StaticMessage : Type 0 where
  pub addr : ℕ
  pub cars : List String
  pub bus : ℕ
  pub fr_step : ℕ
  pub vl : List ℕ

pub record CarController : Type 0 where
  pub frame : ℕ
  pub last_steer : ℤ
  pub last_angle : ℤ
  pub alert_active : Bool
  pub last_standstill : Bool
  pub standstill_req : Bool
  pub steer_rate_counter : ℕ
  pub distance_button : Bool
  pub accel : ℤ

unfoldable pub init : CarController
init = record {
  frame = 0;
  last_steer = pos 0;
  last_angle = pos 0;
  alert_active = false;
  last_standstill = false;
  standstill_req = false;
  steer_rate_counter = 0;
  distance_button = false;
  accel = pos 0;
}

-- What `update` reads of `CC` and `CS`.
pub record Controls : Type 0 where
  pub enabled : Bool
  pub lat_active : Bool
  pub cancel : Bool
  pub steer : ℤ
  pub target_angle_deg : ℤ
  pub accel : ℤ
  pub fcw_alert : Bool
  pub steer_alert : Bool
  pub lanes : Lanes
  pub lead_visible : Bool
  pub lead_distance_bars : ℕ
  pub steering_torque : ℤ
  pub steering_torque_eps : ℤ
  pub steering_rate_deg : ℤ
  pub steering_angle_deg : ℤ
  pub steering_angle_offset_deg : ℤ
  pub v_ego : ℤ
  pub v_ego_raw : ℤ
  pub standstill : Bool
  pub cruise_enabled : Bool
  pub pcm_acc_status : ℕ
  pub pcm_follow_distance : ℕ
  pub acc_type : ℕ
  pub lkas_hud : Option (String → ℤ)

-- Lateral control is on, and the driver's torque below MAX_USER_TORQUE.
abbrev pub is_active : Controls → Bool
is_active c = c.lat_active && ltb (abs c.steering_torque) 500000

-- The wheel turns at MAX_STEER_RATE or faster.
abbrev pub is_fast : Controls → Bool
is_fast c = leb 100000 (abs c.steering_rate_deg)

-- The new counter, and the request bit before the kind of control is looked at.
abbrev pub avoided : CarController → Controls → ℕ × Bool
avoided s c =
    common_fault_avoidance (is_fast c) (is_active c) s.steer_rate_counter max_steer_rate_frames 1

-- The bit of the steering command: none where the steering is by angle.
unfoldable pub steer_request : Car → CarController → Controls → Bool
steer_request car s c = not car.is_angle && (avoided s c).1

-- `if self.frame % n == 0`
abbrev pub every : (n frame : ℕ) → Bool
every n frame = nat_beq (frame % n) 0

abbrev pub has_alert : Controls → Bool
has_alert c = c.fcw_alert || c.steer_alert

-- The alert has come or gone since the last message.
abbrev pub has_changed : CarController → Controls → Bool
has_changed s c = has_alert c && not s.alert_active || not (has_alert c) && s.alert_active

abbrev pub send_ui : CarController → Controls → Bool
send_ui s c = has_changed s c || c.cancel

-- The request to hold at standstill: from the entry on, while the status is the one of standstill.
unfoldable pub standstill_request : Car → CarController → Controls → Bool
standstill_request car s c =
    let entered = c.standstill && not s.last_standstill && not car.is_no_stop_timer in
    nat_beq c.pcm_acc_status 8 && (entered || s.standstill_req)

-- A call in which an acceleration, or a cancellation, is sent.
abbrev pub is_accel_sent : Car → CarController → Controls → Bool
is_accel_sent car s c = every 3 s.frame && car.openpilot_longitudinal_control || c.cancel

-- The button for the distance is pressed in every other turn until the distance is the desired one,
-- 4 - leadDistanceBars.
unfoldable pub next_distance_button : Car → CarController → Controls → Bool
next_distance_button car s c =
    if is_accel_sent car s c && every 6 s.frame && car.openpilot_longitudinal_control
    then (if c.cruise_enabled && not (nat_beq (c.pcm_follow_distance + c.lead_distance_bars) 4)
        then not s.distance_button
        else false)
    else s.distance_button

module _ (np : Clip) (ip : Interp) (packer : Packer) (static_dsu_msgs : List StaticMessage)
    (car : Car) where
  open np use {clip}

  unfoldable pub apply_steer : CarController → Controls → ℤ
  apply_steer s c =
      if is_active c && not car.is_angle
      then apply_meas_steer_torque_limits np
          (milli (int_round (c.steer *ℤ pos (params car).steer_max))) s.last_steer
          c.steering_torque_eps (params car)
      else pos 0

  unfoldable pub apply_angle : CarController → Controls → ℤ
  apply_angle s c =
      if car.is_angle && every 2 s.frame
      then clip
          (if is_active c
            then apply_std_steer_angle_limits np ip
                (c.target_angle_deg +ℤ c.steering_angle_offset_deg) s.last_angle c.v_ego_raw
                angle_params
            else c.steering_angle_deg +ℤ c.steering_angle_offset_deg)
          (neg max_lta_angle) max_lta_angle
      else s.last_angle

  unfoldable pub lta_messages : CarController → Controls → List CanMessage
  unfolding apply_angle
  lta_messages s c =
      let lta_active = is_active c && car.is_angle in
      let full_torque =
        ltb (abs c.steering_torque_eps) 1500000 && ltb (abs c.steering_torque) 150000 in
      if every 2 s.frame && car.is_tss2
      then create_lta_steer_command packer car.is_angle (apply_angle s c) lta_active (s.frame / 2)
          (if lta_active && full_torque then 100 else 0)
        ∷ []
      else []

  abbrev pub pcm_accel_cmd : Controls → ℤ
  pcm_accel_cmd c = clip c.accel (neg (pos 3500)) (pos 1500)

  abbrev pub is_cancel_message : Controls → Bool
  is_cancel_message c = c.cancel && car.is_unsupported_dsu

  unfoldable pub accel_messages : CarController → Controls → List CanMessage
  unfolding standstill_request next_distance_button
  accel_messages s c =
      let long = car.openpilot_longitudinal_control in
      if not (is_accel_sent car s c)
      then []
      else if is_cancel_message c
      then create_acc_cancel_command packer ∷ []
      else create_accel_command packer (if long then pcm_accel_cmd c else pos 0) (record {
        pcm_cancel = c.cancel;
        standstill_req = long && standstill_request car s c;
        lead = c.lead_visible || ltb_ℤ c.v_ego (pos 12000);
        acc_type = c.acc_type;
        fcw_alert = long && c.fcw_alert;
        distance = next_distance_button car s c;
      })
        ∷ []

  unfoldable pub ui_messages : CarController → Controls → List CanMessage
  ui_messages s c =
      (if every 20 s.frame || send_ui s c
        then create_ui_command packer c.steer_alert c.cancel c.enabled c.lanes c.lkas_hud ∷ []
        else [])
      ++ (if (every 100 s.frame || send_ui s c) && (car.enable_dsu || car.disable_radar)
          then create_fcw_command packer c.fcw_alert ∷ []
          else [])

  unfoldable pub static_messages : (frame : ℕ) → List StaticMessage → List CanMessage
  static_messages frame [] = []
  static_messages frame (m ∷ ms) =
      let rest = static_messages frame ms in
      if every m.fr_step frame && car.enable_dsu && contains m.cars car.car_fingerprint
      then record { address = m.addr; dat = m.vl; bus = m.bus } ∷ rest
      else rest

  unfoldable pub can_sends : CarController → Controls → List CanMessage
  unfolding apply_steer steer_request lta_messages accel_messages ui_messages static_messages
  can_sends s c =
      (create_steer_command packer (apply_steer s c) (steer_request car s c) ∷ [])
      ++ lta_messages s c
      ++ accel_messages s c
      ++ (if car.is_prius_v then [] else ui_messages s c)
      ++ static_messages s.frame static_dsu_msgs
      ++ (if every 20 s.frame && car.disable_radar
          then record { address = 0x750; dat = 15 ∷ 2 ∷ 62 ∷ 0 ∷ 0 ∷ 0 ∷ 0 ∷ 0 ∷ []; bus = 0 } ∷ []
          else [])

  -- The object after the call, and the messages. The fields of the actuators, which repeat those of the
  -- object but for a quotient, are left out.
  unfoldable pub update : CarController → Controls → CarController × List CanMessage
  unfolding apply_steer apply_angle standstill_request next_distance_button can_sends
  update s c = (
    record {
      frame = s.frame + 1;
      last_steer = apply_steer s c;
      last_angle = apply_angle s c;
      alert_active =
          if not car.is_prius_v && has_changed s c then not s.alert_active else s.alert_active;
      last_standstill = c.standstill;
      standstill_req = standstill_request car s c;
      steer_rate_counter = (avoided s c).0;
      distance_button = next_distance_button car s c;
      accel =
          if is_accel_sent car s c
            && not (is_cancel_message c)
            && car.openpilot_longitudinal_control
          then pcm_accel_cmd c
          else s.accel;
    },
    can_sends s c,
  )
