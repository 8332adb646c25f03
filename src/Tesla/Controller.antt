-- ===== src/Tesla/Controller.antt =====
-- `CarController.update` of selfdrive/car/tesla/carcontroller.py. Angles, speeds and accelerations are in thousandths.
use openpilot9xxcivic.Prelude.{
  ℕ, ℤ, pos, ◌+ℤ◌, ◌-ℤ◌, ◌*ℤ◌, max_ℤ, ltb_ℤ, leb, ◌+◌, ◌%◌, ◌/◌, Bool, true, not, ◌&&◌, ◌||◌,
  nat_beq, if◌then◌else◌, List, [], ◌∷◌, ◌++◌, String,
}
use openpilot9xxcivic.Can.{CanMessage, Packer}
use openpilot9xxcivic.Clip.{Clip}
use openpilot9xxcivic.Limits.Angle.{Interp, AngleLimits, apply_std_steer_angle_limits}
use openpilot9xxcivic.Tesla.{
  chassis, autopilot_chassis, create_steering_control, create_action_request,
  create_longitudinal_commands,
}

-- `CarControllerParams`
abbrev pub params : AngleLimits
params = record {
  angle_rate_limit_up = record {
    speed_bp = pos 0 ∷ pos 5000 ∷ pos 15000 ∷ [];
    angle_v = pos 10000 ∷ pos 1600 ∷ pos 300 ∷ [];
  };
  angle_rate_limit_down = record {
    speed_bp = pos 0 ∷ pos 5000 ∷ pos 15000 ∷ [];
    angle_v = pos 10000 ∷ pos 7000 ∷ pos 800 ∷ [];
  };
}

pub record CarController : Type 0 where
  pub frame : ℕ
  pub apply_angle_last : ℤ

unfoldable pub init : CarController
init = record { frame = 0; apply_angle_last = pos 0 }

-- What `update` reads of `CC` and `CS`. `is_hands_on_error` is CS.steer_warning == "EAC_ERROR_HANDS_ON".
pub record Controls : Type 0 where
  pub lat_active : Bool
  pub cancel : Bool
  pub target_angle_deg : ℤ
  pub accel : ℤ
  pub is_hands_on_error : Bool
  pub hands_on_level : ℕ
  pub v_ego : ℤ
  pub steering_angle_deg : ℤ
  pub acc_state : ℕ
  pub das_control_counters : List ℕ
  pub msg_stw_actn_req : String → ℤ

abbrev pub hands_on_fault : Controls → Bool
hands_on_fault c = c.is_hands_on_error && leb 3 c.hands_on_level

abbrev pub lkas_enabled : Controls → Bool
lkas_enabled c = c.lat_active && not (hands_on_fault c)

-- `if self.frame % n == 0`
abbrev pub every : (n frame : ℕ) → Bool
every n frame = nat_beq (frame % n) 0

abbrev pub target_speed : Controls → ℤ
target_speed c = max_ℤ (c.v_ego +ℤ (c.accel *ℤ pos 3)) (pos 0)

abbrev pub max_accel : Controls → ℤ
max_accel c = if ltb_ℤ c.accel (pos 0) then pos 0 else c.accel

abbrev pub min_accel : Controls → ℤ
min_accel c = if ltb_ℤ (pos 0) c.accel then pos 0 else c.accel

-- `range(16)`
abbrev pub all_counters : List ℕ
all_counters = 0 ∷ 1 ∷ 2 ∷ 3 ∷ 4 ∷ 5 ∷ 6 ∷ 7 ∷ 8 ∷ 9 ∷ 10 ∷ 11 ∷ 12 ∷ 13 ∷ 14 ∷ 15 ∷ []

module _ (np : Clip) (ip : Interp) (packer pt_packer : Packer) (crc : List ℕ → ℕ)
    (openpilot_longitudinal_control : Bool) where
  open np use {clip}

  unfoldable pub apply_angle : CarController → Controls → ℤ
  apply_angle s c =
      if lkas_enabled c
      then clip
          (apply_std_steer_angle_limits np ip c.target_angle_deg s.apply_angle_last c.v_ego params)
          (c.steering_angle_deg -ℤ pos 20000) (c.steering_angle_deg +ℤ pos 20000)
      else c.steering_angle_deg

  -- The loop that takes the counters from the queue.
  unfoldable pub longitudinal_messages : Controls → (queue : List ℕ) → List CanMessage
  longitudinal_messages c [] = []
  longitudinal_messages c (counter ∷ queue) =
      create_longitudinal_commands packer pt_packer crc c.acc_state (target_speed c) (min_accel c)
        (max_accel c) counter
      ++ longitudinal_messages c queue

  unfoldable pub cancel_messages : Controls → (counters : List ℕ) → List CanMessage
  cancel_messages c [] = []
  cancel_messages c (counter ∷ counters) =
      create_action_request packer pt_packer crc c.msg_stw_actn_req true chassis counter
      ∷ create_action_request packer pt_packer crc c.msg_stw_actn_req true autopilot_chassis counter
      ∷ cancel_messages c counters

  unfoldable pub can_sends : CarController → Controls → List CanMessage
  unfolding apply_angle longitudinal_messages cancel_messages
  can_sends s c =
      (if every 2 s.frame
        then create_steering_control packer pt_packer crc (apply_angle s c) (lkas_enabled c)
            (s.frame / 2 % 16)
          ∷ []
        else [])
      ++ (if openpilot_longitudinal_control
          then longitudinal_messages c c.das_control_counters
          else [])
      ++ (if every 10 s.frame && (hands_on_fault c || c.cancel)
          then cancel_messages c all_counters
          else [])

  -- The object after the call, which has its angle for the actuators, the counters that are left in the
  -- queue, and the messages.
  unfoldable pub update : CarController → Controls → CarController × List ℕ × List CanMessage
  unfolding apply_angle can_sends
  update s c = (
    record {
      frame = s.frame + 1;
      apply_angle_last = if every 2 s.frame then apply_angle s c else s.apply_angle_last;
    },
    if openpilot_longitudinal_control then [] else c.das_control_counters,
    can_sends s c,
  )
