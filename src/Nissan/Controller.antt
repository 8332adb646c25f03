-- ===== src/Nissan/Controller.antt =====
-- `CarController.update` of selfdrive/car/nissan/carcontroller.py. Angles and speeds are in thousandths, and so
-- are torques, but `lkas_max_torque` is in ten-thousandths, in which its formula is exact; `to_milli`
-- turns it to thousandths for the message.
use openpilot9xxcivic.Prelude.{
  ℕ, ℤ, pos, abs, ◌-ℤ◌, max_ℤ, ◌+◌, ◌-◌, ◌*◌, ◌%◌, Bool, true, false, not, ◌&&◌, nat_beq,
  if◌then◌else◌, List, [], ◌∷◌, ◌++◌, String,
}
use openpilot9xxcivic.Can.{CanMessage, Packer}
use openpilot9xxcivic.Clip.{Clip}
use openpilot9xxcivic.Limits.Angle.{Interp, AngleLimits, apply_std_steer_angle_limits}
use openpilot9xxcivic.Nissan.{
  create_steering_control, create_acc_cancel_cmd, create_cancel_msg, create_lkas_hud_msg,
  create_lkas_hud_info_msg,
}

-- The cars that the class tells apart.
pub data Model : Type 0 where
  rogue xtrail altima leaf leaf_ic : Model

abbrev pub has_cancel_cmd : Model → Bool
has_cancel_cmd rogue = true
has_cancel_cmd xtrail = true
has_cancel_cmd altima = true
has_cancel_cmd _ = false

abbrev pub is_leaf : Model → Bool
is_leaf leaf = true
is_leaf leaf_ic = true
is_leaf _ = false

abbrev pub is_altima : Model → Bool
is_altima altima = true
is_altima _ = false

-- `CarControllerParams`
abbrev pub params : AngleLimits
params = record {
  angle_rate_limit_up = record {
    speed_bp = pos 0 ∷ pos 5000 ∷ pos 15000 ∷ [];
    angle_v = pos 5000 ∷ pos 800 ∷ pos 150 ∷ [];
  };
  angle_rate_limit_down = record {
    speed_bp = pos 0 ∷ pos 5000 ∷ pos 15000 ∷ [];
    angle_v = pos 5000 ∷ pos 3500 ∷ pos 400 ∷ [];
  };
}

pub record CarController : Type 0 where
  pub frame : ℕ
  pub lkas_max_torque : ℤ
  pub apply_angle_last : ℤ

unfoldable pub init : CarController
init = record { frame = 0; lkas_max_torque = pos 0; apply_angle_last = pos 0 }

-- What `update` reads of `CC` and `CS`.
pub record Controls : Type 0 where
  pub enabled : Bool
  pub lat_active : Bool
  pub cancel : Bool
  pub steer_hud_alert : Bool
  pub left_lane_visible : Bool
  pub right_lane_visible : Bool
  pub left_lane_depart : Bool
  pub right_lane_depart : Bool
  pub target_angle_deg : ℤ
  pub v_ego_raw : ℤ
  pub steering_pressed : Bool
  pub steering_torque : ℤ
  pub steering_angle_deg : ℤ
  pub cruise_throttle_msg : String → ℤ
  pub cancel_msg : String → ℤ
  pub lkas_hud_msg : String → ℤ
  pub lkas_hud_info_msg : String → ℤ

-- The torque that the rack may use, less while the driver presses: 1 - 0.6 * max(0, |torque| - 1), and a half
-- at the least.
unfoldable pub max_torque : Controls → ℤ
max_torque c =
    if not c.lat_active
    then pos 0
    else if not c.steering_pressed
    then pos 10000
    else max_ℤ (pos 5000) (pos 10000 -ℤ pos (6 * (abs c.steering_torque - 1000)))

-- `if self.frame % n == 0`
abbrev pub every : (n frame : ℕ) → Bool
every n frame = nat_beq (frame % n) 0

module _ (np : Clip) (ip : Interp) (packer : Packer) (nissan_checksum : List ℕ → ℕ)
    (to_milli : ℤ → ℤ) (car : Model) where
  unfoldable pub apply_angle : CarController → Controls → ℤ
  apply_angle s c =
      if c.lat_active
      then apply_std_steer_angle_limits np ip c.target_angle_deg s.apply_angle_last c.v_ego_raw
          params
      else c.steering_angle_deg

  unfoldable pub hud_messages : CarController → Controls → List CanMessage
  hud_messages s c =
      (if every 2 s.frame
        then create_lkas_hud_msg packer c.lkas_hud_msg c.enabled c.left_lane_visible
            c.right_lane_visible c.left_lane_depart c.right_lane_depart
          ∷ []
        else [])
      ++ (if every 50 s.frame
          then create_lkas_hud_info_msg packer c.lkas_hud_info_msg c.steer_hud_alert ∷ []
          else [])

  unfoldable pub can_sends : CarController → Controls → List CanMessage
  unfolding apply_angle max_torque hud_messages
  can_sends s c =
      (if has_cancel_cmd car && c.cancel
        then create_acc_cancel_cmd packer (is_altima car) c.cruise_throttle_msg ∷ []
        else [])
      ++ (if is_leaf car && every 2 s.frame
          then create_cancel_msg packer c.cancel_msg c.cancel ∷ []
          else [])
      ++ (create_steering_control packer nissan_checksum (apply_angle s c) s.frame c.lat_active
            (to_milli (max_torque c))
          ∷ [])
      ++ (if is_altima car then [] else hud_messages s c)

  -- The object after the call, the angle of the actuators, and the messages.
  unfoldable pub update : CarController → Controls → CarController × ℤ × List CanMessage
  unfolding apply_angle max_torque can_sends
  update s c = (
    record {
      frame = s.frame + 1;
      lkas_max_torque = max_torque c;
      apply_angle_last = apply_angle s c;
    },
    apply_angle s c,
    can_sends s c,
  )
