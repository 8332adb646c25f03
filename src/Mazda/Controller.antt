-- ===== src/Mazda/Controller.antt =====
-- `CarController.update` of selfdrive/car/mazda/carcontroller.py.
use openpilot9xxcivic.Can.{CanMessage, Packer}
use openpilot9xxcivic.Prelude.{
  ℕ, ℤ, pos, milli, int_round, ◌*ℤ◌, ltb, ◌+◌, ◌%◌, Bool, not, ◌&&◌, nat_beq, if◌then◌else◌, List,
  [], ◌∷◌, ◌++◌, Option, none, some, String,
}
use openpilot9xxcivic.Clip.{Clip}
use openpilot9xxcivic.Limits.{apply_driver_steer_torque_limits}
use openpilot9xxcivic.Mazda.{
  params, Lkas, Button, cancel, resume, create_steering_control, create_alert_command,
  create_button_cmd,
}

pub record CarController : Type 0 where
  pub apply_steer_last : ℤ
  pub brake_counter : ℕ
  pub frame : ℕ

unfoldable pub init : CarController
init = record { apply_steer_last = pos 0; brake_counter = 0; frame = 0 }

-- What `update` reads of `CC` and `CS`.
pub record Controls : Type 0 where
  pub lat_active : Bool
  pub steer : ℤ
  pub cruise_cancel : Bool
  pub cruise_resume : Bool
  pub alert_ldw : Bool
  pub alert_steer_required : Bool
  pub steering_torque : ℤ
  pub brake_pressed : Bool
  pub crz_btns_counter : ℕ
  pub lkas_allowed_speed : Bool

module _ (np : Clip) (packer : Packer) (gen1 : Bool) (cam_laneinfo : String → ℤ)
    (cam_lkas : Lkas) where
  unfoldable pub apply_steer : CarController → Controls → ℤ
  apply_steer s c =
      if c.lat_active
      then apply_driver_steer_torque_limits np (milli (int_round (c.steer *ℤ pos params.steer_max)))
          s.apply_steer_last c.steering_torque params
      else pos 0

  unfoldable pub next_brake_counter : CarController → Controls → ℕ
  next_brake_counter s c = if c.cruise_cancel then s.brake_counter + 1 else 0

  -- The button that an update presses.
  unfoldable pub button : CarController → Controls → Option Button
  unfolding next_brake_counter
  button s c =
      if c.cruise_cancel
      then (if nat_beq (s.frame % 10) 0 && not (c.brake_pressed && ltb (next_brake_counter s c) 7)
          then some cancel
          else none)
      else if c.cruise_resume && nat_beq (s.frame % 5) 0
      then some resume
      else none

  unfoldable pub button_messages : (counter : ℕ) → Option Button → List (Option CanMessage)
  button_messages counter none = []
  button_messages counter (some b) = create_button_cmd packer gen1 counter b ∷ []

  -- The object after the call, `steerOutputCan`, and the messages. The field `steer` of the actuators is
  -- the command as a part of `STEER_MAX`, a quotient that the model leaves out.
  unfoldable pub update : CarController → Controls → CarController × ℤ × List (Option CanMessage)
  unfolding apply_steer next_brake_counter button button_messages
  update s c = (
    record {
      apply_steer_last = apply_steer s c;
      brake_counter = next_brake_counter s c;
      frame = s.frame + 1;
    },
    apply_steer s c,
    button_messages c.crz_btns_counter (button s c)
        ++ (if nat_beq (s.frame % 50) 0
            then some (
                create_alert_command packer gen1 cam_laneinfo c.alert_ldw
                  (c.alert_steer_required && c.lkas_allowed_speed))
              ∷ []
            else [])
        ++ some (create_steering_control packer gen1 s.frame (apply_steer s c) cam_lkas) ∷ [],
  )

  -- The object after the updates of a drive, the last one first.
  unfoldable pub after : List Controls → CarController
  unfolding init update
  after [] = init
  after (c ∷ earlier) = (update (after earlier) c).0
