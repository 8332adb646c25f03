-- ===== src/Honda/Controller.antt =====
-- `CarController.update` of selfdrive/car/honda/carcontroller.py.
use openpilot9xxcivic.Can.{CanMessage, Packer}
use openpilot9xxcivic.Prelude.{
  ℕ, ℤ, pos, neg, abs, milli, int_round, ◌+ℤ◌, ◌-ℤ◌, ◌*ℤ◌, ltb_ℤ, ◌+◌, ◌%◌, Bool, ◌&&◌, ◌||◌,
  nat_beq, ltb, leb, if◌then◌else◌, List, [], ◌∷◌, Option, none, some,
}
use openpilot9xxcivic.Clip.{Clip}
use openpilot9xxcivic.Limits.{apply_toyota_steer_torque_limits}
use openpilot9xxcivic.Honda.{
  params, max_steering_tq, create_steer_command, create_new_steer_command, Floats, CarController,
  Controls,
}

-- The fields `steer` and `steerOutputCan` of the actuators returned.
pub record Actuators : Type 0 where
  pub steer : ℤ
  pub steer_output_can : ℤ

abbrev pub int_ne : ℤ → ℤ → Bool
int_ne x y = ltb_ℤ x y || ltb_ℤ y x

abbrev pub angle_max_bp : List ℤ
angle_max_bp = pos 5000 ∷ pos 15000 ∷ pos 30000 ∷ []

abbrev pub angle_max : List ℤ
angle_max = pos 200000 ∷ pos 20000 ∷ pos 10000 ∷ []

abbrev pub angle_rate_bp : List ℤ
angle_rate_bp = pos 0 ∷ pos 5000 ∷ pos 15000 ∷ []

abbrev pub angle_rate_windup : List ℤ
angle_rate_windup = pos 500000 ∷ pos 80000 ∷ pos 15000 ∷ []

abbrev pub angle_rate_unwind : List ℤ
angle_rate_unwind = pos 500000 ∷ pos 350000 ∷ pos 40000 ∷ []

abbrev pub hold_bp : List ℤ
hold_bp =
    neg (pos 40000)
    ∷ neg (pos 6000)
    ∷ neg (pos 4000)
    ∷ neg (pos 3000)
    ∷ neg (pos 2000)
    ∷ neg (pos 1000)
    ∷ neg (pos 500)
    ∷ pos 500
    ∷ pos 1000
    ∷ pos 2000
    ∷ pos 3000
    ∷ pos 4000
    ∷ pos 6000
    ∷ pos 40000
    ∷ []

abbrev pub hold_v : List ℤ
hold_v =
    neg (pos 12000)
    ∷ neg (pos 5700)
    ∷ neg (pos 5000)
    ∷ neg (pos 4500)
    ∷ neg (pos 4000)
    ∷ neg (pos 3300)
    ∷ neg (pos 2500)
    ∷ pos 2500
    ∷ pos 3300
    ∷ pos 4000
    ∷ pos 4500
    ∷ pos 5000
    ∷ pos 5700
    ∷ pos 12000
    ∷ []

module _ (np : Clip) (floats : Floats) (deg_to_rad : ℤ) (packer : Packer) where
  open np use {clip}
  open floats use {interp, times, divided}

  unfoldable pub calc_steering_torque_hold : (angle v_ego : ℤ) → ℤ
  calc_steering_torque_hold angle v_ego = interp angle hold_bp hold_v

  unfoldable pub requested_steer : CarController → Controls → ℤ
  requested_steer s c =
      if c.lat_active
      then apply_toyota_steer_torque_limits np (milli (int_round (c.steer *ℤ pos params.steer_max)))
          s.last_steer (pos 0) params
      else pos 0

  unfoldable pub angle_rate_max : CarController → (target_angle_lim v_ego : ℤ) → ℤ
  angle_rate_max s target_angle_lim v_ego =
      if ltb_ℤ (pos 0) (s.last_target_angle_lim *ℤ target_angle_lim)
        && ltb (abs s.last_target_angle_lim) (abs target_angle_lim)
      then interp v_ego angle_rate_bp angle_rate_windup
      else interp v_ego angle_rate_bp angle_rate_unwind

  -- The limit of the angle by speed, then the limit of its change.
  unfoldable pub speed_limited_angle : Controls → ℤ
  speed_limited_angle c =
      let angle_lim = interp c.v_ego angle_max_bp angle_max in
      clip c.steering_angle_deg (neg angle_lim) angle_lim

  unfoldable pub target_angle : CarController → Controls → ℤ
  unfolding speed_limited_angle angle_rate_max
  target_angle s c =
      let rate = angle_rate_max s (speed_limited_angle c) c.v_ego in
      clip (speed_limited_angle c) (s.last_target_angle_lim -ℤ rate)
        (s.last_target_angle_lim +ℤ rate)

  -- The planner's counter and the inertia torque.
  unfoldable pub plan : CarController → (target_angle_lim : ℤ) → ℕ × ℤ
  plan s target_angle_lim =
      if int_ne target_angle_lim s.last_target_angle_lim || leb 5 s.planner_cnt
      then (let steer_acc = (target_angle_lim -ℤ s.last_target_angle_lim) *ℤ pos 100 in
          let remaining_steer_torque = s.inertia_tq *ℤ (pos 6 -ℤ pos s.planner_cnt -ℤ pos 1) in
          let inertia_tq = times (divided (times (pos 0) steer_acc) (pos 6000)) deg_to_rad in
          (0, inertia_tq +ℤ divided remaining_steer_torque (pos 6000)))
      else (s.planner_cnt + 1, s.inertia_tq)

  unfoldable pub steer_torque : (target_angle_lim v_ego steer inertia_tq : ℤ) → ℤ
  unfolding calc_steering_torque_hold
  steer_torque target_angle_lim v_ego steer inertia_tq =
      clip (calc_steering_torque_hold target_angle_lim v_ego +ℤ steer +ℤ inertia_tq)
        (neg max_steering_tq) max_steering_tq

  -- The object after the branch of the even frames.
  unfoldable pub even_frame : CarController → Controls → CarController
  unfolding requested_steer target_angle plan steer_torque
  even_frame s c =
      let target_angle_lim = target_angle s c in
      let target_angle_delta = target_angle_lim -ℤ c.measured_angle_deg in
      let rate = angle_rate_max s (speed_limited_angle c) c.v_ego in
      let angle_step_max = divided rate (pos 100000) in
      let angle_step = clip target_angle_delta (neg angle_step_max) angle_step_max in
      let planned = plan s target_angle_lim in
      record s {
        apply_steer_last = requested_steer s c;
        target_angle_delta = target_angle_delta;
        steer_rate_limited = int_ne target_angle_delta angle_step;
        planner_cnt = planned.0;
        inertia_tq = planned.1;
        steer_tq_r = steer_torque target_angle_lim c.v_ego c.steer planned.1 *ℤ neg (pos 1);
      }

  unfoldable pub new_command : CarController → CanMessage
  new_command s = create_new_steer_command packer (pos 0) s.target_angle_delta s.steer_tq_r s.frame

  -- `none` is the `NameError` of the odd frames, where the branch reads the name `enabled`, which is
  -- not defined.
  unfoldable pub update :
      CarController → Controls → Option (CarController × Actuators × List CanMessage)
  unfolding even_frame new_command
  update s c =
      if nat_beq (s.frame % 2) 0
      then (let next = even_frame s c in
          let apply_steer = requested_steer s c in
          some (
            next,
            record { steer = next.last_steer; steer_output_can = apply_steer },
            new_command s
                ∷ (if next.fakes_camera
                    then create_steer_command packer apply_steer (pos 0) next.frame
                      ∷ new_command next
                      ∷ []
                    else []),
          ))
      else none
