-- ===== src/Honda/Run.antt =====
-- The steering controller of selfdrive/car/honda/carcontroller.py over the updates of a drive.
use openpilot9xxcivic.Can.{CanMessage, Packer}
use openpilot9xxcivic.Prelude.{
  ℤ, pos, neg, milli, int_round, ◌+ℤ◌, ◌-ℤ◌, ◌*ℤ◌, ◌≤ℤ◌, ◌≡◌, refl, ap, ◌∙◌, true, List, [], ◌∷◌,
  Option, none, some, arith, Bool-cases, inl, inr, negsuc, ◌||◌, leb,
}
use openpilot9xxcivic.Clip.{Clip, le-clip, clip-le}
use openpilot9xxcivic.Limits.Bounds.{
  IsWithin, lower, upper, apply_meas_steer_torque_limits_bounds,
  apply_toyota_steer_torque_limits-eq,
}
use openpilot9xxcivic.Honda.{
  params, max_steering_tq, create_steer_command, Floats, CarController, Controls, init,
}
use openpilot9xxcivic.Honda.Controller.{
  int_ne, Actuators, requested_steer, target_angle, plan, steer_torque, even_frame, new_command,
  update, calc_steering_torque_hold,
}

opposite_bounds : (x : ℤ) → IsWithin max_steering_tq x → IsWithin max_steering_tq (x *ℤ neg (pos 1))
unfolding ◌*ℤ◌ neg
opposite_bounds (pos n) h = ground arith
opposite_bounds (negsuc n) h = ground arith

zero_plus : pos 0 +ℤ pos 0 ≡ pos 0
unfolding ◌+ℤ◌
zero_plus = refl

pub zero_mul : (x : ℤ) → pos 0 *ℤ x ≡ pos 0
unfolding ◌*ℤ◌
zero_mul x = ground arith

small_request :
    (x : ℤ)
    → lower (pos 0) (pos 3) (pos 25) ≤ℤ x
    → x ≤ℤ upper (pos 0) (pos 3) (pos 25)
    → IsWithin (pos 3) x
unfolding neg ◌-ℤ◌ ◌+ℤ◌
small_request x l u = ground arith

torque_range : neg max_steering_tq ≤ℤ max_steering_tq
unfolding neg
torque_range = ground arith

module _ (np : Clip) (floats : Floats) (deg_to_rad : ℤ) (packer : Packer) where
  abbrev pub next_of : Option (CarController × Actuators × List CanMessage) → Option CarController
  next_of none = none
  next_of (some (next, actuators, can_sends)) = some next

  abbrev pub update_next : Option CarController → Controls → Option CarController
  update_next none c = none
  update_next (some s) c = next_of (update np floats deg_to_rad packer s c)

  -- The object after the updates of a drive, the last one first.
  unfoldable pub after : List Controls → Option CarController
  unfolding init update
  after [] = some init
  after (c ∷ earlier) = update_next (after earlier) c

  -- What the fields that no branch in use writes stay at.
  abbrev IsFixed : CarController → Type 0
  IsFixed s =
      (s.last_steer ≡ pos 0)
      × (s.frame ≡ 0)
      × (s.last_target_angle_lim ≡ pos 0)
      × (s.inertia_tq ≡ pos 0)
      × (s.fakes_camera ≡ true)

  requested_lem :
      (s : CarController) (c : Controls)
      → s.last_steer ≡ pos 0
      → IsWithin (pos 3) (requested_steer np floats deg_to_rad packer s c)
  unfolding requested_steer params neg
  requested_lem s c h = elim (Bool-cases c.lat_active) [
    | inl on ↦
        rw (on, h, apply_toyota_steer_torque_limits-eq)
          (let b =
              apply_meas_steer_torque_limits_bounds np
                (milli (int_round (c.steer *ℤ pos params.steer_max))) (pos 0) (pos 0) params
                (omega arith) in
            small_request _ b.1 b.2)
    | inr off ↦ rw off (ground arith)
  ]

  plan_lem :
      (s : CarController) (t : ℤ)
      → s.inertia_tq ≡ pos 0
      → (plan np floats deg_to_rad packer s t).1 ≡ pos 0
  unfolding plan
  plan_lem s t h = elim (Bool-cases (int_ne t s.last_target_angle_lim || leb 5 s.planner_cnt)) [
    | inl new ↦
        rw (new, h, zero_mul, floats.times_zero, floats.divided_zero, floats.times_zero) zero_plus
    | inr old ↦ rw (old, h) refl
  ]

  torque_lem :
      (t v steer i : ℤ)
      → IsWithin max_steering_tq
          (steer_torque np floats deg_to_rad packer t v steer i *ℤ neg (pos 1))
  unfolding steer_torque
  torque_lem t v steer i =
      let sum = calc_steering_torque_hold np floats deg_to_rad packer t v +ℤ steer +ℤ i in
      opposite_bounds (np.clip sum (neg max_steering_tq) max_steering_tq) (
        le-clip np sum (neg max_steering_tq) max_steering_tq torque_range,
        clip-le np sum (neg max_steering_tq) max_steering_tq torque_range,
      )

  -- What an update from `s` does: the messages, and the bounds of what they carry.
  abbrev pub IsWeak :
      CarController → Controls → CarController → Actuators × List CanMessage → Type 0
  IsWeak s c next (actuators, can_sends) =
      IsWithin (pos 3) actuators.steer_output_can
      × (actuators.steer ≡ pos 0)
      × IsWithin max_steering_tq next.steer_tq_r
      × (next.frame ≡ 0)
      × (can_sends
          ≡ new_command np floats deg_to_rad packer s
            ∷ create_steer_command packer actuators.steer_output_can (pos 0) 0
            ∷ new_command np floats deg_to_rad packer next
            ∷ [])

  update_lem :
      (s : CarController) (c : Controls)
      → IsFixed s
      → (next : CarController) × (out : Actuators × List CanMessage) × (update np floats deg_to_rad
            packer s c
          ≡ some (next, out.0, out.1))
        × IsWeak s c next out
        × IsFixed next
  unfolding update even_frame
  update_lem s c (last, frame, target, inertia, fakes) = (
    even_frame np floats deg_to_rad packer s c,
    (
      record {
        steer = s.last_steer;
        steer_output_can = requested_steer np floats deg_to_rad packer s c;
      },
      new_command np floats deg_to_rad packer s
          ∷ create_steer_command packer (requested_steer np floats deg_to_rad packer s c) (pos 0)
              s.frame
          ∷ new_command np floats deg_to_rad packer (even_frame np floats deg_to_rad packer s c)
          ∷ [],
    ),
    rw (frame, fakes) refl,
    (requested_lem s c last, last, torque_lem _ c.v_ego c.steer _, frame, rw frame refl),
    (last, frame, target, plan_lem s (target_angle np floats deg_to_rad packer s c) inertia, fakes),
  )

  after-IsFixed :
      (earlier : List Controls) → (s : CarController) × (after earlier ≡ some s) × IsFixed s
  unfolding after init
  after-IsFixed [] = (init, refl, (refl, refl, refl, refl, refl))
  after-IsFixed (c ∷ earlier) =
      let (s, e, f) = after-IsFixed earlier in
      let (next, out, u, w, g) = update_lem s c f in
      (next, ap (λ o. update_next o c) e ∙ ap next_of u, g)

  -- Over any updates of a drive there is no exception, and in each of them the torque command stays
  -- within 3 of 0, whatever is requested (of 1500), and is reported as 0; the torque for the servo is
  -- within its limit; and the counter of the messages stays 0. Three messages are sent: the servo's
  -- command of the update before, the torque command, and the servo's command of this update, none
  -- with a request bit or a mode.
  pub update-IsWeak :
      (c : Controls) (earlier : List Controls)
      → (s next : CarController) × (out : Actuators × List CanMessage) × (after earlier ≡ some s)
        × (update np floats deg_to_rad packer s c ≡ some (next, out.0, out.1))
        × IsWeak s c next out
  update-IsWeak c earlier =
      let (s, e, f) = after-IsFixed earlier in
      let (next, out, u, w, g) = update_lem s c f in (s, next, out, e, u, w)
