-- ===== src/Limits/Driver.antt =====
-- The limiter of selfdrive/car/__init__.py that gives way to the driver's torque.
use openpilot9xxcivic.Prelude.{
  ℤ, pos, neg, milli, ◌-ℤ◌, min_ℤ, max_ℤ, ◌≤ℤ◌, arith, -ℤ_parts, neg_parts, milli_parts,
  int_round-le,
}
use openpilot9xxcivic.Clip.{Clip, clip-le, clip_lem}
use openpilot9xxcivic.Limits.{
  SteerLimits, const, limit_rate, driver_max_torque, driver_min_torque,
  apply_driver_steer_torque_limits,
}
use openpilot9xxcivic.Limits.Bounds.{
  IsWithin, lower, upper, limit_rate_bounds, limit_rate-IsWithin, window-IsWithin, int_round-rate,
  milli-IsWithin, int_round-IsWithin, limit_rate_lem, lower-le-upper,
}

allowed_lem :
    (b hi lo : ℤ)
    → pos 0 ≤ℤ b
    → (min_ℤ (max_ℤ (neg b) lo) (pos 0) ≤ℤ max_ℤ (min_ℤ b hi) (pos 0))
      × (neg b ≤ℤ min_ℤ (max_ℤ (neg b) lo) (pos 0))
      × (max_ℤ (min_ℤ b hi) (pos 0) ≤ℤ b)
allowed_lem b hi lo h = ground (arith, neg_parts b)

-- Once nothing is allowed on a side, the rate alone decides how fast the command returns.
give_way :
    (np : Clip) (val last up down : ℤ)
    → pos 0 ≤ℤ up
    → pos 0 ≤ℤ down
    → val ≤ℤ pos 0
    → limit_rate np val last up down ≤ℤ max_ℤ (last -ℤ down) (pos 0)
give_way np val last up down u d v =
    rw (limit_rate_lem, clip_lem np val _ _ (lower-le-upper last up down u d))
      (ground (arith, neg_parts up, -ℤ_parts last up, -ℤ_parts last down))

none_allowed : (b hi v : ℤ) → hi ≤ℤ pos 0 → v ≤ℤ max_ℤ (min_ℤ b hi) (pos 0) → v ≤ℤ pos 0
none_allowed b hi v h k = ground arith

le-milli_max :
    (last down r : ℤ)
    → r ≤ℤ max_ℤ (milli last -ℤ milli down) (pos 0)
    → r ≤ℤ milli (max_ℤ (last -ℤ down) (pos 0))
le-milli_max last down r h = ground (
  arith,
  milli_parts (last -ℤ down),
  milli_parts last,
  milli_parts down,
  -ℤ_parts last down,
  -ℤ_parts (milli last) (milli down),
)

module _ (np : Clip) where
  -- The command keeps to the actuator's range and to the rate, whatever was requested and whatever
  -- the driver does.
  pub apply_driver_steer_torque_limits_bounds :
      (apply_torque last driver_torque : ℤ) (limits : SteerLimits)
      → IsWithin (pos limits.steer_max) last
      → IsWithin
          (pos limits.steer_max)
          (apply_driver_steer_torque_limits np apply_torque last driver_torque limits)
        × (lower last (pos limits.steer_delta_up) (pos limits.steer_delta_down)
            ≤ℤ apply_driver_steer_torque_limits np apply_torque last driver_torque limits)
        × (apply_driver_steer_torque_limits np apply_torque last driver_torque limits
            ≤ℤ upper last (pos limits.steer_delta_up) (pos limits.steer_delta_down))
  unfolding apply_driver_steer_torque_limits
  apply_driver_steer_torque_limits_bounds apply_torque last driver_torque limits h =
      let up = const limits.steer_delta_up in
      let down = const limits.steer_delta_down in
      let hi = driver_max_torque driver_torque limits in
      let lo = driver_min_torque driver_torque limits in
      let b = const limits.steer_max in
      let w = allowed_lem b hi lo (omega arith) in
      let request =
        np.clip apply_torque (min_ℤ (max_ℤ (neg b) lo) (pos 0)) (max_ℤ (min_ℤ b hi) (pos 0)) in
      let inside : IsWithin b request = window-IsWithin np b apply_torque _ _ w.0 w.1 w.2 in
      let range =
        limit_rate-IsWithin np b request (milli last) up down (omega arith) (omega arith) inside
          (milli-IsWithin (pos limits.steer_max) last h) in
      let rate = limit_rate_bounds np request (milli last) up down (omega arith) (omega arith) in
      let r =
        int_round-rate _ last (pos limits.steer_delta_up) (pos limits.steer_delta_down) rate.0
          rate.1 in
      (int_round-IsWithin (pos limits.steer_max) _ range, r.0, r.1)

  -- While the driver's torque leaves no room for a positive command, a positive command falls by the
  -- full step down.
  pub apply_driver_steer_torque_limits_override :
      (apply_torque last driver_torque : ℤ) (limits : SteerLimits)
      → driver_max_torque driver_torque limits ≤ℤ pos 0
      → apply_driver_steer_torque_limits np apply_torque last driver_torque limits
        ≤ℤ max_ℤ (last -ℤ pos limits.steer_delta_down) (pos 0)
  unfolding apply_driver_steer_torque_limits
  apply_driver_steer_torque_limits_override apply_torque last driver_torque limits h =
      let up = const limits.steer_delta_up in
      let down = const limits.steer_delta_down in
      let hi = driver_max_torque driver_torque limits in
      let lo = driver_min_torque driver_torque limits in
      let b = const limits.steer_max in
      let w = allowed_lem b hi lo (omega arith) in
      let v = clip-le np apply_torque _ _ w.0 in
      let g =
        give_way np (np.clip apply_torque _ _) (milli last) up down (omega arith) (omega arith)
          (none_allowed b hi _ h v) in
      int_round-le _ _ (le-milli_max last (pos limits.steer_delta_down) _ g)
