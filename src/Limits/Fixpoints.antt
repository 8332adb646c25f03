-- ===== src/Limits/Fixpoints.antt =====
-- What the limiters of selfdrive/car/__init__.py leave alone.
use openpilot9xxcivic.Prelude.{
  ℤ, pos, milli, ◌+ℤ◌, ◌-ℤ◌, ◌≤ℤ◌, ◌≡◌, arith, +ℤ_parts, -ℤ_parts, int_round-milli,
}
use openpilot9xxcivic.Clip.{Clip}
use openpilot9xxcivic.Limits.{
  SteerLimits, const, apply_hysteresis, apply_dist_to_meas_limits, apply_meas_steer_torque_limits,
}
use openpilot9xxcivic.Limits.Bounds.{lower, upper, limit_rate_within, max_lim, min_lim}

-- With a gap that is not negative the steady value stays within the gap of the input, and an input
-- within the gap leaves it as it is.
pub apply_hysteresis_lem :
    (val val_steady gap : ℤ)
    → pos 0 ≤ℤ gap
    → (apply_hysteresis val val_steady gap ≤ℤ val +ℤ gap)
      × (val -ℤ gap ≤ℤ apply_hysteresis val val_steady gap)
      × (val ≤ℤ val_steady +ℤ gap
          → val_steady -ℤ gap ≤ℤ val
          → apply_hysteresis val val_steady gap ≡ val_steady)
unfolding apply_hysteresis
apply_hysteresis_lem val steady gap h = (
  ground (arith, +ℤ_parts val gap, -ℤ_parts val gap, +ℤ_parts steady gap, -ℤ_parts steady gap),
  ground (arith, +ℤ_parts val gap, -ℤ_parts val gap, +ℤ_parts steady gap, -ℤ_parts steady gap),
  λ u l.
      ground (arith, +ℤ_parts val gap, -ℤ_parts val gap, +ℤ_parts steady gap, -ℤ_parts steady gap),
)

module _ (np : Clip) where
  -- A requested int that lies in the window round the motor's torque and that the rate allows is sent
  -- as it was requested.
  pub apply_meas_steer_torque_limits_within :
      (request last motor_torque : ℤ) (limits : SteerLimits)
      → min_lim motor_torque (const limits.steer_error_max) (const limits.steer_max)
        ≤ℤ milli request
      → milli request
        ≤ℤ max_lim motor_torque (const limits.steer_error_max) (const limits.steer_max)
      → lower (milli last) (const limits.steer_delta_up) (const limits.steer_delta_down)
        ≤ℤ milli request
      → milli request
        ≤ℤ upper (milli last) (const limits.steer_delta_up) (const limits.steer_delta_down)
      → apply_meas_steer_torque_limits np (milli request) last motor_torque limits ≡ request
  unfolding apply_meas_steer_torque_limits apply_dist_to_meas_limits
  apply_meas_steer_torque_limits_within request last motor_torque limits a b c d =
      rw (np.clip_within (milli request) _ _ a b, limit_rate_within np (milli request) _ _ _ c d)
        (int_round-milli request)
