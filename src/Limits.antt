-- ===== src/Limits.antt =====
-- The rate and magnitude limits of steering commands: selfdrive/car/__init__.py.
-- A float is an integer in thousandths; `clip` is the parameter `np`.
pub mod Bounds
pub mod Angle
pub mod Driver
pub mod Fixpoints
mod Tests
use openpilot9xxcivic.Prelude.{
  ℕ, ℤ, pos, neg, milli, int_round, ◌+ℤ◌, ◌-ℤ◌, ◌*ℤ◌, min_ℤ, max_ℤ, ltb_ℤ, if◌then◌else◌,
}
use openpilot9xxcivic.Clip.{Clip}

-- The fields of a brand's `CarControllerParams` that the limiters read. They are not negative.
pub record SteerLimits : Type 0 where
  pub steer_max : ℕ
  pub steer_delta_up : ℕ
  pub steer_delta_down : ℕ
  pub steer_error_max : ℕ
  pub steer_driver_allowance : ℕ
  pub steer_driver_factor : ℕ
  pub steer_driver_multiplier : ℕ

-- An int constant as a float.
abbrev pub const : ℕ → ℤ
const n = milli (pos n)

unfoldable pub apply_hysteresis : ℤ → ℤ → ℤ → ℤ
apply_hysteresis val val_steady hyst_gap =
    if ltb_ℤ (val_steady +ℤ hyst_gap) val
    then val -ℤ hyst_gap
    else if ltb_ℤ val (val_steady -ℤ hyst_gap)
    then val +ℤ hyst_gap
    else val_steady

-- The limits due to the driver's torque, with int factors.
unfoldable pub driver_max_torque : ℤ → SteerLimits → ℤ
driver_max_torque driver_torque limits =
    const limits.steer_max
    +ℤ (const limits.steer_driver_allowance +ℤ driver_torque *ℤ pos limits.steer_driver_factor)
      *ℤ pos limits.steer_driver_multiplier

unfoldable pub driver_min_torque : ℤ → SteerLimits → ℤ
driver_min_torque driver_torque limits =
    neg (const limits.steer_max)
    +ℤ (neg (const limits.steer_driver_allowance)
        +ℤ driver_torque *ℤ pos limits.steer_driver_factor)
      *ℤ pos limits.steer_driver_multiplier

module _ (np : Clip) where
  open np use {clip}

  -- The last step that the limiters share: slow the rate if the value grows in magnitude.
  unfoldable pub limit_rate : (val val_last delta_up delta_down : ℤ) → ℤ
  limit_rate val val_last delta_up delta_down =
      if ltb_ℤ (pos 0) val_last
      then clip val (max_ℤ (val_last -ℤ delta_down) (neg delta_up)) (val_last +ℤ delta_up)
      else clip val (val_last -ℤ delta_up) (min_ℤ (val_last +ℤ delta_down) delta_up)

  unfoldable pub apply_dist_to_meas_limits :
      (val val_last val_meas delta_up delta_down error_max steer_max : ℤ) → ℤ
  apply_dist_to_meas_limits val val_last val_meas delta_up delta_down error_max steer_max =
      let max_lim = min_ℤ (max_ℤ (val_meas +ℤ error_max) error_max) steer_max in
      let min_lim = max_ℤ (min_ℤ (val_meas -ℤ error_max) (neg error_max)) (neg steer_max) in
      limit_rate (clip val min_lim max_lim) val_last delta_up delta_down

  -- The torques are floats, the last command is an int.
  unfoldable pub apply_meas_steer_torque_limits : (ℤ → ℤ → ℤ → SteerLimits → ℤ)
  apply_meas_steer_torque_limits apply_torque apply_torque_last motor_torque limits = int_round (
      apply_dist_to_meas_limits apply_torque (milli apply_torque_last) motor_torque
        (const limits.steer_delta_up) (const limits.steer_delta_down) (const limits.steer_error_max)
        (const limits.steer_max))

  unfoldable pub apply_toyota_steer_torque_limits : ℤ → ℤ → ℤ → SteerLimits → ℤ
  apply_toyota_steer_torque_limits apply_torque apply_torque_last motor_torque limits =
      let error_max = const limits.steer_error_max in
      let steer_max = const limits.steer_max in
      let delta_up = const limits.steer_delta_up in
      let delta_down = const limits.steer_delta_down in
      let last = milli apply_torque_last in
      let max_lim = min_ℤ (max_ℤ (motor_torque +ℤ error_max) error_max) steer_max in
      let min_lim = max_ℤ (min_ℤ (motor_torque -ℤ error_max) (neg error_max)) (neg steer_max) in
      let clipped = clip apply_torque min_lim max_lim in
      int_round (
        if ltb_ℤ (pos 0) last
        then clip clipped (max_ℤ (last -ℤ delta_down) (neg delta_up)) (last +ℤ delta_up)
        else clip clipped (last -ℤ delta_up) (min_ℤ (last +ℤ delta_down) delta_up))

  unfoldable pub apply_driver_steer_torque_limits : ℤ → ℤ → ℤ → SteerLimits → ℤ
  apply_driver_steer_torque_limits apply_torque apply_torque_last driver_torque limits =
      let steer_max = const limits.steer_max in
      let max_steer_allowed =
        max_ℤ (min_ℤ steer_max (driver_max_torque driver_torque limits)) (pos 0) in
      let min_steer_allowed =
        min_ℤ (max_ℤ (neg steer_max) (driver_min_torque driver_torque limits)) (pos 0) in
      int_round (
        limit_rate (clip apply_torque min_steer_allowed max_steer_allowed) (milli apply_torque_last)
          (const limits.steer_delta_up) (const limits.steer_delta_down))
