-- ===== src/Limits/Tests.antt =====
-- The limiters on the constants of Toyota and Hyundai.
use openpilot9xxcivic.Prelude.{
  ℤ, pos, negsuc, neg, milli, ◌+ℤ◌, ◌-ℤ◌, ◌*ℤ◌, max_ℤ, ◌≤ℤ◌, ◌≡◌, refl, arith, int_round,
}
use openpilot9xxcivic.Clip.{max_min}
use openpilot9xxcivic.Limits.{
  SteerLimits, limit_rate, apply_dist_to_meas_limits, apply_meas_steer_torque_limits,
  driver_max_torque, driver_min_torque, apply_driver_steer_torque_limits,
}
use openpilot9xxcivic.Limits.Bounds.{
  IsWithin, lower, upper, apply_dist_to_meas_limits_bounds, apply_meas_steer_torque_limits_bounds,
}
use openpilot9xxcivic.Limits.Driver.{
  apply_driver_steer_torque_limits_bounds, apply_driver_steer_torque_limits_override,
}

abbrev toyota : SteerLimits
toyota = record {
  steer_max = 1500;
  steer_delta_up = 10;
  steer_delta_down = 25;
  steer_error_max = 350;
  steer_driver_allowance = 0;
  steer_driver_factor = 0;
  steer_driver_multiplier = 0;
}

abbrev hyundai : SteerLimits
hyundai = record {
  steer_max = 384;
  steer_delta_up = 3;
  steer_delta_down = 7;
  steer_error_max = 0;
  steer_driver_allowance = 50;
  steer_driver_factor = 1;
  steer_driver_multiplier = 2;
}

rises_by_ten :
    apply_meas_steer_torque_limits max_min (milli (pos 1000)) (pos 100) (pos 50000) toyota ≡ pos 110
unfolding apply_meas_steer_torque_limits apply_dist_to_meas_limits limit_rate neg ◌+ℤ◌ ◌-ℤ◌
    int_round
rises_by_ten = refl

falls_by_seven :
    apply_driver_steer_torque_limits max_min (milli (pos 384)) (pos 100) (negsuc 299999) hyundai
    ≡ pos 93
unfolding apply_driver_steer_torque_limits limit_rate driver_max_torque driver_min_torque neg ◌+ℤ◌
    ◌-ℤ◌ ◌*ℤ◌ int_round
falls_by_seven = refl

abbrev meas_args : ℤ
meas_args = apply_meas_steer_torque_limits max_min (pos 1000000) (pos 100) (pos 50000) toyota

apply_dist_to_meas_limits_bounds_example :
    IsWithin
      (pos 20)
      (apply_dist_to_meas_limits max_min (pos 90) (pos 5) (pos 7) (pos 2) (pos 3) (pos 4) (pos 20))
    × (lower (pos 5) (pos 2) (pos 3)
        ≤ℤ apply_dist_to_meas_limits max_min
            (pos 90)
            (pos 5)
            (pos 7)
            (pos 2)
            (pos 3)
            (pos 4)
            (pos 20))
    × (apply_dist_to_meas_limits max_min (pos 90) (pos 5) (pos 7) (pos 2) (pos 3) (pos 4) (pos 20)
        ≤ℤ upper (pos 5) (pos 2) (pos 3))
unfolding neg
apply_dist_to_meas_limits_bounds_example =
    apply_dist_to_meas_limits_bounds max_min (pos 90) (pos 5) (pos 7) (pos 2) (pos 3) (pos 4)
      (pos 20) (omega arith) (omega arith) (omega arith) (omega arith) (omega arith)

apply_meas_steer_torque_limits_bounds_example :
    IsWithin (pos 1500) meas_args
    × (lower (pos 100) (pos 10) (pos 25) ≤ℤ meas_args)
    × (meas_args ≤ℤ upper (pos 100) (pos 10) (pos 25))
unfolding neg
apply_meas_steer_torque_limits_bounds_example =
    apply_meas_steer_torque_limits_bounds max_min (pos 1000000) (pos 100) (pos 50000) toyota
      (omega arith)

abbrev driver_args : ℤ
driver_args =
    apply_driver_steer_torque_limits max_min (pos 384000) (pos 100) (negsuc 299999) hyundai

apply_driver_steer_torque_limits_bounds_example :
    IsWithin (pos 384) driver_args
    × (lower (pos 100) (pos 3) (pos 7) ≤ℤ driver_args)
    × (driver_args ≤ℤ upper (pos 100) (pos 3) (pos 7))
unfolding neg
apply_driver_steer_torque_limits_bounds_example =
    apply_driver_steer_torque_limits_bounds max_min (pos 384000) (pos 100) (negsuc 299999) hyundai
      (omega arith)

apply_driver_steer_torque_limits_override_example : driver_args ≤ℤ max_ℤ (pos 100 -ℤ pos 7) (pos 0)
unfolding driver_max_torque ◌+ℤ◌ ◌*ℤ◌
apply_driver_steer_torque_limits_override_example =
    apply_driver_steer_torque_limits_override max_min (pos 384000) (pos 100) (negsuc 299999) hyundai
      (omega arith)
