-- ===== src/Limits/Bounds.antt =====
-- The bounds of the limiters of selfdrive/car/__init__.py that compare with a measured value.
use openpilot9xxcivic.Prelude.{
  ℤ, pos, neg, milli, int_round, ◌+ℤ◌, ◌-ℤ◌, min_ℤ, max_ℤ, ltb_ℤ, if◌then◌else◌, ◌≤ℤ◌, ◌≡◌, refl,
  arith, +ℤ_parts, -ℤ_parts, neg_parts, milli_parts, int_round-le, le-int_round,
}
use openpilot9xxcivic.Clip.{Clip, le-clip, clip-le, clip_lem}
use openpilot9xxcivic.Limits.{
  SteerLimits, const, limit_rate, apply_dist_to_meas_limits, apply_meas_steer_torque_limits,
  apply_toyota_steer_torque_limits,
}

abbrev pub IsWithin : ℤ → ℤ → Type 0
IsWithin bound r = (neg bound ≤ℤ r) × (r ≤ℤ bound)

-- How far the next command may be from the last one.
abbrev pub lower : ℤ → ℤ → ℤ → ℤ
lower last up down = if ltb_ℤ (pos 0) last then max_ℤ (last -ℤ down) (neg up) else last -ℤ up

abbrev pub upper : ℤ → ℤ → ℤ → ℤ
upper last up down = if ltb_ℤ (pos 0) last then last +ℤ up else min_ℤ (last +ℤ down) up

pub lower-le-upper :
    (last up down : ℤ) → pos 0 ≤ℤ up → pos 0 ≤ℤ down → lower last up down ≤ℤ upper last up down
lower-le-upper last up down u d = ground (
  arith,
  neg_parts up,
  +ℤ_parts last up,
  -ℤ_parts last up,
  -ℤ_parts last down,
  +ℤ_parts last down,
)

-- From a last command in range, the rate leaves room in range on both sides.
rate_range :
    (bound last up down : ℤ)
    → pos 0 ≤ℤ up
    → pos 0 ≤ℤ down
    → IsWithin bound last
    → (lower last up down ≤ℤ bound) × (neg bound ≤ℤ upper last up down)
rate_range bound last up down u d l = ground (
  arith,
  neg_parts up,
  neg_parts bound,
  +ℤ_parts last up,
  -ℤ_parts last up,
  -ℤ_parts last down,
  +ℤ_parts last down,
)

clip-IsWithin :
    (np : Clip) (bound val lo hi : ℤ)
    → lo ≤ℤ hi
    → IsWithin bound val
    → lo ≤ℤ bound
    → neg bound ≤ℤ hi
    → IsWithin bound (np.clip val lo hi)
clip-IsWithin np bound val lo hi h v l u =
    rw (clip_lem np val lo hi h) (ground (arith, neg_parts bound))

-- The window round the measured value is an interval in the range of the actuator.
abbrev pub max_lim : ℤ → ℤ → ℤ → ℤ
max_lim val_meas error_max steer_max = min_ℤ (max_ℤ (val_meas +ℤ error_max) error_max) steer_max

abbrev pub min_lim : ℤ → ℤ → ℤ → ℤ
min_lim val_meas error_max steer_max =
    max_ℤ (min_ℤ (val_meas -ℤ error_max) (neg error_max)) (neg steer_max)

module _ (np : Clip) where
  open np use {clip}

  pub limit_rate_lem :
      (val last up down : ℤ)
      → limit_rate np val last up down ≡ clip val (lower last up down) (upper last up down)
  unfolding limit_rate
  limit_rate_lem val last up down = ground arith

  pub limit_rate_bounds :
      (val last up down : ℤ)
      → pos 0 ≤ℤ up
      → pos 0 ≤ℤ down
      → (lower last up down ≤ℤ limit_rate np val last up down)
        × (limit_rate np val last up down ≤ℤ upper last up down)
  limit_rate_bounds val last up down u d =
      let h = lower-le-upper last up down u d in
      rw limit_rate_lem (le-clip np val _ _ h, clip-le np val _ _ h)

  -- A command within the limit stays within it.
  pub limit_rate-IsWithin :
      (bound val last up down : ℤ)
      → pos 0 ≤ℤ up
      → pos 0 ≤ℤ down
      → IsWithin bound val
      → IsWithin bound last
      → IsWithin bound (limit_rate np val last up down)
  limit_rate-IsWithin bound val last up down u d v l =
      let r = rate_range bound last up down u d l in
      rw limit_rate_lem (
        clip-IsWithin np bound val (lower last up down) (upper last up down)
          (lower-le-upper last up down u d) v r.0 r.1)

  -- A value that the rate allows passes unchanged.
  pub limit_rate_within :
      (val last up down : ℤ)
      → lower last up down ≤ℤ val
      → val ≤ℤ upper last up down
      → limit_rate np val last up down ≡ val
  limit_rate_within val last up down l h = rw limit_rate_lem (np.clip_within val _ _ l h)

  window_lem :
      (m e b : ℤ)
      → pos 0 ≤ℤ e
      → pos 0 ≤ℤ b
      → (min_lim m e b ≤ℤ max_lim m e b) × (neg b ≤ℤ min_lim m e b) × (max_lim m e b ≤ℤ b)
  window_lem m e b he hb = ground (arith, neg_parts b, neg_parts e, +ℤ_parts m e, -ℤ_parts m e)

  pub window-IsWithin :
      (b val lo hi : ℤ) → lo ≤ℤ hi → neg b ≤ℤ lo → hi ≤ℤ b → IsWithin b (clip val lo hi)
  window-IsWithin b val lo hi h l u = omega (arith, le-clip np val lo hi h, clip-le np val lo hi h)

  -- The limited value keeps to the actuator's range and to the rate, whatever was requested and
  -- measured.
  pub apply_dist_to_meas_limits_bounds :
      (val last meas up down error_max steer_max : ℤ)
      → pos 0 ≤ℤ up
      → pos 0 ≤ℤ down
      → pos 0 ≤ℤ error_max
      → pos 0 ≤ℤ steer_max
      → IsWithin steer_max last
      → IsWithin steer_max (apply_dist_to_meas_limits np val last meas up down error_max steer_max)
        × (lower last up down
            ≤ℤ apply_dist_to_meas_limits np val last meas up down error_max steer_max)
        × (apply_dist_to_meas_limits np val last meas up down error_max steer_max
            ≤ℤ upper last up down)
  unfolding apply_dist_to_meas_limits
  apply_dist_to_meas_limits_bounds val last meas up down e b hu hd he hb hl =
      let w = window_lem meas e b he hb in
      let inside = window-IsWithin b val (min_lim meas e b) (max_lim meas e b) w.0 w.1 w.2 in
      let r =
        limit_rate_bounds (clip val (min_lim meas e b) (max_lim meas e b)) last up down hu hd in
      (limit_rate-IsWithin b _ last up down hu hd inside hl, r.0, r.1)

-- The bounds of the rate, in whole units and in thousandths.
pub milli-lower :
    (last up down : ℤ) → milli (lower last up down) ≤ℤ lower (milli last) (milli up) (milli down)
milli-lower last up down = ground (
  arith,
  milli_parts (lower last up down),
  milli_parts last,
  milli_parts up,
  milli_parts down,
  neg_parts up,
  neg_parts (milli up),
  -ℤ_parts last up,
  -ℤ_parts last down,
  -ℤ_parts (milli last) (milli up),
  -ℤ_parts (milli last) (milli down),
)

pub milli-upper :
    (last up down : ℤ) → upper (milli last) (milli up) (milli down) ≤ℤ milli (upper last up down)
milli-upper last up down = ground (
  arith,
  milli_parts (upper last up down),
  milli_parts last,
  milli_parts up,
  milli_parts down,
  +ℤ_parts last up,
  +ℤ_parts last down,
  +ℤ_parts (milli last) (milli up),
  +ℤ_parts (milli last) (milli down),
)

pub int_round-rate :
    (x last up down : ℤ)
    → lower (milli last) (milli up) (milli down) ≤ℤ x
    → x ≤ℤ upper (milli last) (milli up) (milli down)
    → (lower last up down ≤ℤ int_round x) × (int_round x ≤ℤ upper last up down)
int_round-rate x last up down l u = (
  le-int_round x (lower last up down) (omega (arith, milli-lower last up down)),
  int_round-le x (upper last up down) (omega (arith, milli-upper last up down)),
)

pub milli-IsWithin : (b r : ℤ) → IsWithin b r → IsWithin (milli b) (milli r)
milli-IsWithin b r h = omega (arith, neg_parts b, neg_parts (milli b), milli_parts b, milli_parts r)

pub int_round-IsWithin : (b x : ℤ) → IsWithin (milli b) x → IsWithin b (int_round x)
int_round-IsWithin b x h = (
  le-int_round x (neg b)
      (omega (arith, neg_parts b, neg_parts (milli b), milli_parts b, milli_parts (neg b))),
  int_round-le x b h.1,
)

module _ (np : Clip) where
  -- The torque command keeps to the actuator's range and to the rate, whatever was requested and
  -- whatever the motor reports.
  pub apply_meas_steer_torque_limits_bounds :
      (apply_torque last motor_torque : ℤ) (limits : SteerLimits)
      → IsWithin (pos limits.steer_max) last
      → IsWithin
          (pos limits.steer_max)
          (apply_meas_steer_torque_limits np apply_torque last motor_torque limits)
        × (lower last (pos limits.steer_delta_up) (pos limits.steer_delta_down)
            ≤ℤ apply_meas_steer_torque_limits np apply_torque last motor_torque limits)
        × (apply_meas_steer_torque_limits np apply_torque last motor_torque limits
            ≤ℤ upper last (pos limits.steer_delta_up) (pos limits.steer_delta_down))
  unfolding apply_meas_steer_torque_limits
  apply_meas_steer_torque_limits_bounds apply_torque last motor_torque limits h =
      let b =
        apply_dist_to_meas_limits_bounds np apply_torque (milli last) motor_torque
          (const limits.steer_delta_up) (const limits.steer_delta_down)
          (const limits.steer_error_max) (const limits.steer_max) (omega arith) (omega arith)
          (omega arith) (omega arith) (milli-IsWithin (pos limits.steer_max) last h) in
      let r =
        int_round-rate _ last (pos limits.steer_delta_up) (pos limits.steer_delta_down) b.1 b.2 in
      (int_round-IsWithin (pos limits.steer_max) _ b.0, r.0, r.1)

  -- The routine written out for Toyota is the general one.
  pub apply_toyota_steer_torque_limits-eq :
      (apply_torque last motor_torque : ℤ) (limits : SteerLimits)
      → apply_toyota_steer_torque_limits np apply_torque last motor_torque limits
        ≡ apply_meas_steer_torque_limits np apply_torque last motor_torque limits
  unfolding apply_toyota_steer_torque_limits apply_meas_steer_torque_limits
      apply_dist_to_meas_limits limit_rate
  apply_toyota_steer_torque_limits-eq apply_torque last motor_torque limits = refl
