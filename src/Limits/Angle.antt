-- ===== src/Limits/Angle.antt =====
-- `apply_std_steer_angle_limits` of selfdrive/car/__init__.py. Angles are in thousandths of a degree. `interp` of
-- openpilot.common.numpy_fast, which is not in this repository, is a parameter with the documented bound of
-- a linear interpolation by its values.
use openpilot9xxcivic.Prelude.{
  ℤ, pos, abs, ◌+ℤ◌, ◌-ℤ◌, ◌*ℤ◌, ◌≤ℤ◌, ltb_ℤ, ltb, ◌≡◌, Bool, true, false, not, ◌&&◌, if◌then◌else◌,
  List, is_empty, Every, arith, -ℤ_parts, +ℤ_parts,
}
use openpilot9xxcivic.Clip.{Clip, le-clip, clip-le}

pub record Interp : Type 0 where
  pub interp : (x : ℤ) (xp fp : List ℤ) → ℤ
  pub interp_bounds :
      (x : ℤ) (xp fp : List ℤ) (lo hi : ℤ)
      → is_empty fp ≡ false
      → Every (λ y. (lo ≤ℤ y) × (y ≤ℤ hi)) fp
      → (lo ≤ℤ interp x xp fp) × (interp x xp fp ≤ℤ hi)

-- `AngleRateLimit`
pub record AngleRateLimit : Type 0 where
  pub speed_bp : List ℤ
  pub angle_v : List ℤ

pub record AngleLimits : Type 0 where
  pub angle_rate_limit_up : AngleRateLimit
  pub angle_rate_limit_down : AngleRateLimit

-- The angle winds up: away from the middle, on the same side.
unfoldable pub steer_up : (apply_angle apply_angle_last : ℤ) → Bool
steer_up apply_angle apply_angle_last =
    not (ltb_ℤ (apply_angle_last *ℤ apply_angle) (pos 0))
    && ltb (abs apply_angle_last) (abs apply_angle)

module _ (np : Clip) (ip : Interp) where
  open np use {clip}
  open ip use {interp}

  unfoldable pub angle_rate_lim : (apply_angle apply_angle_last v_ego : ℤ) → AngleLimits → ℤ
  unfolding steer_up
  angle_rate_lim apply_angle apply_angle_last v_ego limits =
      let rate_limits =
        if steer_up apply_angle apply_angle_last
        then limits.angle_rate_limit_up
        else limits.angle_rate_limit_down in
      interp v_ego rate_limits.speed_bp rate_limits.angle_v

  unfoldable pub apply_std_steer_angle_limits :
      (apply_angle apply_angle_last v_ego : ℤ) → AngleLimits → ℤ
  unfolding angle_rate_lim
  apply_std_steer_angle_limits apply_angle apply_angle_last v_ego limits =
      let lim = angle_rate_lim apply_angle apply_angle_last v_ego limits in
      clip apply_angle (apply_angle_last -ℤ lim) (apply_angle_last +ℤ lim)

  -- The values of a limit are between 0 and a bound, and there are some.
  abbrev pub IsRate : (hi : ℤ) → AngleRateLimit → Type 0
  IsRate hi l = (is_empty l.angle_v ≡ false) × Every (λ y. (pos 0 ≤ℤ y) × (y ≤ℤ hi)) l.angle_v

  pub angle_rate_lim_bounds :
      (apply_angle apply_angle_last v_ego up down : ℤ) (limits : AngleLimits)
      → IsRate up limits.angle_rate_limit_up
      → IsRate down limits.angle_rate_limit_down
      → let lim = angle_rate_lim apply_angle apply_angle_last v_ego limits in
        (pos 0 ≤ℤ lim) × (lim ≤ℤ (if steer_up apply_angle apply_angle_last then up else down))
  unfolding angle_rate_lim
  angle_rate_lim_bounds apply_angle apply_angle_last v_ego up down limits u d =
      bounds_of (steer_up apply_angle apply_angle_last)
    where
      bounds_of :
          (b : Bool)
          → let l = if b then limits.angle_rate_limit_up else limits.angle_rate_limit_down in
            (pos 0 ≤ℤ interp v_ego l.speed_bp l.angle_v)
            × (interp v_ego l.speed_bp l.angle_v ≤ℤ (if b then up else down))
      bounds_of true = ip.interp_bounds v_ego _ _ (pos 0) up u.0 u.1
      bounds_of false = ip.interp_bounds v_ego _ _ (pos 0) down d.0 d.1

  -- The angle moves from the last one by the greatest rate of its direction at most.
  pub apply_std_steer_angle_limits_bounds :
      (apply_angle last v_ego up down : ℤ) (limits : AngleLimits)
      → IsRate up limits.angle_rate_limit_up
      → IsRate down limits.angle_rate_limit_down
      → let angle = apply_std_steer_angle_limits apply_angle last v_ego limits in
        let bound = if steer_up apply_angle last then up else down in
        (last ≤ℤ angle +ℤ bound) × (angle ≤ℤ last +ℤ bound)
  unfolding apply_std_steer_angle_limits
  apply_std_steer_angle_limits_bounds apply_angle last v_ego up down limits u d =
      let lim = angle_rate_lim apply_angle last v_ego limits in
      let b = angle_rate_lim_bounds apply_angle last v_ego up down limits u d in
      near (if steer_up apply_angle last then up else down) lim
        (np.clip apply_angle (last -ℤ lim) (last +ℤ lim)) b.0 b.1
        (le-clip np apply_angle (last -ℤ lim) (last +ℤ lim) (ordered lim b.0))
        (clip-le np apply_angle (last -ℤ lim) (last +ℤ lim) (ordered lim b.0))
    where
      ordered : (lim : ℤ) → pos 0 ≤ℤ lim → last -ℤ lim ≤ℤ last +ℤ lim
      ordered lim h = omega (arith, -ℤ_parts last lim, +ℤ_parts last lim)

      near :
          (bound lim angle : ℤ)
          → pos 0 ≤ℤ lim
          → lim ≤ℤ bound
          → last -ℤ lim ≤ℤ angle
          → angle ≤ℤ last +ℤ lim
          → (last ≤ℤ angle +ℤ bound) × (angle ≤ℤ last +ℤ bound)
      near bound lim angle h k lo hi = (
        omega (arith, -ℤ_parts last lim, +ℤ_parts angle bound),
        omega (arith, +ℤ_parts last lim, +ℤ_parts last bound),
      )
