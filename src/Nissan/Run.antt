-- ===== src/Nissan/Run.antt =====
-- The angle and the torque of selfdrive/car/nissan/carcontroller.py over a drive.
use openpilot9xxcivic.Prelude.{
  ℕ, ℤ, pos, abs, ◌+ℤ◌, ◌-ℤ◌, ◌≤ℤ◌, max_ℤ, ◌-◌, ◌*◌, ◌≡◌, refl, ◌⊎◌, Bool, true, false, not,
  if◌then◌else◌, List, [], ◌∷◌, arith, Bool-cases, inl, inr, -ℤ_parts,
}
use openpilot9xxcivic.Can.{Packer}
use openpilot9xxcivic.Clip.{Clip}
use openpilot9xxcivic.Limits.Angle.{
  Interp, IsRate, steer_up, apply_std_steer_angle_limits, apply_std_steer_angle_limits_bounds,
}
use openpilot9xxcivic.Nissan.Controller.{
  Model, params, CarController, Controls, init, max_torque, apply_angle, update,
}

torque_range :
    (n : ℕ) (pressed : Bool)
    → let t = if not pressed then pos 10000 else max_ℤ (pos 5000) (pos 10000 -ℤ pos n) in
      (pos 5000 ≤ℤ t) × (t ≤ℤ pos 10000) × (pressed ≡ false → t ≡ pos 10000)
torque_range n false = (omega arith, omega arith, λ e. refl)
torque_range n true = (
  ground (arith, -ℤ_parts (pos 10000) (pos n)),
  ground (arith, -ℤ_parts (pos 10000) (pos n)),
  λ e. absurd (ground arith),
)

one_bound :
    (b : Bool) (last angle : ℤ)
    → let bound : ℤ = if b then pos 5000 else pos 5000 in
      (last ≤ℤ angle +ℤ bound) × (angle ≤ℤ last +ℤ bound)
      → (last ≤ℤ angle +ℤ pos 5000) × (angle ≤ℤ last +ℤ pos 5000)
one_bound true last angle h = h
one_bound false last angle h = h

module _ (np : Clip) (ip : Interp) (packer : Packer) (nissan_checksum : List ℕ → ℕ)
    (to_milli : ℤ → ℤ) (car : Model) where
  -- The object after the calls of a drive, the last one first.
  unfoldable pub after : List Controls → CarController
  unfolding init update
  after [] = init
  after (c ∷ earlier) = (update np ip packer nissan_checksum to_milli car (after earlier) c).0

  -- The angle that a call commands.
  abbrev pub command : Controls → List Controls → ℤ
  command c earlier = (update np ip packer nissan_checksum to_milli car (after earlier) c).1

  abbrev pub IsTorque : Controls → ℤ → Type 0
  IsTorque c t =
      (c.lat_active ≡ false) × (t ≡ pos 0)
      ⊎ (c.lat_active ≡ true)
        × (pos 5000 ≤ℤ t)
        × (t ≤ℤ pos 10000)
        × (c.steering_pressed ≡ false → t ≡ pos 10000)

  max_torque-IsTorque : (c : Controls) → IsTorque c (max_torque c)
  unfolding max_torque
  max_torque-IsTorque c = elim (Bool-cases c.lat_active) [
    | inl on ↦
        let (lo, hi, all) = torque_range (6 * (abs c.steering_torque - 1000)) c.steering_pressed in
        rw on (inr (refl, lo, hi, all))
    | inr off ↦ rw off (inl (refl, refl))
  ]

  abbrev pub IsNear : Controls → (last angle : ℤ) → Type 0
  IsNear c last angle =
      (c.lat_active ≡ false) × (angle ≡ c.steering_angle_deg)
      ⊎ (c.lat_active ≡ true) × (last ≤ℤ angle +ℤ pos 5000) × (angle ≤ℤ last +ℤ pos 5000)

  apply_angle-IsNear :
      (s : CarController) (c : Controls)
      → IsNear c s.apply_angle_last (apply_angle np ip packer nissan_checksum to_milli car s c)
  unfolding apply_angle
  apply_angle-IsNear s c = elim (Bool-cases c.lat_active) [
    | inl on ↦
        let (lo, hi) =
          one_bound (steer_up c.target_angle_deg s.apply_angle_last) s.apply_angle_last
            (apply_std_steer_angle_limits np ip c.target_angle_deg s.apply_angle_last c.v_ego_raw
              params)
            (apply_std_steer_angle_limits_bounds np ip c.target_angle_deg s.apply_angle_last
              c.v_ego_raw (pos 5000) (pos 5000) params rate_up rate_down) in
        rw on (inr (refl, lo, hi))
    | inr off ↦ rw off (inl (refl, refl))
  ]
    where
      rate_up : IsRate np ip (pos 5000) params.angle_rate_limit_up
      rate_up = (
        refl,
        (
          (omega arith, omega arith),
          ((omega arith, omega arith), ((omega arith, omega arith), tt)),
        ),
      )

      rate_down : IsRate np ip (pos 5000) params.angle_rate_limit_down
      rate_down = (
        refl,
        (
          (omega arith, omega arith),
          ((omega arith, omega arith), ((omega arith, omega arith), tt)),
        ),
      )

  pub update_lem :
      (c : Controls) (earlier : List Controls)
      → IsNear c (after earlier).apply_angle_last (command c earlier)
        × IsTorque c (after (c ∷ earlier)).lkas_max_torque
  unfolding after update
  update_lem c earlier = (apply_angle-IsNear (after earlier) c, max_torque-IsTorque c)
