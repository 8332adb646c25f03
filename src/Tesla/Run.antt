-- ===== src/Tesla/Run.antt =====
-- The angle of selfdrive/car/tesla/carcontroller.py in the calls of a drive, and its accelerations.
use openpilot9xxcivic.Prelude.{
  ℕ, ℤ, pos, ◌+ℤ◌, ◌-ℤ◌, ◌≤ℤ◌, ◌≡◌, refl, Bool, true, false, List, arith, +ℤ_parts, -ℤ_parts,
  Bool-cases, inl, inr, ◌⊎◌,
}
use openpilot9xxcivic.Can.{Packer}
use openpilot9xxcivic.Clip.{Clip, le-clip, clip-le}
use openpilot9xxcivic.Limits.Angle.{Interp, apply_std_steer_angle_limits}
use openpilot9xxcivic.Tesla.Controller.{
  CarController, Controls, params, lkas_enabled, every, min_accel, max_accel, apply_angle, update,
}

ordered : (a : ℤ) → a -ℤ pos 20000 ≤ℤ a +ℤ pos 20000
ordered a = omega (arith, -ℤ_parts a (pos 20000), +ℤ_parts a (pos 20000))

-- The range of accelerations that is allowed has 0 at one end and the one that is asked for at the other.
pub accel_lem :
    (c : Controls)
    → (min_accel c ≤ℤ pos 0)
      × (pos 0 ≤ℤ max_accel c)
      × (min_accel c ≤ℤ c.accel)
      × (c.accel ≤ℤ max_accel c)
accel_lem c = (ground arith, ground arith, ground arith, ground arith)

module _ (np : Clip) (ip : Interp) (packer pt_packer : Packer) (crc : List ℕ → ℕ)
    (long : Bool) where
  abbrev pub IsNear : Controls → (angle : ℤ) → Type 0
  IsNear c angle =
      (lkas_enabled c ≡ false) × (angle ≡ c.steering_angle_deg)
      ⊎ (lkas_enabled c ≡ true)
        × (c.steering_angle_deg -ℤ pos 20000 ≤ℤ angle)
        × (angle ≤ℤ c.steering_angle_deg +ℤ pos 20000)

  apply_angle-IsNear :
      (s : CarController) (c : Controls)
      → IsNear c (apply_angle np ip packer pt_packer crc long s c)
  unfolding apply_angle
  apply_angle-IsNear s c = elim (Bool-cases (lkas_enabled c)) [
    | inl on ↦
        let target =
          apply_std_steer_angle_limits np ip c.target_angle_deg s.apply_angle_last c.v_ego params in
        let a = c.steering_angle_deg in
        rw on (
          inr (
            refl,
            le-clip np target (a -ℤ pos 20000) (a +ℤ pos 20000) (ordered a),
            clip-le np target (a -ℤ pos 20000) (a +ℤ pos 20000) (ordered a),
          ))
    | inr off ↦ rw off (inl (refl, refl))
  ]

  -- After a call at an even frame the commanded angle is the measured one, or, with lateral control on and no
  -- hands-on fault, within 20 degrees of it; after one at an odd frame it is unchanged.
  pub update_angle :
      (s : CarController) (c : Controls)
      → let angle = (update np ip packer pt_packer crc long s c).0.apply_angle_last in
        (every 2 s.frame ≡ true) × IsNear c angle
        ⊎ (every 2 s.frame ≡ false) × (angle ≡ s.apply_angle_last)
  unfolding update
  update_angle s c = elim (Bool-cases (every 2 s.frame)) [
    | inl now ↦ rw now (inl (refl, apply_angle-IsNear s c))
    | inr later ↦ rw later (inr (refl, refl))
  ]
