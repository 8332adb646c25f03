-- ===== src/Subaru/Bounds.antt =====
-- The bounds of the commands of selfdrive/car/subaru/carcontroller.py.
use openpilot9xxcivic.Prelude.{
  ℕ, ℤ, pos, milli, int_round, ◌*ℤ◌, ◌≤ℤ◌, ◌≤◌, ◌≡◌, refl, ◌⊎◌, true, false, List, [], ◌∷◌, arith,
  Bool-cases, inl, inr, neg_parts,
}
use openpilot9xxcivic.Can.{Packer}
use openpilot9xxcivic.Clip.{Clip, le-clip, clip-le}
use openpilot9xxcivic.Limits.Bounds.{IsWithin, lower, upper}
use openpilot9xxcivic.Limits.Driver.{apply_driver_steer_torque_limits_bounds}
use openpilot9xxcivic.Subaru.Controller.{
  Car, CarController, Controls, params, init, apply_steer, long_commands, every, steer_step,
  steered, update,
}

zero-IsWithin : (b : ℕ) → IsWithin (pos b) (pos 0)
zero-IsWithin b = ground (arith, neg_parts (pos b))

module _ (np : Clip) (interp : ℤ → List ℤ → List ℤ → ℤ) (packer : Packer) (car : Car) where
  -- The object after the calls of a drive, the last one first.
  unfoldable pub after : List Controls → CarController
  unfolding init update
  after [] = init
  after (c ∷ earlier) = (update np interp packer car (after earlier) c).0

  steer_lem :
      (c : Controls) (last : ℤ)
      → IsWithin (pos (params car).steer_max) last
      → let command = apply_steer np interp packer car c last in
        let up = pos (params car).steer_delta_up in
        let down = pos (params car).steer_delta_down in
        IsWithin (pos (params car).steer_max) command
        × ((c.lat_active ≡ false) × (command ≡ pos 0)
            ⊎ (c.lat_active ≡ true)
              × (lower last up down ≤ℤ command)
              × (command ≤ℤ upper last up down))
  unfolding apply_steer
  steer_lem c last h = elim (Bool-cases c.lat_active) [
    | inl on ↦
        let b =
          apply_driver_steer_torque_limits_bounds np
            (milli (int_round (c.steer *ℤ pos (params car).steer_max))) last c.steering_torque
            (params car) h in
        rw on (b.0, inr (refl, b.1, b.2))
    | inr off ↦ rw off (zero-IsWithin (params car).steer_max, inl (refl, refl))
  ]

  command-IsWithin :
      (earlier : List Controls)
      → IsWithin (pos (params car).steer_max) (after earlier).apply_steer_last
  unfolding after init update steered
  command-IsWithin [] = zero-IsWithin (params car).steer_max
  command-IsWithin (c ∷ cs) = elim (Bool-cases (every steer_step (after cs).frame)) [
    | inl now ↦ rw now (steer_lem c (after cs).apply_steer_last (command-IsWithin cs)).0
    | inr later ↦ rw later (command-IsWithin cs)
  ]

  -- In each steering frame of a drive, a call at an even frame number, the command is within STEER_MAX of
  -- 0, and 0 while lateral control is off; while it is on the command rises in magnitude by
  -- STEER_DELTA_UP at most and falls by STEER_DELTA_DOWN at most. It stays as it was in the other calls.
  pub apply_steer_range :
      (c : Controls) (earlier : List Controls)
      → let s = after earlier in
        let command = (update np interp packer car s c).0.apply_steer_last in
        let up = pos (params car).steer_delta_up in
        let down = pos (params car).steer_delta_down in
        IsWithin (pos (params car).steer_max) command
        × ((every steer_step s.frame ≡ false) × (command ≡ s.apply_steer_last)
            ⊎ (every steer_step s.frame ≡ true)
              × ((c.lat_active ≡ false) × (command ≡ pos 0)
                  ⊎ (c.lat_active ≡ true)
                    × (lower s.apply_steer_last up down ≤ℤ command)
                    × (command ≤ℤ upper s.apply_steer_last up down)))
  unfolding update steered
  apply_steer_range c earlier =
      let s = after earlier in
      elim (Bool-cases (every steer_step s.frame)) [
        | inl now ↦
            let b = steer_lem c s.apply_steer_last (command-IsWithin earlier) in
            rw now (b.0, inr (refl, b.1))
        | inr later ↦ rw later (command-IsWithin earlier, inl (refl, refl))
      ]

  abbrev pub IsBetween : (lo hi x : ℤ) → Type 0
  IsBetween lo hi x = (lo ≤ℤ x) × (x ≤ℤ hi)

  clip-IsBetween :
      (x : ℤ) (lo hi : ℕ) → lo ≤ hi → IsBetween (pos lo) (pos hi) (np.clip x (pos lo) (pos hi))
  clip-IsBetween x lo hi h =
      (le-clip np x (pos lo) (pos hi) (omega arith), clip-le np x (pos lo) (pos hi) (omega arith))

  -- Whatever the acceleration asked for, and whatever the lookup gives, the throttle is between 808 and
  -- 3400, the engine speed between 0 and 3600 and the brake pressure between 0 and 600; without
  -- longitudinal control the throttle is the inactive one, 1818, and the other two are 0.
  pub long_commands_lem :
      (c : Controls)
      → let l = long_commands np interp packer car c in
        IsBetween (pos 808) (pos 3400) l.cruise_throttle
        × IsBetween (pos 0) (pos 3600) l.cruise_rpm
        × IsBetween (pos 0) (pos 600) l.cruise_brake
        × (c.long_active ≡ false
            → (l.cruise_throttle ≡ pos 1818) × (l.cruise_rpm ≡ pos 0) × (l.cruise_brake ≡ pos 0))
  unfolding long_commands
  long_commands_lem c = elim (Bool-cases c.long_active) [
    | inl on ↦ rw on (
      clip-IsBetween _ 808 3400 (omega arith),
      clip-IsBetween _ 0 3600 (omega arith),
      clip-IsBetween _ 0 600 (omega arith),
      λ e. absurd (ground arith),
    )
    | inr off ↦ rw off (
      (omega arith, omega arith),
      (omega arith, omega arith),
      (omega arith, omega arith),
      λ e. (refl, refl, refl),
    )
  ]
