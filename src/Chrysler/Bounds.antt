-- ===== src/Chrysler/Bounds.antt =====
-- The torque commands of selfdrive/car/chrysler/carcontroller.py over a drive.
use openpilot9xxcivic.Prelude.{
  ℕ, ℤ, pos, milli, int_round, ◌*ℤ◌, ◌≤ℤ◌, ◌≡◌, refl, ◌⊎◌, Bool, true, false, not, ◌&&◌, ◌||◌, List,
  [], ◌∷◌, arith, Bool-cases, inl, inr, neg_parts,
}
use openpilot9xxcivic.Can.{Packer}
use openpilot9xxcivic.Clip.{Clip}
use openpilot9xxcivic.Limits.Bounds.{IsWithin, lower, upper, apply_meas_steer_torque_limits_bounds}
use openpilot9xxcivic.Chrysler.Controller.{
  Car, CarController, Controls, params, init, lkas_control_bit, lkas_active, apply_steer, every,
  steer_step, steered, update,
}
use openpilot9xxcivic.Chrysler.Edges.{after, control_bit}

zero-IsWithin : (b : ℕ) → IsWithin (pos b) (pos 0)
zero-IsWithin b = ground (arith, neg_parts (pos b))

module _ (np : Clip) (packer : Packer) (car : Car) where
  -- The command obeys the actuator, and the rate unless it is cut off.
  abbrev pub IsLimited : (cut : Bool) (last command : ℤ) → Type 0
  IsLimited cut last command =
      IsWithin (pos (params car).steer_max) command
      × ((cut ≡ true) × (command ≡ pos 0)
          ⊎ (cut ≡ false)
            × (lower last (pos (params car).steer_delta_up) (pos (params car).steer_delta_down)
                ≤ℤ command)
            × (command
                ≤ℤ upper last (pos (params car).steer_delta_up)
                    (pos (params car).steer_delta_down)))

  abbrev pub is_cut : CarController → Controls → Bool
  is_cut s c = not (lkas_active s c) || not (lkas_control_bit car s c)

  steer_lem :
      (s : CarController) (c : Controls)
      → IsWithin (pos (params car).steer_max) s.apply_steer_last
      → IsLimited (is_cut s c) s.apply_steer_last (apply_steer np packer car s c)
  unfolding apply_steer
  steer_lem s c h = elim (Bool-cases (is_cut s c)) [
    | inl cut ↦ rw cut (zero-IsWithin (params car).steer_max, inl (refl, refl))
    | inr on ↦
        let b =
          apply_meas_steer_torque_limits_bounds np
            (milli (int_round (c.steer *ℤ pos (params car).steer_max))) s.apply_steer_last
            c.steering_torque_eps (params car) h in
        rw on (b.0, inr (refl, b.1, b.2))
  ]

  command-IsWithin :
      (earlier : List Controls)
      → IsWithin (pos (params car).steer_max) (after np packer car earlier).apply_steer_last
  unfolding after init update steered
  command-IsWithin [] = zero-IsWithin (params car).steer_max
  command-IsWithin (c ∷ cs) = elim (Bool-cases (every steer_step (after np packer car cs).frame)) [
    | inl now ↦ rw now (steer_lem (after np packer car cs) c (command-IsWithin cs)).0
    | inr later ↦ rw later (command-IsWithin cs)
  ]

  steering_frame :
      (c : Controls) (earlier : List Controls)
      → let s = after np packer car earlier in
        every steer_step s.frame ≡ true
        → ((after np packer car (c ∷ earlier)).apply_steer_last ≡ apply_steer np packer car s c)
          × (control_bit np packer car (c ∷ earlier) ≡ lkas_control_bit car s c)
  unfolding after update steered
  steering_frame c earlier now = (rw now refl, rw (control_bit, now) refl)

  -- In each steering frame of a drive, a call at an even frame number, the command is within STEER_MAX of
  -- 0. It is 0 unless lateral control is on and the control bit was on before the call and stays on; then
  -- it rises and falls in magnitude by the rate of the car at most.
  pub apply_steer-IsLimited :
      (c : Controls) (earlier : List Controls)
      → let s = after np packer car earlier in
        every steer_step s.frame ≡ true
        → IsLimited
            (not (c.lat_active && control_bit np packer car earlier)
              || not (control_bit np packer car (c ∷ earlier)))
            s.apply_steer_last
            (after np packer car (c ∷ earlier)).apply_steer_last
  apply_steer-IsLimited c earlier now =
      let (command, bit) = steering_frame c earlier now in
      rw (command, bit) (steer_lem (after np packer car earlier) c (command-IsWithin earlier))
