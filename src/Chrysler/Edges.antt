-- ===== src/Chrysler/Edges.antt =====
-- The control bit of selfdrive/car/chrysler/carcontroller.py over a drive.
use openpilot9xxcivic.Prelude.{
  ℕ, ◌+◌, ◌-◌, ◌≤◌, ◌<◌, ◌≡◌, refl, Bool, true, false, not, ◌&&◌, ltb, if◌then◌else◌, List, [], ◌∷◌,
  arith, Bool-cases, inl, inr,
}
use openpilot9xxcivic.Can.{Packer}
use openpilot9xxcivic.Clip.{Clip}
use openpilot9xxcivic.Chrysler.Controller.{
  Car, CarController, Controls, init, wanted_bit, lkas_control_bit, every, steer_step, steered,
  update,
}

module _ (np : Clip) (packer : Packer) (car : Car) where
  -- The object after the calls of a drive, the last one first.
  unfoldable pub after : List Controls → CarController
  unfolding init update
  after [] = init
  after (c ∷ earlier) = (update np packer car (after earlier) c).0

  abbrev pub control_bit : List Controls → Bool
  control_bit calls = (after calls).lkas_control_bit_prev

  -- The calls in a row, up to the last one, with the bit off; the first calls of a drive count.
  abbrev pub off_run : List Controls → ℕ
  off_run [] = 0
  off_run (c ∷ cs) = if control_bit (c ∷ cs) then 0 else off_run cs + 1

  -- While the bit is off, the falling edge (or the start) is as far back as the bit is off.
  abbrev IsCounted : (run : ℕ) → CarController → Type 0
  IsCounted run s =
      (s.last_lkas_falling_edge ≤ s.frame)
      × (s.lkas_control_bit_prev ≡ false → run ≡ s.frame - s.last_lkas_falling_edge)
      × (s.lkas_control_bit_prev ≡ true → run ≡ 0)

  step-IsCounted :
      (s : CarController) (c : Controls) (run : ℕ)
      → IsCounted run s
      → let s' = (update np packer car s c).0 in
        IsCounted (if s'.lkas_control_bit_prev then 0 else run + 1) s'
        × (s.lkas_control_bit_prev ≡ false → s'.lkas_control_bit_prev ≡ true → 200 < run)
  unfolding update steered lkas_control_bit
  step-IsCounted s c run h = elim (Bool-cases (every steer_step s.frame)) [
    | inl now ↦ rw now (
        bit_step true (wanted_bit car c.v_ego s.lkas_control_bit_prev) s.lkas_control_bit_prev
          s.frame s.last_lkas_falling_edge h)
    | inr later ↦ rw later (
        bit_step false (wanted_bit car c.v_ego s.lkas_control_bit_prev) s.lkas_control_bit_prev
          s.frame s.last_lkas_falling_edge h)
  ]
    where
      bit_step :
          (now wanted prev : Bool) (frame edge : ℕ)
          → (edge ≤ frame) × (prev ≡ false → run ≡ frame - edge) × (prev ≡ true → run ≡ 0)
          → let bit = if now then wanted && ltb 200 (frame - edge) else prev in
            let edge' =
              if now
              then (if not (wanted && ltb 200 (frame - edge)) && prev then frame else edge)
              else edge in
            ((edge' ≤ frame + 1)
              × (bit ≡ false → (if bit then 0 else run + 1) ≡ frame + 1 - edge')
              × (bit ≡ true → (if bit then 0 else run + 1) ≡ 0))
            × (prev ≡ false → bit ≡ true → 200 < run)
      bit_step now wanted prev frame edge h = ground arith

  counted : (calls : List Controls) → IsCounted (off_run calls) (after calls)
  unfolding after init
  counted [] = (omega arith, λ e. refl, λ e. refl)
  counted (c ∷ cs) = (step-IsCounted (after cs) c (off_run cs) (counted cs)).0

  -- Over a drive the control bit goes on in a call only if it has been off in more than 200 calls in a row
  -- before it, which are 2 s, at the start as well as after it went off.
  pub control_bit_lem :
      (c : Controls) (earlier : List Controls)
      → control_bit earlier ≡ false
      → control_bit (c ∷ earlier) ≡ true
      → 200 < off_run earlier
  unfolding after
  control_bit_lem c earlier off on =
      (step-IsCounted (after earlier) c (off_run earlier) (counted earlier)).1 off on
