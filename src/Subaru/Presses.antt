-- ===== src/Subaru/Presses.antt =====
-- The pressed buttons in the messages of selfdrive/car/subaru/carcontroller.py over a drive of a platform before
-- the global one.
use openpilot9xxcivic.Prelude.{
  ℕ, ℤ, ◌+◌, ◌≤◌, ◌≡◌, refl, sym, ap, ◌∙◌, Bool, true, false, not, ◌&&◌, nat_beq, if◌then◌else◌,
  List, [], ◌∷◌, ◌++◌, lookup, insert, arith, Bool-cases, inl, inr, Every,
}
use openpilot9xxcivic.Can.{
  Packer, Reader, read_all, read_onto, read_all-append, IsSilent, when-IsSilent, IsSilent-read_all,
}
use openpilot9xxcivic.Clip.{Clip}
use openpilot9xxcivic.Subaru.Preglobal.{
  create_preglobal_steering_control, create_preglobal_es_distance,
}
use openpilot9xxcivic.Subaru.Controller.{
  Car, CarController, Controls, init, next_button, every, steer_step, steering_messages, update,
}

-- The main switch is not pressed in two messages in a row, of which the one before the first had the given button.
abbrev pub is_unstuck : (last : ℕ) → List ℕ → Bool
is_unstuck last [] = true
is_unstuck last (b ∷ bs) = not (nat_beq last 1 && nat_beq b 1) && is_unstuck b bs

-- The buttons of the calls at each fifth frame number, each chosen with the one before it.
abbrev pub chosen : (frame last : ℕ) → List Controls → List ℕ
chosen frame last [] = []
chosen frame last (c ∷ cs) =
    let pressed = chosen (frame + 1) (next_button c last) cs in
    let waiting = chosen (frame + 1) last cs in
    if every 5 frame then next_button c last ∷ pressed else waiting

unstuck_step :
    (c : Controls) (prev : ℕ) → not (nat_beq prev 1 && nat_beq (next_button c prev) 1) ≡ true
unfolding next_button
unstuck_step c prev = ground arith

next_button-le :
    (c : Controls) (prev max : ℕ) → 1 ≤ max → c.cruise_button ≤ max → next_button c prev ≤ max
unfolding next_button
next_button-le c prev max one h = ground arith

module _ (np : Clip) (interp : ℤ → List ℤ → List ℤ → ℤ) (packer : Packer) (car : Car) (max : ℕ)
    (r : Reader packer "ES_Distance" "Cruise_Button" max) where
  abbrev pub next : CarController → Controls → CarController
  next s c = (update np interp packer car s c).0

  -- The buttons that a receiver reads of the messages of a drive, in their order.
  unfoldable pub presses : CarController → List Controls → List ℕ
  unfolding update
  presses s [] = []
  presses s (c ∷ cs) = read_all r.read (update np interp packer car s c).1 ++ presses (next s c) cs

  -- The buttons of the car fit the signal.
  abbrev pub Fits : List Controls → Type 0
  Fits = Every (λ c. c.cruise_button ≤ max)

  steering-IsSilent :
      (s : CarController) (c : Controls)
      → car.preglobal ≡ true
      → IsSilent r.read (steering_messages np interp packer car s c)
  unfolding steering_messages create_preglobal_steering_control
  steering-IsSilent s c p =
      when-IsSilent r.read (every steer_step s.frame) _ (rw p (r.read_other _ _ _ refl, tt))

  button_read :
      (c : Controls) (n : ℕ)
      → n ≤ max
      → read_all r.read (create_preglobal_es_distance packer n c.es_distance_msg ∷ []) ≡ n ∷ []
  unfolding create_preglobal_es_distance lookup insert
  button_read c n h = ap (λ o. read_onto o []) (r.read_packed _ n _ refl h)

  update_read :
      (s : CarController) (c : Controls)
      → car.preglobal ≡ true
      → next_button c s.cruise_button_prev ≤ max
      → read_all r.read (update np interp packer car s c).1
        ≡ (if every 5 s.frame then next_button c s.cruise_button_prev ∷ [] else [])
  unfolding update
  update_read s c p h =
      read_all-append r.read (steering_messages np interp packer car s c) _
      ∙ rw
          (
            IsSilent-read_all r.read (steering_messages np interp packer car s c)
                (steering-IsSilent s c p),
            p,
          )
          (elim (Bool-cases (every 5 s.frame)) [
            | inl now ↦ rw now (button_read c (next_button c s.cruise_button_prev) h)
            | inr later ↦ rw later refl
          ])

  next_prev :
      (s : CarController) (c : Controls)
      → car.preglobal ≡ true
      → (next s c).cruise_button_prev
        ≡ (if every 5 s.frame then next_button c s.cruise_button_prev else s.cruise_button_prev)
  unfolding update
  next_prev s c p = rw p refl

  presses_lem :
      (s : CarController) (calls : List Controls)
      → car.preglobal ≡ true
      → 1 ≤ max
      → Fits calls
      → is_unstuck s.cruise_button_prev (presses s calls) ≡ true
  unfolding presses
  presses_lem s [] p one f = refl
  presses_lem s (c ∷ cs) p one f =
      rw (update_read s c p (next_button-le c s.cruise_button_prev max one f.0)) (
        add_press (every 5 s.frame) (presses (next s c) cs) (next s c).cruise_button_prev
          (next_prev s c p) (presses_lem (next s c) cs p one f.1))
    where
      add_press :
          (b : Bool) (rest : List ℕ) (prev : ℕ)
          → prev ≡ (if b then next_button c s.cruise_button_prev else s.cruise_button_prev)
          → is_unstuck prev rest ≡ true
          → is_unstuck s.cruise_button_prev
              ((if b then next_button c s.cruise_button_prev ∷ [] else []) ++ rest)
            ≡ true
      add_press true rest prev e h =
          rw (unstuck_step c s.cruise_button_prev) (ap (λ x. is_unstuck x rest) (sym e) ∙ h)
      add_press false rest prev e h = ap (λ x. is_unstuck x rest) (sym e) ∙ h

  next_frame : (s : CarController) (c : Controls) → (next s c).frame ≡ s.frame + 1
  unfolding update
  next_frame s c = refl

  presses-chosen :
      (s : CarController) (calls : List Controls)
      → car.preglobal ≡ true
      → 1 ≤ max
      → Fits calls
      → presses s calls ≡ chosen s.frame s.cruise_button_prev calls
  unfolding presses
  presses-chosen s [] p one f = refl
  presses-chosen s (c ∷ cs) p one f =
      rw (update_read s c p (next_button-le c s.cruise_button_prev max one f.0)) (
        add_chosen (every 5 s.frame) (next s c).cruise_button_prev (presses (next s c) cs)
          (next_prev s c p)
          (presses-chosen (next s c) cs p one f.1
            ∙ ap (λ n. chosen n (next s c).cruise_button_prev cs) (next_frame s c)))
    where
      add_chosen :
          (b : Bool) (prev : ℕ) (rest : List ℕ)
          → prev ≡ (if b then next_button c s.cruise_button_prev else s.cruise_button_prev)
          → rest ≡ chosen (s.frame + 1) prev cs
          → (if b then next_button c s.cruise_button_prev ∷ [] else []) ++ rest ≡ (
              if b
              then next_button c s.cruise_button_prev
                ∷ chosen (s.frame + 1) (next_button c s.cruise_button_prev) cs
              else chosen (s.frame + 1) s.cruise_button_prev cs)
      add_chosen true prev rest e h =
          ap (λ l. next_button c s.cruise_button_prev ∷ l)
            (h ∙ ap (λ n. chosen (s.frame + 1) n cs) e)
      add_chosen false prev rest e h = h ∙ ap (λ n. chosen (s.frame + 1) n cs) e

  -- On a platform before the global one, with buttons that fit the signal, no two of the messages of a drive
  -- of which a receiver reads a button press the main switch in a row, and those messages are one in each fifth
  -- call, with the button chosen from the call and the button before.
  pub presses-is_unstuck :
      (calls : List Controls)
      → car.preglobal ≡ true
      → 1 ≤ max
      → Fits calls
      → (is_unstuck 0 (presses init calls) ≡ true) × (presses init calls ≡ chosen 0 0 calls)
  unfolding init
  presses-is_unstuck calls p one f =
      (presses_lem init calls p one f, presses-chosen init calls p one f)
