-- ===== src/Interfaces/Pedals.antt =====
-- `Car.update_events` of selfdrive/car/card.py: the events of a frame, with the pedals'.
use openpilot9xxcivic.Prelude.{
  ◌≡◌, refl, Bool, true, false, not, ◌&&◌, ◌||◌, if◌then◌else◌, List, [], ◌∷◌, ◌++◌, any, arith,
}

-- The pedals of cereal's `CarState`.
pub record Pedals : Type 0 where
  pub gas_pressed : Bool
  pub brake_pressed : Bool
  pub regen_braking : Bool
  pub standstill : Bool

-- The pedals end the engagement on a rising edge, and the brakes also while the car moves.
abbrev pub is_disengaging : (disengage_on_accelerator : Bool) (cs cs_prev : Pedals) → Bool
is_disengaging disengage_on_accelerator cs cs_prev =
    cs.gas_pressed && not cs_prev.gas_pressed && disengage_on_accelerator
    || cs.brake_pressed && (not cs_prev.brake_pressed || not cs.standstill)
    || cs.regen_braking && (not cs_prev.regen_braking || not cs.standstill)

module _ {Event : Type 0} (pedal_pressed : Event) where
  -- `cs_prev` is the frame before; the events of the car's interface come first.
  unfoldable pub update_events :
      (disengage_on_accelerator : Bool) (cs cs_prev : Pedals) → List Event → List Event
  update_events disengage_on_accelerator cs cs_prev events =
      events
      ++ (if is_disengaging disengage_on_accelerator cs cs_prev then pedal_pressed ∷ [] else [])

-- Whether openpilot is engaged: an event that disengages ends it, nothing here starts it.
abbrev pub stays_engaged : {Event : Type 0} → (Event → Bool) → Bool → List Event → Bool
stays_engaged disengages b events = b && not (any disengages events)

any-append :
    {Event : Type 0} (p : Event → Bool) (xs ys : List Event)
    → any p (xs ++ ys) ≡ (any p xs || any p ys)
any-append p [] ys = refl
any-append p (x ∷ xs) ys = ground (arith, any-append p xs ys)

abbrev pub previous : {Event : Type 0} → Pedals → List (Pedals × List Event) → Pedals
previous start [] = start
previous start ((cs, events) ∷ fs) = cs

module _ {Event : Type 0} (pedal_pressed : Event) (disengages : Event → Bool) where
  -- The frames of a drive, the last one first, each with the events of the interface.
  unfoldable pub drive :
      (disengage_on_accelerator : Bool) (start : Pedals) → List (Pedals × List Event) → Bool
  unfolding update_events
  drive d start [] = true
  drive d start ((cs, events) ∷ fs) =
      stays_engaged disengages (drive d start fs)
        (update_events pedal_pressed d cs (previous start fs) events)

  -- No pedal that ends the engagement is pressed.
  abbrev pub is_free : (disengage_on_accelerator : Bool) → Pedals → Bool
  is_free d cs = not cs.brake_pressed && not cs.regen_braking && not (cs.gas_pressed && d)

  abbrev pub all_free : (disengage_on_accelerator : Bool) → List (Pedals × List Event) → Bool
  all_free d [] = true
  all_free d ((cs, events) ∷ fs) = is_free d cs && all_free d fs

  free_step :
      (d : Bool) (cs prev : Pedals) (events : List Event)
      → disengages pedal_pressed ≡ true
      → is_free d prev ≡ true
      → any disengages (update_events pedal_pressed d cs prev events) ≡ false
      → is_free d cs ≡ true
  unfolding update_events
  free_step d cs prev events e f h =
      let sent : List Event = if is_disengaging d cs prev then pedal_pressed ∷ [] else [] in
      ground (arith, any-append disengages events sent)

  previous_free :
      (d : Bool) (start : Pedals) (fs : List (Pedals × List Event))
      → is_free d start ≡ true
      → all_free d fs ≡ true
      → is_free d (previous start fs) ≡ true
  previous_free d start [] f h = f
  previous_free d start ((cs, events) ∷ fs) f h = ground arith

  -- From a frame without brake, regenerative braking and (where it counts) accelerator, openpilot is
  -- still engaged after further frames only if none of them was pressed in any of those frames.
  pub drive_free :
      (d : Bool) (start : Pedals) (fs : List (Pedals × List Event))
      → disengages pedal_pressed ≡ true
      → is_free d start ≡ true
      → drive d start fs ≡ true
      → all_free d fs ≡ true
  unfolding drive
  drive_free d start [] e f h = refl
  drive_free d start ((cs, events) ∷ fs) e f h =
      let earlier = drive_free d start fs e f (ground arith) in
      let now =
        free_step d cs (previous start fs) events e (previous_free d start fs f earlier)
          (ground arith) in
      ground arith
