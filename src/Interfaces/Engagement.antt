-- ===== src/Interfaces/Engagement.antt =====
-- The events of `create_common_events` of selfdrive/car/interfaces.py that engage and disengage with the
-- car's own cruise control, over the frames of a drive.
use openpilot9xxcivic.Prelude.{
  ◌≡◌, refl, ap, ◌∙◌, Bool, true, false, not, ◌&&◌, ◌||◌, Option, some, none, is_some,
  if◌then◌else◌, List, [], ◌∷◌, ◌++◌, arith, all, ℤ, contains, Comparable, ◌==◌,
}
use openpilot9xxcivic.Common.Buttons.{ButtonEvent}
use openpilot9xxcivic.Interfaces.Events.{
  EventName, pcm_enable, pcm_disable, CarState, Warnings, Options, when, steer_fault_events,
  button_presses, state_events, pcm_events, create_common_events, collect, button_enable,
  button_cancel, steer_unavailable,
}

-- The state of a listener that engages on `pcm_enable` and disengages on `pcm_disable`.
abbrev pub signal : EventName → Option Bool
signal pcm_enable = some true
signal pcm_disable = some false
signal e = none

abbrev pub value_or : Bool → Option Bool → Bool
value_or b none = b
value_or b (some c) = c

abbrev pub engaged : Bool → List EventName → Bool
engaged b [] = b
engaged b (e ∷ es) = engaged (value_or b (signal e)) es

abbrev is_quiet : EventName → Bool
is_quiet e = not (is_some (signal e))

quiet_head : (b : Bool) (o : Option Bool) → not (is_some o) ≡ true → value_or b o ≡ b
quiet_head b none h = refl
quiet_head b (some c) h = ground arith

engaged-quiet :
    (b : Bool) (xs ys : List EventName)
    → all is_quiet xs ≡ true
    → engaged b (xs ++ ys) ≡ engaged b ys
engaged-quiet b [] ys h = refl
engaged-quiet b (e ∷ xs) ys h =
    ap (λ c. engaged c (xs ++ ys)) (quiet_head b (signal e) (ground arith))
    ∙ engaged-quiet b xs ys (ground arith)

quiet_append :
    (xs ys : List EventName)
    → all is_quiet xs ≡ true
    → all is_quiet ys ≡ true
    → all is_quiet (xs ++ ys) ≡ true
quiet_append [] ys p q = q
quiet_append (e ∷ xs) ys p q = ground (arith, quiet_append xs ys)

-- Four quiet parts before the last one.
engaged-last :
    (b : Bool) (ws xs ys zs es : List EventName)
    → all is_quiet ws ≡ true
    → all is_quiet xs ≡ true
    → all is_quiet ys ≡ true
    → all is_quiet zs ≡ true
    → engaged b (ws ++ xs ++ ys ++ zs ++ es) ≡ engaged b es
engaged-last b ws xs ys zs es p q r s =
    engaged-quiet b (ws ++ xs ++ ys ++ zs) es
      (quiet_append (ws ++ xs ++ ys) zs (quiet_append (ws ++ xs) ys (quiet_append ws xs p q) r) s)

quiet_when : (c : Bool) (e : EventName) → is_quiet e ≡ true → all is_quiet (when c e) ≡ true
quiet_when true e p = rw p refl
quiet_when false e p = refl

abbrev is_quiet_test : Bool × EventName → Bool
is_quiet_test (c, e) = is_quiet e

quiet_collect :
    (tests : List (Bool × EventName))
    → all is_quiet_test tests ≡ true
    → all is_quiet (collect tests) ≡ true
quiet_collect [] h = refl
quiet_collect ((c, e) ∷ rest) h =
    quiet_append (when c e) (collect rest) (quiet_when c e (ground arith))
      (quiet_collect rest (ground arith))

quiet_faults :
    (f p s l : Bool) (w : Warnings) → all is_quiet (steer_fault_events f p s l w).1 ≡ true
unfolding steer_fault_events
quiet_faults f p s l w = ground arith

module _ {Gear ButtonType : Type 0} ⦃gears : Comparable Gear⦄ ⦃buttons : Comparable ButtonType⦄
    (drive reverse : Gear) (cancel : ButtonType) (max_ctrl_speed : ℤ)
    (o : Options Gear ButtonType) where
  quiet_state :
      (cs : CarState Gear ButtonType)
      → all is_quiet (state_events drive reverse cancel max_ctrl_speed o cs) ≡ true
  unfolding state_events
  quiet_state cs = search (quiet_collect)

  quiet_buttons :
      (bs : List (ButtonEvent ButtonType))
      → all is_quiet (button_presses drive reverse cancel max_ctrl_speed o bs) ≡ true
  unfolding button_presses
  quiet_buttons [] = refl
  quiet_buttons (b ∷ bs) =
      let tests : List (Bool × EventName) =
        (not o.pcm_cruise && contains o.enable_buttons b.type && not b.pressed, button_enable)
        ∷ (b.type == cancel, button_cancel)
        ∷ [] in
      quiet_append (collect tests) (button_presses drive reverse cancel max_ctrl_speed o bs)
        (quiet_collect tests refl) (quiet_buttons bs)

  engaged-pcm_events :
      (enabled last : Bool)
      → engaged last (pcm_events drive reverse cancel max_ctrl_speed o enabled last)
        ≡ (if o.pcm_enable then enabled && (last || o.allow_enable) else last)
  unfolding pcm_events
  engaged-pcm_events enabled last = ground arith

  -- A listener that is in step with the car's cruise control before a frame is in step after it, if the
  -- port lets the events enable; it stays as it was if the port does not use them, and a port that
  -- does not allow enabling still disengages.
  pub engaged-create_common_events :
      (cs last : CarState Gear ButtonType) (w : Warnings)
      → engaged last.cruise_enabled
          (create_common_events drive reverse cancel max_ctrl_speed o cs last w).1
        ≡ (if o.pcm_enable
            then cs.cruise_enabled && (last.cruise_enabled || o.allow_enable)
            else last.cruise_enabled)
  unfolding create_common_events
  engaged-create_common_events cs last w =
      engaged-last last.cruise_enabled (state_events drive reverse cancel max_ctrl_speed o cs)
        (button_presses drive reverse cancel max_ctrl_speed o cs.button_events)
        (steer_fault_events cs.steer_fault_temporary cs.steering_pressed cs.standstill
          last.steer_fault_temporary w).1
        (when cs.steer_fault_permanent steer_unavailable)
        (pcm_events drive reverse cancel max_ctrl_speed o cs.cruise_enabled last.cruise_enabled)
        (quiet_state cs) (quiet_buttons cs.button_events)
        (quiet_faults cs.steer_fault_temporary cs.steering_pressed cs.standstill
          last.steer_fault_temporary w)
        (quiet_when cs.steer_fault_permanent steer_unavailable refl)
      ∙ engaged-pcm_events cs.cruise_enabled last.cruise_enabled
