-- ===== src/Common/Buttons.antt =====
-- `create_button_events` of selfdrive/car/__init__.py.
use openpilot9xxcivic.Prelude.{
  ℕ, ◌≡◌, refl, Bool, true, false, ◌==◌, nat_comparable, if◌then◌else◌, List, [], ◌∷◌, ◌++◌, Dict,
  lookup_or, Option, none, some, arith,
}

-- `ButtonEvent`; its type is an enum of cereal, here the parameter `ButtonType`.
pub record ButtonEvent (ButtonType : Type 0) : Type 0 where
  pub pressed : Bool
  pub type : ButtonType

module _ {ButtonType : Type 0} (unknown : ButtonType) (buttons_dict : Dict ℕ ButtonType) where
  -- One round of the loop.
  unfoldable pub button_event :
      (unpressed_btn : ℕ) (pressed : Bool) (btn : ℕ) → List (ButtonEvent ButtonType)
  button_event unpressed_btn pressed btn =
      if btn == unpressed_btn
      then []
      else record { pressed = pressed; type = lookup_or unknown btn buttons_dict } ∷ []

  unfoldable pub create_button_events :
      (cur_btn prev_btn unpressed_btn : ℕ) → List (ButtonEvent ButtonType)
  unfolding button_event
  create_button_events cur_btn prev_btn unpressed_btn =
      if cur_btn == prev_btn
      then []
      else button_event unpressed_btn false prev_btn ++ button_event unpressed_btn true cur_btn

  -- The frames of a run, each with the button of the frame before.
  unfoldable pub run_events : (prev_btn unpressed_btn : ℕ) → List ℕ → List (ButtonEvent ButtonType)
  unfolding create_button_events
  run_events prev_btn unpressed_btn [] = []
  run_events prev_btn unpressed_btn (cur_btn ∷ rest) =
      create_button_events cur_btn prev_btn unpressed_btn ++ run_events cur_btn unpressed_btn rest

abbrev pub last_button : ℕ → List ℕ → ℕ
last_button b [] = b
last_button b (c ∷ cs) = last_button c cs

-- The button that a listener holds down after the events, by their types.
module _ {ButtonType : Type 0} where
  abbrev pub held : Option ButtonType → List (ButtonEvent ButtonType) → Option ButtonType
  held h [] = h
  held h (e ∷ es) = held (if e.pressed then some e.type else none) es

  held-append :
      (h : Option ButtonType) (xs ys : List (ButtonEvent ButtonType))
      → held h (xs ++ ys) ≡ held (held h xs) ys
  held-append h [] ys = refl
  held-append h (x ∷ xs) ys = held-append (if x.pressed then some x.type else none) xs ys

module _ {ButtonType : Type 0} (unknown : ButtonType) (buttons_dict : Dict ℕ ButtonType) where
  abbrev pub type_of : ℕ → ℕ → Option ButtonType
  type_of unpressed btn =
      if btn == unpressed then none else some (lookup_or unknown btn buttons_dict)

  held-create_button_events :
      (cur prev unpressed : ℕ)
      → held (type_of unpressed prev) (create_button_events unknown buttons_dict cur prev unpressed)
        ≡ type_of unpressed cur
  unfolding create_button_events
  held-create_button_events cur prev unpressed = ground arith

  -- A listener that replays the events of any run of button states, from the state of the first frame
  -- on, holds the type of the button of the last frame, or nothing if no button was pressed there.
  pub held-run_events :
      (prev unpressed : ℕ) (buttons : List ℕ)
      → held (type_of unpressed prev) (run_events unknown buttons_dict prev unpressed buttons)
        ≡ type_of unpressed (last_button prev buttons)
  unfolding run_events
  held-run_events prev unpressed [] = refl
  held-run_events prev unpressed (cur ∷ rest) =
      rw (held-append, held-create_button_events cur prev unpressed)
        (held-run_events cur unpressed rest)
