-- ===== src/Common/Tests.antt =====
-- Runs of the helpers, and the theorems at concrete inputs.
use openpilot9xxcivic.Prelude.{
  ℕ, pos, ◌-ℤ◌, ◌≡◌, refl, Bool, true, false, List, [], ◌∷◌, String, none, some, arith,
  nat_comparable,
}
use openpilot9xxcivic.Common.FaultAvoidance.{
  common_fault_avoidance, sent_bits, AvoidsFault, faulty, sent_bits-AvoidsFault,
}
use openpilot9xxcivic.Common.Buttons.{run_events, held, type_of, last_button, held-run_events}
use openpilot9xxcivic.Common.Buses.{can_bus_offset, Finger}

three_then_two : sent_bits 3 2 0 (faulty 7) ≡ true ∷ true ∷ true ∷ false ∷ false ∷ true ∷ true ∷ []
unfolding sent_bits common_fault_avoidance
three_then_two = refl

abbrev frames : List (Bool × Bool)
frames =
    (true, true) ∷ (true, true) ∷ (false, true) ∷ (true, true) ∷ (true, false) ∷ (true, true) ∷ []

sent_bits-AvoidsFault_example : AvoidsFault 1 0 frames (sent_bits 1 1 0 frames)
sent_bits-AvoidsFault_example = sent_bits-AvoidsFault 1 1 frames (omega arith)

abbrev presses : List ℕ
presses = 2 ∷ 2 ∷ 3 ∷ 0 ∷ 2 ∷ []

held-run_events_example :
    held {ButtonType = String}
      (type_of "unknown" ((2, "resume") ∷ []) 0 0)
      (run_events "unknown" ((2, "resume") ∷ []) 0 0 presses)
    ≡ type_of "unknown" ((2, "resume") ∷ []) 0 (last_button 0 presses)
held-run_events_example = held-run_events "unknown" ((2, "resume") ∷ []) 0 0 presses

-- A fingerprint with messages on the buses 0 and 5.
abbrev two_pandas : Finger
two_pandas = (0, (100, 8) ∷ []) ∷ (1, []) ∷ (5, (100, 8) ∷ []) ∷ []

second_panda : can_bus_offset none (some two_pandas) ≡ some (pos 4)
unfolding can_bus_offset ◌-ℤ◌
second_panda = refl
