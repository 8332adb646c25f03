-- ===== src/Common/Rates.antt =====
-- `CanSignalRateCalculator` of selfdrive/car/__init__.py.
use openpilot9xxcivic.Prelude.{
  ℕ, ℤ, pos, ◌≡◌, refl, ◌≢◌, ◌-ℤ◌, ◌*ℤ◌, nat_comparable, ◌==◌, nat_beq_iff, if◌then◌else◌, List, [],
  ◌∷◌, arith,
}

pub record CanSignalRateCalculator : Type 0 where
  pub frequency : ℕ
  pub previous_counter : ℕ
  pub previous_value : ℤ
  pub rate : ℤ

unfoldable pub init : ℕ → CanSignalRateCalculator
init frequency = record {
  frequency = frequency;
  previous_counter = 0;
  previous_value = pos 0;
  rate = pos 0;
}

-- The object after the call; the call returns its field `rate`.
unfoldable pub update : CanSignalRateCalculator → ℤ → ℕ → CanSignalRateCalculator
update c current_value current_counter = record c {
  rate =
      if current_counter == c.previous_counter
      then c.rate
      else (current_value -ℤ c.previous_value) *ℤ pos c.frequency;
  previous_counter = current_counter;
  previous_value = current_value;
}

-- Values read with the counter of the message that brought them.
unfoldable pub run : CanSignalRateCalculator → List (ℤ × ℕ) → CanSignalRateCalculator
unfolding update
run c [] = c
run c ((value, counter) ∷ rest) = run (update c value counter) rest

-- Further reads of one message.
abbrev pub Repeats : ℤ → ℕ → List (ℤ × ℕ) → Type 0
Repeats value counter [] = Unit
Repeats value counter ((v, n) ∷ rest) = (v ≡ value) × (n ≡ counter) × Repeats value counter rest

update_same :
    (c : CanSignalRateCalculator) (v : ℤ) (n : ℕ)
    → v ≡ c.previous_value
    → n ≡ c.previous_counter
    → update c v n ≡ c
unfolding update
update_same c v n p q = ground (arith, nat_beq_iff n c.previous_counter)

run-Repeats :
    (c : CanSignalRateCalculator) (reads : List (ℤ × ℕ))
    → Repeats c.previous_value c.previous_counter reads
    → run c reads ≡ c
unfolding run
run-Repeats c [] h = refl
run-Repeats c ((v, n) ∷ rest) h = rw (update_same c v n h.0 h.1) (run-Repeats c rest h.2)

-- After a new message the rate is the difference to the last value times the frequency, and it stays
-- so while reads of the same message come in.
pub rate-run :
    (c : CanSignalRateCalculator) (value : ℤ) (counter : ℕ) (reads : List (ℤ × ℕ))
    → counter ≢ c.previous_counter
    → Repeats value counter reads
    → (run c ((value, counter) ∷ reads)).rate ≡ (value -ℤ c.previous_value) *ℤ pos c.frequency
unfolding run
rate-run c value counter reads new same =
    rw (run-Repeats (update c value counter) reads (unfold update in same))
      (unfold update in ground (arith, nat_beq_iff counter c.previous_counter))
