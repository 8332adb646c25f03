-- ===== src/Common/Buses.antt =====
-- `CanBusBase` and `gen_empty_fingerprint` of selfdrive/car/__init__.py.
use openpilot9xxcivic.Prelude.{
  ℕ, zero, suc, ℤ, pos, ◌+◌, ◌*◌, ◌/◌, ◌≤◌, ◌<◌, ◌≡◌, ap, ◌%◌, ◌-ℤ◌, -ℤ_parts, true, ltb, List, [],
  ◌∷◌, Option, none, some, Dict, length, arith, if◌then◌else◌, contains, nat_comparable,
  eq_of_parts, nat_beq_iff,
}

-- The addresses seen on a bus, each with the length of its message.
abbrev pub Finger : Type 0
Finger = Dict ℕ (Dict ℕ ℕ)

abbrev gen_empty_fingerprint_from : ℕ → ℕ → Finger
gen_empty_fingerprint_from i zero = []
gen_empty_fingerprint_from i (suc n) = (i, []) ∷ gen_empty_fingerprint_from (i + 1) n

unfoldable pub gen_empty_fingerprint : Finger
gen_empty_fingerprint = gen_empty_fingerprint_from 0 8

-- `[k for k, v in fingerprint.items() if len(v)]`
abbrev pub seen_buses : Finger → List ℕ
seen_buses [] = []
seen_buses ((k, v) ∷ rest) = if ltb 0 (length v) then k ∷ seen_buses rest else seen_buses rest

-- `max(ks, default=0)`: no bus number is negative.
abbrev pub max_or_zero : List ℕ → ℕ
max_or_zero [] = 0
max_or_zero (k ∷ ks) = let m = max_or_zero ks in if ltb k m then m else k

-- The field `offset` of a new `CanBusBase`. `CP` is given by the number of its safety configurations;
-- `none` is the failed assertion.
unfoldable pub can_bus_offset : (safety_configs : Option ℕ) (fingerprint : Option Finger) → Option ℤ
can_bus_offset none none = none
can_bus_offset none (some fingerprint) =
    let num = max_or_zero (seen_buses fingerprint) / 4 + 1 in some (pos (4 * num) -ℤ pos 4)
can_bus_offset (some num) fingerprint = some (pos (4 * num) -ℤ pos 4)

le-max_or_zero : (ks : List ℕ) (k : ℕ) → contains ks k ≡ true → k ≤ max_or_zero ks
unfolding contains
le-max_or_zero [] k h = cc
le-max_or_zero (j ∷ ks) k h = ground (arith, nat_beq_iff j k, le-max_or_zero ks k)

max_or_zero-mem : (ks : List ℕ) → 0 < max_or_zero ks → contains ks (max_or_zero ks) ≡ true
unfolding contains
max_or_zero-mem [] h = absurd (omega arith)
max_or_zero-mem (j ∷ ks) h =
    ground (arith, nat_beq_iff j j, max_or_zero-mem ks, nat_beq_iff j (max_or_zero ks))

-- Without `CP` the offset is that of the highest panda on whose buses something was seen: every bus
-- with a message lies below the four buses from the offset on, and if the offset is not 0 one of
-- those four has a message.
pub can_bus_offset_lem :
    (fingerprint : Finger)
    → (offset : ℕ) × (can_bus_offset none (some fingerprint) ≡ some (pos offset))
      × (offset % 4 ≡ 0)
      × ((k : ℕ) → contains (seen_buses fingerprint) k ≡ true → k < offset + 4)
      × (0 < offset
          → (k : ℕ) × (contains (seen_buses fingerprint) k ≡ true)
            × (offset ≤ k)
            × (k < offset + 4))
unfolding can_bus_offset
can_bus_offset_lem fingerprint =
    let m = max_or_zero (seen_buses fingerprint) in
    (
      4 * (m / 4),
      ap some (eq_of_parts _ _ (omega (arith, -ℤ_parts (pos (4 * (m / 4 + 1))) (pos 4)))),
      omega arith,
      λ k h. omega (arith, le-max_or_zero (seen_buses fingerprint) k h),
      λ h. (m, max_or_zero-mem (seen_buses fingerprint) (omega arith), omega arith, omega arith),
    )
