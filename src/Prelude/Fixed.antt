-- ===== src/Prelude/Fixed.antt =====
-- Python floats as integers in thousandths, and `int(round(x))`, which rounds a half to the even
-- neighbour.
use Prim.Native.Nat.{ℕ, ◌+◌, ◌*◌, ◌/◌, ◌%◌, ◌≤◌}
use mathlib.Core.Path.{◌≡◌, refl}
use native.Mathlib.Omega.{arith}
use openpilot9xxcivic.Prelude.Branch.{ltb, if◌then◌else◌}
use openpilot9xxcivic.Prelude.Int.{ℤ, pos, negsuc, pos_part, neg_part, sub_ℕ, ◌≤ℤ◌}

-- An int as a float.
abbrev pub milli : ℤ → ℤ
milli (pos n) = pos (1000 * n)
milli (negsuc n) = negsuc (1000 * n + 999)

unfoldable pub round_mag : ℕ → ℕ
round_mag n =
    if ltb (n % 1000) 500
    then n / 1000
    else if ltb 500 (n % 1000)
    then n / 1000 + 1
    else n / 1000 + n / 1000 % 2

unfoldable pub int_round : ℤ → ℤ
unfolding round_mag
int_round (pos n) = pos (round_mag n)
int_round (negsuc n) = sub_ℕ 0 (round_mag (n + 1))

round_mag-le : (n m : ℕ) → n ≤ 1000 * m → round_mag n ≤ m
unfolding round_mag
round_mag-le n m h = ground arith

round_mag-ge : (n m : ℕ) → 1000 * m ≤ n → m ≤ round_mag n
unfolding round_mag
round_mag-ge n m h = ground arith

pub milli_parts :
    (z : ℤ) → (pos_part (milli z) ≡ 1000 * pos_part z) × (neg_part (milli z) ≡ 1000 * neg_part z)
milli_parts (pos n) = (refl, omega arith)
milli_parts (negsuc n) = (omega arith, omega arith)

-- Rounding does not cross an integer bound.
pub int_round-le : (x hi : ℤ) → x ≤ℤ milli hi → int_round x ≤ℤ hi
unfolding int_round
int_round-le (pos n) (pos m) h = omega (arith, round_mag-le n m)
int_round-le (pos n) (negsuc m) h = absurd (omega arith)
int_round-le (negsuc n) (pos m) h = ground arith
int_round-le (negsuc n) (negsuc m) h = ground (arith, round_mag-ge (n + 1) (m + 1))

pub le-int_round : (x lo : ℤ) → milli lo ≤ℤ x → lo ≤ℤ int_round x
unfolding int_round
le-int_round (pos n) (pos m) h = omega (arith, round_mag-ge n m)
le-int_round (pos n) (negsuc m) h = omega arith
le-int_round (negsuc n) (pos m) h = absurd (omega arith)
le-int_round (negsuc n) (negsuc m) h = ground (arith, round_mag-le (n + 1) (m + 1))

pub int_round-milli : (x : ℤ) → int_round (milli x) ≡ x
unfolding int_round round_mag
int_round-milli (pos n) = ground arith
int_round-milli (negsuc n) = ground arith

half_to_even : (int_round (pos 2500) ≡ pos 2) × (int_round (negsuc 3499) ≡ negsuc 3)
unfolding int_round
half_to_even = (refl, refl)
