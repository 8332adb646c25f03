-- ===== src/Honda/Checksum.antt =====
-- `calc_checksum_8bit` of selfdrive/car/honda/hondacan.py.
use openpilot9xxcivic.Prelude.{
  ℕ, ◌+◌, ◌-◌, ◌/◌, ◌%◌, ◌≡◌, ◌≢◌, sym, ap, ◌∙◌, ◌<◌, List, [], ◌∷◌, ◌++◌, arith,
}
use openpilot9xxcivic.Honda.{add_bytes, calc_checksum_8bit}

-- The end-around carry of a sum.
abbrev folded : ℕ → ℕ
folded s = (s % 256 + s / 256) % 256

-- A sum that grows by 1 to 254 has another checksum.
folded_ne : (s d : ℕ) → 0 < d → d < 255 → folded s ≢ folded (s + d)
folded_ne s d h k e = omega arith

abbrev total : List ℕ → ℕ
total [] = 0
total (b ∷ bs) = b + total bs

add_bytes-total : (c : ℕ) (bs : List ℕ) → add_bytes c bs ≡ c + total bs
unfolding add_bytes
add_bytes-total c [] = omega arith
add_bytes-total c (b ∷ bs) = add_bytes-total (c + b) bs ∙ omega arith

total-append : (xs ys : List ℕ) → total (xs ++ ys) ≡ total xs + total ys
total-append [] ys = omega arith
total-append (x ∷ xs) ys = ap (λ n. x + n) (total-append xs ys) ∙ omega arith

-- The checksum detects a change of one byte, unless it is one between 0 and 255.
pub calc_checksum_8bit_detects :
    (before after : List ℕ) (old new msg_id : ℕ)
    → old < new
    → new < old + 255
    → calc_checksum_8bit (before ++ old ∷ after) msg_id
      ≢ calc_checksum_8bit (before ++ new ∷ after) msg_id
unfolding calc_checksum_8bit
calc_checksum_8bit_detects before after old new msg_id h k e =
    let sum = msg_id + total before + old + total after in
    folded_ne sum (new - old) (omega arith) (omega arith)
      (ap folded (sym (parts old)) ∙ e ∙ ap folded (parts new ∙ omega arith))
  where
    parts :
        (b : ℕ) → add_bytes msg_id (before ++ b ∷ after) ≡ msg_id + total before + b + total after
    parts b =
        add_bytes-total msg_id (before ++ b ∷ after)
        ∙ omega (arith, total-append before (b ∷ after))
