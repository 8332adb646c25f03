-- ===== src/Video/Bits.antt =====
-- `get_ue` of tools/lib/vidindex.py: an exponential-Golomb code in the bits of a byte string.
use openpilot9xxcivic.Prelude.{
  ℕ, zero, suc, ◌+◌, ◌-◌, ◌*◌, ◌/◌, ◌%◌, ◌^◌, Bool, ◌&&◌, ltb, nat_beq, if◌then◌else◌, List, [],
  ◌∷◌, drop,
}

abbrev pub Bytes : Type 0
Bytes = List ℕ

-- The exceptions of the module: `VideoFileInvalid`, and `ValueError` and `IndexError`.
pub data Error : Type 0 where
  video_file_invalid value_error index_error : Error

pub data Result {ℓ} (A : Type ℓ) : Type ℓ where
  ok : A → Result A
  err : Error → Result A

module _ {ℓ} {A B : Type ℓ} where
  infixl 5 ◌>>=◌
  abbrev pub ◌>>=◌ : Result A → (A → Result B) → Result B
  ok a >>= f = f a
  err e >>= f = err e

-- The variables of the loop.
pub record Code : Type 0 where
  pub skip_bits : ℕ
  pub prefix_val : ℕ
  pub prefix_len : ℕ
  pub suffix_val : ℕ
  pub suffix_len : ℕ

-- One round of the inner loop, on the bit `(dat[i] >> j) & 1`.
unfoldable pub read_bit : (bit : ℕ) → Code → Code
read_bit bit c =
    if ltb 0 c.skip_bits
    then record c { skip_bits = c.skip_bits - 1 }
    else if nat_beq c.prefix_val 0
    then record c { prefix_val = bit; prefix_len = c.prefix_len + 1 }
    else record c { suffix_val = c.suffix_val * 2 + bit; suffix_len = c.suffix_len + 1 }

unfoldable pub is_complete : Code → Bool
is_complete c = nat_beq c.prefix_val 1 && nat_beq (c.prefix_len - 1) c.suffix_len

unfoldable pub value_and_size : Code → ℕ × ℕ
value_and_size c = (2 ^ (c.prefix_len - 1) - 1 + c.suffix_val, c.prefix_len + c.suffix_len)

-- How the reading of a byte ends.
pub data Progress : Type 0 where
  done : ℕ × ℕ → Progress
  reading : Code → Progress

-- The inner loop: the bits `j - 1`, …, 0 of a byte.
unfoldable pub read_byte : (byte j : ℕ) → Code → Progress
unfolding read_bit is_complete value_and_size
read_byte byte zero c = reading c
read_byte byte (suc j) c =
    let next = read_bit (byte / 2 ^ j % 2) c in
    let rest = read_byte byte j next in
    if is_complete next then done (value_and_size next) else rest

-- The outer loop; without a byte left the code is invalid.
unfoldable pub read_bytes : Bytes → Code → Result (ℕ × ℕ)
unfolding read_byte
read_bytes [] c = err video_file_invalid
read_bytes (byte ∷ dat) c = elim (read_byte byte 8 c) [
  | done r ↦ ok r
  | reading next ↦ read_bytes dat next
]

unfoldable pub get_ue : Bytes → (start_idx skip_bits : ℕ) → Result (ℕ × ℕ)
unfolding read_bytes
get_ue dat start_idx skip_bits = read_bytes (drop start_idx dat) (record {
  skip_bits = skip_bits;
  prefix_val = 0;
  prefix_len = 0;
  suffix_val = 0;
  suffix_len = 0;
})
