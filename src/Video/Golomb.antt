-- ===== src/Video/Golomb.antt =====
-- What `get_ue` of tools/lib/vidindex.py reads, against the description of the code in ITU-T H.265, 9.2.
use openpilot9xxcivic.Prelude.{
  ℕ, zero, suc, ◌+◌, ◌-◌, ◌*◌, ◌/◌, ◌%◌, ◌^◌, ◌≡◌, refl, ◌∙◌, Bool, true, ltb, if◌then◌else◌, List,
  [], ◌∷◌, ◌++◌, length, all, take, drop, arith, Bool-cases, inl, inr,
}
use openpilot9xxcivic.Video.Bits.{
  Bytes, video_file_invalid, Result, ok, err, Code, read_bit, is_complete, value_and_size, Progress,
  done, reading, read_byte, read_bytes, get_ue,
}

-- The lowest `j` bits of a byte, and all bits of a string, the highest one of each byte first.
abbrev pub byte_bits : (byte j : ℕ) → List ℕ
byte_bits byte zero = []
byte_bits byte (suc j) = byte / 2 ^ j % 2 ∷ byte_bits byte j

abbrev pub bits : Bytes → List ℕ
bits [] = []
bits (byte ∷ dat) = byte_bits byte 8 ++ bits dat

-- A binary numeral, highest digit first, behind the digits of `acc`.
abbrev pub number : (acc : ℕ) → List ℕ → ℕ
number acc [] = acc
number acc (b ∷ bs) = number (acc * 2 + b) bs

-- After `n` zeros: the next one and the `n` bits behind it are the code.
abbrev pub decode : (n : ℕ) → List ℕ → Result (ℕ × ℕ)
decode n [] = err video_file_invalid
decode n (zero ∷ bs) = decode (n + 1) bs
decode n (suc b ∷ bs) =
    if ltb (length bs) n
    then err video_file_invalid
    else ok (2 ^ n - 1 + number 0 (take n bs), n + 1 + n)

-- The two loops of the source are one loop over the bits.
abbrev read_list : List ℕ → Code → Result (ℕ × ℕ)
read_list [] c = err video_file_invalid
read_list (b ∷ bs) c =
    let next = read_bit b c in
    let rest = read_list bs next in if is_complete next then ok (value_and_size next) else rest

abbrev go_on : List ℕ → Progress → Result (ℕ × ℕ)
go_on rest (done r) = ok r
go_on rest (reading c) = read_list rest c

read_byte-list :
    (byte j : ℕ) (rest : List ℕ) (c : Code)
    → go_on rest (read_byte byte j c) ≡ read_list (byte_bits byte j ++ rest) c
unfolding read_byte
read_byte-list byte zero rest c = refl
read_byte-list byte (suc j) rest c =
    elim (Bool-cases (is_complete (read_bit (byte / 2 ^ j % 2) c))) [
      | inl full ↦ rw full refl
      | inr more ↦ rw more (read_byte-list byte j rest (read_bit (byte / 2 ^ j % 2) c))
    ]

read_bytes-list : (dat : Bytes) (c : Code) → read_bytes dat c ≡ read_list (bits dat) c
unfolding read_bytes
read_bytes-list [] c = refl
read_bytes-list (byte ∷ dat) c =
    continue (read_byte byte 8 c) (read_bytes-list dat) ∙ read_byte-list byte 8 (bits dat) c
  where
    continue :
        (p : Progress)
        → ((d : Code) → read_bytes dat d ≡ read_list (bits dat) d)
        → (elim p as (λ x. Result (ℕ × ℕ)) [ done r ↦ ok r | reading next ↦ read_bytes dat next ])
          ≡ go_on (bits dat) p
    continue (done r) h = refl
    continue (reading next) h = h next

abbrev is_bit : ℕ → Bool
is_bit b = ltb b 2

-- The states of the loop by what it has read.
abbrev skipping : ℕ → Code
skipping k = record {
  skip_bits = k;
  prefix_val = 0;
  prefix_len = 0;
  suffix_val = 0;
  suffix_len = 0;
}

abbrev in_prefix : ℕ → Code
in_prefix n = record {
  skip_bits = 0;
  prefix_val = 0;
  prefix_len = n;
  suffix_val = 0;
  suffix_len = 0;
}

abbrev in_suffix : (n v k : ℕ) → Code
in_suffix n v k = record {
  skip_bits = 0;
  prefix_val = 1;
  prefix_len = n + 1;
  suffix_val = v;
  suffix_len = k;
}

pred_suc : (n : ℕ) → n + 1 - 1 ≡ n
pred_suc n = omega arith

-- `m + 1` bits of the suffix are left.
suffix_lem :
    (bs : List ℕ) (n m v k : ℕ)
    → n ≡ k + suc m
    → read_list bs (in_suffix n v k) ≡ (
        if ltb (length bs) (suc m)
        then err video_file_invalid
        else ok (2 ^ n - 1 + number v (take (suc m) bs), n + 1 + n))
unfolding read_bit is_complete value_and_size
suffix_lem [] n m v k h = ground arith
suffix_lem (b ∷ bs) n zero v k h = ground (arith, pred_suc n)
suffix_lem (b ∷ bs) n (suc m) v k h =
    ground (arith, pred_suc n, suffix_lem bs n m (v * 2 + b) (k + 1) (omega arith))

prefix_lem : (bs : List ℕ) (n : ℕ) → all is_bit bs ≡ true → read_list bs (in_prefix n) ≡ decode n bs
unfolding read_bit is_complete value_and_size
prefix_lem [] n h = refl
prefix_lem (zero ∷ bs) n h = prefix_lem bs (n + 1) (ground arith)
prefix_lem (suc zero ∷ bs) zero h = ground arith
prefix_lem (suc zero ∷ bs) (suc n) h = ground (arith, suffix_lem bs (suc n) n 0 0 (omega arith))
prefix_lem (suc (suc b) ∷ bs) n h = absurd (ground arith)

skip_step : (b k : ℕ) → read_bit b (skipping (suc k)) ≡ skipping k
unfolding read_bit
skip_step b k = ground arith

skip_lem :
    (bs : List ℕ) (k : ℕ) → all is_bit bs ≡ true → read_list bs (skipping k) ≡ decode 0 (drop k bs)
unfolding is_complete
skip_lem bs zero h = prefix_lem bs 0 h
skip_lem [] (suc k) h = refl
skip_lem (b ∷ bs) (suc k) h = rw (skip_step b k) (skip_lem bs k (ground arith))

byte_bits-is_bit :
    (byte j : ℕ) (rest : List ℕ)
    → all is_bit rest ≡ true
    → all is_bit (byte_bits byte j ++ rest) ≡ true
byte_bits-is_bit byte zero rest h = h
byte_bits-is_bit byte (suc j) rest h = ground (arith, byte_bits-is_bit byte j rest)

bits-is_bit : (dat : Bytes) → all is_bit (bits dat) ≡ true
bits-is_bit [] = refl
bits-is_bit (byte ∷ dat) = byte_bits-is_bit byte 8 (bits dat) (bits-is_bit dat)

-- From a byte and a bit on, `get_ue` reads the exponential-Golomb code that stands there: after `n`
-- zeros and a one, the `n` bits that follow, with the value and the number of bits of the code. It
-- raises `VideoFileInvalid` exactly where the bits end before the code does.
pub get_ue_lem :
    (dat : Bytes) (start_idx skip_bits : ℕ)
    → get_ue dat start_idx skip_bits ≡ decode 0 (drop skip_bits (bits (drop start_idx dat)))
unfolding get_ue
get_ue_lem dat start_idx skip_bits =
    read_bytes-list (drop start_idx dat) (skipping skip_bits)
    ∙ skip_lem (bits (drop start_idx dat)) skip_bits (bits-is_bit (drop start_idx dat))
