-- ===== src/Vin.antt =====
-- selfdrive/car/vin.py: the test of a VIN, and the clean-up of a response to a VIN query.
mod Query
mod Sound
mod Tests
use Prim.Native.Char.{Char, code}
use openpilot9xxcivic.Prelude.{
  ℕ, zero, suc, ◌+◌, ◌≤◌, ◌≡◌, Bool, true, false, ◌&&◌, ◌||◌, ltb, leb, nat_beq, if◌then◌else◌,
  List, [], ◌∷◌, ◌++◌, String, length, all, is_empty, take, drop, Option, none, some,
}

-- The code points of a text.
abbrev pub codes : String → List ℕ
codes String.[] = []
codes (String.◌∷◌ c s) = code c ∷ codes s

abbrev pub vin_unknown : String
vin_unknown = "00000000000000000"

-- The class [A-HJ-NPR-Z0-9] of `VIN_RE`.
unfoldable pub is_vin_char : ℕ → Bool
is_vin_char c =
    (leb b'A' c && leb c b'H')
    || (leb b'J' c && leb c b'N')
    || nat_beq c b'P'
    || (leb b'R' c && leb c b'Z')
    || (leb b'0' c && leb c b'9')

unfoldable pub is_valid_vin : String → Bool
unfolding is_vin_char
is_valid_vin vin = nat_beq (length (codes vin)) 17 && all is_vin_char (codes vin)

-- Null bytes up to where `$` matches: the end, or before a newline that is the last byte.
abbrev pub is_padding : List ℕ → Bool
is_padding [] = true
is_padding (b ∷ bs) = (nat_beq b 0 && is_padding bs) || (nat_beq b b'\n' && is_empty bs)

-- `re.sub(b'\x00*$', b'', vin)`
unfoldable pub strip_null_suffix : List ℕ → List ℕ
strip_null_suffix [] = []
strip_null_suffix (b ∷ bs) =
    let rest = strip_null_suffix bs in if nat_beq b 0 && is_padding bs then rest else b ∷ rest

-- `vin[1:18]` if the response starts with a length.
unfoldable pub trim_length : List ℕ → List ℕ
trim_length [] = []
trim_length (b ∷ bs) = if nat_beq b 0x11 then take 17 bs else b ∷ bs

-- Ford and Nissan pad with null bytes; a Honda Bosch response starts with a length.
unfoldable pub clean_vin : List ℕ → List ℕ
unfolding strip_null_suffix trim_length
clean_vin vin =
    let vin' =
      if nat_beq (length vin) 19 || nat_beq (length vin) 24 then strip_null_suffix vin else vin in
    trim_length vin'
