-- ===== src/Can.antt =====
-- CAN messages and the packer of opendbc, which is not in this repository: a parameter. The values of a
-- message are in thousandths, ints as well as floats.
use openpilot9xxcivic.Prelude.{
  ℕ, ℤ, pos, milli, ◌≤◌, leb, nat_beq, Bool, true, false, if◌then◌else◌, List, [], ◌∷◌, ◌++◌, map,
  Option, none, some, String, Dict, lookup, Every, ◌==◌, string_comparable, ◌≡◌, refl, ap, ◌∙◌,
}

-- What `packer.make_can_msg` returns: the address, the data and the bus.
pub record CanMessage : Type 0 where
  pub address : ℕ
  pub dat : List ℕ
  pub bus : ℕ

-- `packer.make_can_msg`
abbrev pub Packer : Type 0
Packer = String → (bus : ℕ) → (values : Dict String ℤ) → CanMessage

abbrev pub flag : Bool → ℕ
flag b = if b then 1 else 0

abbrev pub int_value : String → ℤ → String × ℤ
int_value name n = (name, milli n)

abbrev pub nat_value : String → ℕ → String × ℤ
nat_value name n = (name, milli (pos n))

abbrev pub bool_value : String → Bool → String × ℤ
bool_value name b = nat_value name (flag b)

-- `{s: msg[s] for s in names}`, for a message that has all of them.
abbrev pub copied : List String → (msg : String → ℤ) → Dict String ℤ
copied names msg = map (λ s. (s, msg s)) names

-- A bit that was packed as 0 or 1.
abbrev pub is_set : ℕ → Bool
is_set n = nat_beq n 1

pub is_set-flag : (b : Bool) → is_set (flag b) ≡ b
is_set-flag true = refl
is_set-flag false = refl

-- What a receiver reads of one signal of one message: a number up to `max`, which fits the signal, is read as it
-- was packed, and nothing is read of a message with another name or of a diagnostic one, with an address
-- from 0x700 on.
pub record Reader (packer : Packer) (name signal : String) (max : ℕ) : Type 0 where
  pub read : CanMessage → Option ℕ
  pub read_packed :
      (bus n : ℕ) (values : Dict String ℤ)
      → lookup signal values ≡ some (milli (pos n))
      → n ≤ max
      → read (packer name bus values) ≡ some n
  pub read_other :
      (other : String) (bus : ℕ) (values : Dict String ℤ)
      → (other == name) ≡ false
      → read (packer other bus values) ≡ none
  pub read_diagnostic : (m : CanMessage) → leb 0x700 m.address ≡ true → read m ≡ none

abbrev pub read_onto : Option ℕ → List ℕ → List ℕ
read_onto none ns = ns
read_onto (some n) ns = n ∷ ns

module _ (read : CanMessage → Option ℕ) where
  -- What is read of the messages that are sent.
  abbrev pub read_all : List CanMessage → List ℕ
  read_all [] = []
  read_all (m ∷ ms) = read_onto (read m) (read_all ms)

  pub read_all-append : (xs ys : List CanMessage) → read_all (xs ++ ys) ≡ read_all xs ++ read_all ys
  read_all-append [] ys = refl
  read_all-append (m ∷ xs) ys =
      ap (read_onto (read m)) (read_all-append xs ys) ∙ onto (read m) (read_all xs)
    where
      onto :
          (o : Option ℕ) (ns : List ℕ)
          → read_onto o (ns ++ read_all ys) ≡ read_onto o ns ++ read_all ys
      onto none ns = refl
      onto (some n) ns = refl

  -- Messages of which nothing is read.
  abbrev pub IsSilent : List CanMessage → Type 0
  IsSilent = Every (λ m. read m ≡ none)

  pub if-IsSilent :
      (b : Bool) (xs ys : List CanMessage)
      → IsSilent xs
      → IsSilent ys
      → IsSilent (if b then xs else ys)
  if-IsSilent true xs ys h k = h
  if-IsSilent false xs ys h k = k

  pub when-IsSilent :
      (b : Bool) (xs : List CanMessage) → IsSilent xs → IsSilent (if b then xs else [])
  when-IsSilent true xs h = h
  when-IsSilent false xs h = tt

  pub IsSilent-read_all : (ms : List CanMessage) → IsSilent ms → read_all ms ≡ []
  IsSilent-read_all [] h = refl
  IsSilent-read_all (m ∷ ms) h = ap (λ o. read_onto o (read_all ms)) h.0 ∙ IsSilent-read_all ms h.1
