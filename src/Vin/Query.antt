-- ===== src/Vin/Query.antt =====
-- `get_vin` of selfdrive/car/vin.py: the retries, buses and requests, and what a response becomes.
use openpilot9xxcivic.Prelude.{
  ℕ, zero, suc, ◌+◌, ◌≡◌, refl, ap, Bool, true, false, not, nat_beq, if◌then◌else◌, List, [], ◌∷◌,
  ◌++◌, replicate, length, Option, none, some, contains, nat_comparable, Dict, lookup, arith, all,
  length-append, take,
}
use openpilot9xxcivic.Vin.{trim_length, clean_vin, strip_null_suffix, is_padding}

pub data VinRequest : Type 0 where
  uds_vin obd_vin gm_vin kwp_vin : VinRequest

-- A row of the table of requests.
pub record VinQuery : Type 0 where
  pub request : VinRequest
  pub valid_buses : List ℕ
  pub vin_addrs : List ℕ
  pub is_functional : Bool
  pub rx_offset : ℕ

abbrev pub standard_vin_addrs : List ℕ
standard_vin_addrs = 0x7e0 ∷ 0x7e2 ∷ 0x760 ∷ 0x7c6 ∷ 0x18da10f1 ∷ 0x18da0ef1 ∷ []

abbrev both : List ℕ
both = 0 ∷ 1 ∷ []

abbrev row : VinRequest → List ℕ → List ℕ → Bool → ℕ → VinQuery
row r buses addrs f offset = record {
  request = r;
  valid_buses = buses;
  vin_addrs = addrs;
  is_functional = f;
  rx_offset = offset;
}

abbrev pub vin_queries : List VinQuery
vin_queries =
    row uds_vin both standard_vin_addrs true 0x8
    ∷ row obd_vin both standard_vin_addrs true 0x8
    ∷ row gm_vin (0 ∷ []) (0x24b ∷ []) false 0x400
    ∷ row kwp_vin (0 ∷ []) (0x797 ∷ []) false 0x3
    ∷ row uds_vin (0 ∷ []) (0x74f ∷ []) false 0x6a
    ∷ []

-- A VIN that was found: the address that the request went to, the offset of the response's address,
-- the bus, and the bytes.
pub record VinFound : Type 0 where
  pub addr : ℕ
  pub rx_offset : ℕ
  pub bus : ℕ
  pub vin : List ℕ

-- The first of two results that is there.
abbrev pub or_else {ℓ} : {A : Type ℓ} → Option A → Option A → Option A
or_else none b = b
or_else (some a) b = some a

-- `query i bus q` is the outcome of `get_data` of the query for the row `q` in round `i`: the bytes by
-- address, or `none` where it raised. `decodes` tells whether `decode()` accepts the bytes: the
-- exception that it raises otherwise ends the query too.
module _ (decodes : List ℕ → Bool) (query : ℕ → ℕ → VinQuery → Option (Dict ℕ (List ℕ))) where
  -- `results.get((addr, None))` and what is returned for it; `next` is the rest of the loop.
  unfoldable pub read_addr :
      VinQuery → (bus addr : ℕ) → Option (List ℕ) → Option VinFound → Option VinFound
  read_addr q bus addr none next = next
  read_addr q bus addr (some vin) next =
      if decodes (clean_vin vin)
      then some (record { addr = addr; rx_offset = q.rx_offset; bus = bus; vin = clean_vin vin })
      else none

  -- `for addr in vin_addrs` with its `return`.
  unfoldable pub read_addrs : VinQuery → ℕ → Dict ℕ (List ℕ) → List ℕ → Option VinFound
  unfolding read_addr
  read_addrs q bus results [] = none
  read_addrs q bus results (addr ∷ rest) =
      read_addr q bus addr (lookup addr results) (read_addrs q bus results rest)

  unfoldable pub read_results : VinQuery → ℕ → Option (Dict ℕ (List ℕ)) → Option VinFound
  unfolding read_addrs
  read_results q bus none = none
  read_results q bus (some results) = read_addrs q bus results q.vin_addrs

  -- One row on one bus; an exception goes on with the next row.
  unfoldable pub run_query : ℕ → ℕ → VinQuery → Option VinFound
  unfolding read_results
  run_query i bus q =
      if contains q.valid_buses bus then read_results q bus (query i bus q) else none

  unfoldable pub run_queries : ℕ → ℕ → List VinQuery → Option VinFound
  run_queries i bus [] = none
  run_queries i bus (q ∷ qs) = or_else (run_query i bus q) (run_queries i bus qs)

  unfoldable pub run_buses : ℕ → List ℕ → Option VinFound
  run_buses i [] = none
  run_buses i (bus ∷ buses) = or_else (run_queries i bus vin_queries) (run_buses i buses)

  -- `left` rounds are left, and `i` is the number of the next one. `none` stands for (-1, -1,
  -- VIN_UNKNOWN).
  unfoldable pub get_vin : (left i : ℕ) → List ℕ → Option VinFound
  get_vin zero i buses = none
  get_vin (suc left) i buses = or_else (run_buses i buses) (get_vin left (i + 1) buses)

replicate-is_padding : (n : ℕ) → is_padding (replicate n 0) ≡ true
replicate-is_padding zero = refl
replicate-is_padding (suc n) = ground (arith, replicate-is_padding n)

strip_null_suffix-append :
    (vin : List ℕ) (n : ℕ)
    → all (λ b. not (nat_beq b 0)) vin ≡ true
    → strip_null_suffix (vin ++ replicate n 0) ≡ vin
unfolding strip_null_suffix
strip_null_suffix-append [] zero h = refl
strip_null_suffix-append [] (suc n) h =
    rw (replicate-is_padding n) (strip_null_suffix-append [] n refl)
strip_null_suffix-append (b ∷ vin) n h = ground (arith, strip_null_suffix-append vin n)

take_all : (n : ℕ) (xs : List ℕ) → length xs ≡ n → take n xs ≡ xs
take_all zero [] h = refl
take_all zero (x ∷ xs) h = absurd (omega arith)
take_all (suc n) [] h = refl
take_all (suc n) (x ∷ xs) h = ap (λ l. x ∷ l) (take_all n xs (omega arith))

-- A VIN of 17 characters, none of them null and the first not 0x11, is read as it is; so it is when it
-- comes padded with null bytes to 19 or 24 bytes, and behind the length 0x11.
pub clean_vin_lem :
    (c : ℕ) (vin : List ℕ)
    → length vin ≡ 16
    → all (λ b. not (nat_beq b 0)) (c ∷ vin) ≡ true
    → nat_beq c 0x11 ≡ false
    → (clean_vin (c ∷ vin) ≡ c ∷ vin)
      × (clean_vin ((c ∷ vin) ++ replicate 2 0) ≡ c ∷ vin)
      × (clean_vin ((c ∷ vin) ++ replicate 7 0) ≡ c ∷ vin)
      × (clean_vin (0x11 ∷ c ∷ vin) ≡ c ∷ vin)
unfolding clean_vin trim_length
clean_vin_lem c vin len nonnull first = (
  rw (len, first) refl,
  rw (length-append vin (replicate 2 0), len, strip_null_suffix-append (c ∷ vin) 2 nonnull, first)
      refl,
  rw (length-append vin (replicate 7 0), len, strip_null_suffix-append (c ∷ vin) 7 nonnull, first)
      refl,
  rw (len, take_all 16 vin len) refl,
)
