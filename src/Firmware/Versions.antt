-- ===== src/Firmware/Versions.antt =====
-- `get_fw_versions` and `chunks` of selfdrive/car/fw_versions.py. The answers of the ISO-TP queries are a
-- parameter.
mod Raises
mod Reports
pub mod Sound
pub mod Complete
mod Tests
use mathlib.Core.Option
use openpilot9xxcivic.Prelude.{
  ℕ, zero, suc, ℤ, ◌%◌, Bool, true, false, not, ◌&&◌, ◌||◌, ◌==◌, nat_beq, if◌then◌else◌, Option,
  none, some, List, [], ◌∷◌, ◌++◌, length, take, drop, is_empty, is_some, String, contains, add,
  Dict, lookup, lookup_or, insert, nat_comparable, string_comparable, option_comparable,
  list_comparable, pair_comparable,
}
use openpilot9xxcivic.Firmware.{
  Version, Addr, EcuAddr, OfflineFwVersions, Request, Tables, CarFw, is_brand, get_all_ecus,
}
use openpilot9xxcivic.Firmware.Present.{requests_of, is_reachable, is_allowed}

-- `chunks`: the slices `l[i:i + n]`, on fuel for one slice an element.
module _ {ℓ} {A : Type ℓ} (n : ℕ) where
  unfoldable pub chunks_from : (fuel : ℕ) → List A → List (List A)
  chunks_from zero l = []
  chunks_from (suc fuel) l =
      let rest = chunks_from fuel (drop n l) in if is_empty l then [] else take n l ∷ rest

  unfoldable pub chunks : List A → List (List A)
  unfolding chunks_from
  chunks l = chunks_from (length l) l

-- A brand and an address that is queried for it.
abbrev pub Target : Type 0
Target = String × Addr

-- The addresses to query: those without a sub-address together, the others one by one; and the kind of
-- the ECU that is met first at each.
pub record Targets : Type 0 where
  pub addrs : List (List Target)
  pub parallel_addrs : List Target
  pub ecu_types : Dict Target String

abbrev pub add_addr : Target → Targets → Targets
add_addr (brand, (addr, none)) s = record s {
  parallel_addrs = add s.parallel_addrs (brand, (addr, none));
}
add_addr (brand, (addr, some sub_addr)) s = record s {
  addrs = add s.addrs ((brand, (addr, some sub_addr)) ∷ []);
}

unfoldable pub add_target : String → EcuAddr → Targets → Targets
add_target brand (ecu_type, a) s =
    add_addr (brand, a)
      (record s {
        ecu_types =
            if is_some (lookup (brand, a) s.ecu_types)
            then s.ecu_types
            else insert (brand, a) ecu_type s.ecu_types;
      })

unfoldable pub add_targets : String → List EcuAddr → Targets → Targets
unfolding add_target
add_targets brand [] s = s
add_targets brand (e ∷ ecus) s = add_targets brand ecus (add_target brand e s)

-- The loop over `versions`; `none` is the `KeyError` for a brand without a configuration.
unfoldable pub collect : Tables → Dict String OfflineFwVersions → Targets → Option Targets
unfolding add_targets
collect t [] s = some s
collect t ((brand, brand_versions) ∷ versions) s =
    let rest =
      collect t versions
        (add_targets brand (get_all_ecus (t.fw_query_configs brand) brand_versions) s) in
    if contains t.brands brand then rest else none

-- `VERSIONS.copy()`, or the entry of the queried brand; `none` is the `KeyError`.
abbrev pub all_versions : Tables → (brands : List String) → Dict String OfflineFwVersions
all_versions t [] = []
all_versions t (brand ∷ brands) = (brand, t.versions brand) ∷ all_versions t brands

abbrev pub own_versions : Tables → Option String → Option (Dict String OfflineFwVersions)
own_versions t none = some (all_versions t t.brands)
own_versions t (some brand) =
    if contains t.brands brand then some ((brand, t.versions brand) ∷ []) else none

-- `versions.update(extra)`
abbrev pub updated :
    Dict String OfflineFwVersions → Dict String OfflineFwVersions → Dict String OfflineFwVersions
updated versions [] = versions
updated versions ((brand, v) ∷ extra) = updated (insert brand v versions) extra

unfoldable pub targets : Tables → Option String → Dict String OfflineFwVersions → Option Targets
unfolding collect
targets t query_brand extra = Option.bind (own_versions t query_brand) (λ versions.
    collect t (updated versions extra) (record { addrs = []; parallel_addrs = []; ecu_types = [] }))

-- `addrs` with the parallel group at its head.
abbrev pub addr_groups : Targets → List (List Target)
addr_groups s = s.parallel_addrs ∷ s.addrs

-- What the loop over the requests changes: the mode of OBD multiplexing, and the versions.
pub record Session : Type 0 where
  pub obd_multiplexing : Bool
  pub car_fw : List CarFw

abbrev pub some_or_zero : Option ℕ → ℕ
some_or_zero none = 0
some_or_zero (some sub_addr) = sub_addr

module _ (rx_addr : (tx_addr : ℕ) (rx_offset : ℤ) → ℕ) (t : Tables) (num_pandas : ℕ)
    (s : Targets) where
  -- The addresses of a chunk that a request is sent to.
  unfoldable pub query_addrs : String → Request → List Target → List Addr
  query_addrs brand r [] = []
  query_addrs brand r ((b, a) ∷ chunk) =
      let rest = query_addrs brand r chunk in
      if ((b == brand) || (b == "any")) && is_allowed r (lookup_or "" (b, a) s.ecu_types)
      then a ∷ rest
      else rest

  unfoldable pub car_fw_of : String → Request → Addr → Version → CarFw
  car_fw_of brand r a version =
      let ecu = lookup_or "unknown" (brand, a) s.ecu_types in
      record {
        ecu = ecu;
        fw_version = version;
        address = a.0;
        sub_address = some_or_zero a.1;
        response_address = rx_addr a.0 r.rx_offset;
        request = r.request;
        brand = brand;
        bus = r.bus;
        logging = r.logging || contains (t.fw_query_configs brand).extra_ecus (ecu, a);
        obd_multiplexing = r.obd_multiplexing;
      }

  unfoldable pub car_fws_of : String → Request → Dict Addr Version → List CarFw
  unfolding car_fw_of
  car_fws_of brand r [] = []
  car_fws_of brand r ((a, version) ∷ d) = car_fw_of brand r a version ∷ car_fws_of brand r d

  -- The answers to a request sent to addresses; `none` is an exception, which is logged.
  module _
      (get_data : (obd_multiplexing : Bool)
        → Request
        → List Addr
        → Option (Dict Addr Version)) where
    unfoldable pub query_request : List Target → String × Request → Session → Session
    unfolding query_addrs car_fws_of
    query_request chunk (brand, r) state =
        if is_reachable num_pandas r
        then (let obd =
              if nat_beq (r.bus % 4) 1 then r.obd_multiplexing else state.obd_multiplexing in
            let addrs = query_addrs brand r chunk in
            let found = if is_empty addrs then some [] else get_data obd r addrs in
            record {
              obd_multiplexing = obd;
              car_fw = elim found [
                | none ↦ state.car_fw
                | some d ↦ state.car_fw ++ car_fws_of brand r d
              ];
            })
        else state

    unfoldable pub query_chunk : List (String × Request) → List Target → Session → Session
    unfolding query_request
    query_chunk [] chunk state = state
    query_chunk (request ∷ requests) chunk state =
        query_chunk requests chunk (query_request chunk request state)

    unfoldable pub query_chunks : List (String × Request) → List (List Target) → Session → Session
    unfolding query_chunk
    query_chunks requests [] state = state
    query_chunks requests (chunk ∷ rest) state =
        query_chunks requests rest (query_chunk requests chunk state)

    unfoldable pub query_groups : List (String × Request) → List (List Target) → Session → Session
    unfolding query_chunks chunks
    query_groups requests [] state = state
    query_groups requests (group ∷ groups) state =
        query_groups requests groups (query_chunks requests (chunks 128 group) state)

-- `[... for brand, config, r in REQUESTS if is_brand(brand, query_brand)]`
abbrev pub requests_for : Option String → List (String × Request) → List (String × Request)
requests_for query_brand [] = []
requests_for query_brand ((brand, r) ∷ requests) =
    if is_brand brand query_brand
    then (brand, r) ∷ requests_for query_brand requests
    else requests_for query_brand requests

module _ (rx_addr : (tx_addr : ℕ) (rx_offset : ℤ) → ℕ) (t : Tables)
    (get_data : (obd_multiplexing : Bool) → Request → List Addr → Option (Dict Addr Version)) where
  -- `obd_multiplexing` is the mode that is set before the call.
  unfoldable pub get_fw_versions :
      (query_brand : Option String) (extra : Dict String OfflineFwVersions) (num_pandas : ℕ)
      (obd_multiplexing : Bool)
      → Option (List CarFw)
  unfolding targets query_groups
  get_fw_versions query_brand extra num_pandas obd_multiplexing =
      Option.map
        (λ s.
          (query_groups rx_addr t num_pandas s get_data
            (requests_for query_brand (requests_of t t.brands)) (addr_groups s)
            (record { obd_multiplexing = obd_multiplexing; car_fw = [] })).car_fw)
        (targets t query_brand extra)
