-- ===== src/Firmware/Present.antt =====
-- `get_present_ecus` of selfdrive/car/fw_versions.py, over the scan of ecu_addrs.py.
use openpilot9xxcivic.Prelude.{
  ℕ, ℤ, ◌*◌, ◌≡◌, ap, ◌∙◌, Bool, true, false, not, ◌&&◌, ◌||◌, ◌==◌, leb, if◌then◌else◌, none, some,
  List, [], ◌∷◌, ◌++◌, String, is_empty, any, any-add, contains, add, union, contains-add,
  contains-union, nat_comparable, string_comparable, option_comparable, list_comparable,
  pair_comparable, arith, Bool-cases, inl, inr,
}
use openpilot9xxcivic.Ecus.{Ecu, CanMessage, get_ecu_addrs}
use openpilot9xxcivic.Ecus.Scan.{answers, get_ecu_addrs_lem}
use openpilot9xxcivic.Firmware.{EcuAddr, Request, Tables, get_all_ecus}

abbrev pub with_brand : String → List Request → List (String × Request)
with_brand brand [] = []
with_brand brand (r ∷ rs) = (brand, r) ∷ with_brand brand rs

-- `REQUESTS`
unfoldable pub requests_of : Tables → (brands : List String) → List (String × Request)
requests_of t [] = []
requests_of t (brand ∷ brands) =
    with_brand brand (t.fw_query_configs brand).requests ++ requests_of t brands

-- The request's panda is there: not `r.bus > num_pandas * 4 - 1`.
abbrev pub is_reachable : (num_pandas : ℕ) → Request → Bool
is_reachable num_pandas r = not (leb (num_pandas * 4) r.bus)

-- The whitelist, where it is not empty, has the ECU.
abbrev pub is_allowed : Request → (ecu_type : String) → Bool
is_allowed r ecu_type = is_empty r.whitelist_ecus || contains r.whitelist_ecus ecu_type

-- `queries` and `parallel_queries` for one mode of OBD multiplexing.
pub record Mode : Type 0 where
  pub parallel_queries : List Ecu
  pub queries : List (List Ecu)

-- The two dictionaries by mode, and the set of expected responses.
pub record Plan : Type 0 where
  pub obd_on : Mode
  pub obd_off : Mode
  pub responses : List Ecu

abbrev pub empty_plan : Plan
empty_plan = record {
  obd_on = record { parallel_queries = []; queries = [] };
  obd_off = record { parallel_queries = []; queries = [] };
  responses = [];
}

unfoldable pub add_query : Ecu → Mode → Mode
add_query ((addr, none), bus) m = record m {
  parallel_queries = add m.parallel_queries ((addr, none), bus);
}
add_query ((addr, some sub_addr), bus) m = record m {
  queries = add m.queries (((addr, some sub_addr), bus) ∷ []);
}

module _ (rx_addr : (tx_addr : ℕ) (rx_offset : ℤ) → ℕ) where
  -- The response that is expected from an ECU.
  abbrev pub response : Request → EcuAddr → Ecu
  response r (ecu_type, (addr, sub_addr)) = ((rx_addr addr r.rx_offset, sub_addr), r.bus)

  unfoldable pub add_ecu : Request → EcuAddr → Plan → Plan
  unfolding add_query
  add_ecu r e p =
      if is_allowed r e.0
      then record {
        obd_on = if r.obd_multiplexing then add_query (e.1, r.bus) p.obd_on else p.obd_on;
        obd_off = if r.obd_multiplexing then p.obd_off else add_query (e.1, r.bus) p.obd_off;
        responses = add p.responses (response r e);
      }
      else p

  unfoldable pub add_ecus : Request → List EcuAddr → Plan → Plan
  unfolding add_ecu
  add_ecus r [] p = p
  add_ecus r (e ∷ ecus) p = add_ecus r ecus (add_ecu r e p)

  module _ (t : Tables) (num_pandas : ℕ) where
    abbrev pub ecus_of : String → List EcuAddr
    ecus_of brand = get_all_ecus (t.fw_query_configs brand) (t.versions brand)

    unfoldable pub plan_from : List (String × Request) → Plan → Plan
    unfolding add_ecus
    plan_from [] p = p
    plan_from ((brand, r) ∷ requests) p =
        plan_from requests (if is_reachable num_pandas r then add_ecus r (ecus_of brand) p else p)

    unfoldable pub plan : Plan
    unfolding plan_from requests_of
    plan = plan_from (requests_of t t.brands) empty_plan

    -- The groups of a mode, each asked at once, the parallel ones first.
    abbrev pub groups : Mode → List (List Ecu)
    groups m = m.parallel_queries ∷ m.queries

    -- The scans of a mode. `traffic` are the messages that are read in a scan.
    module _ (traffic : (obd_multiplexing : Bool) (query : List Ecu) → List CanMessage) where
      unfoldable pub scan_groups :
          (obd_multiplexing : Bool) (responses : List Ecu) → List (List Ecu) → List Ecu → List Ecu
      scan_groups obd responses [] found = found
      scan_groups obd responses (query ∷ queries) found =
          scan_groups obd responses queries
            (union found (get_ecu_addrs responses (traffic obd query)))

      unfoldable pub get_present_ecus : List Ecu
      unfolding scan_groups plan
      get_present_ecus =
          scan_groups false plan.responses (groups plan.obd_off)
            (scan_groups true plan.responses (groups plan.obd_on) [])

-- The groups of a mode ask the address.
abbrev pub is_asked : Ecu → Mode → Bool
is_asked a m = contains m.parallel_queries a || any (λ q. contains q a) m.queries

is_asked-add_query :
    (a b : Ecu) (m : Mode) → is_asked a (add_query b m) ≡ (is_asked a m || (b == a))
unfolding add_query contains
is_asked-add_query a ((addr, none), bus) m =
    ground (arith, contains-add m.parallel_queries ((addr, none), bus) a)
is_asked-add_query a ((addr, some sub), bus) m =
    ground (arith, any-add (λ q. contains q a) m.queries (((addr, some sub), bus) ∷ []))

module _ (rx_addr : (tx_addr : ℕ) (rx_offset : ℤ) → ℕ) (t : Tables) (num_pandas : ℕ) where
  -- What each ECU of a request adds to the plan adds up.
  module _ (see : Plan → Bool) (hit : Request → EcuAddr → Bool)
      (step : (r : Request) (e : EcuAddr) (p : Plan)
        → see (add_ecu rx_addr r e p) ≡ (see p || hit r e)) where
    see-add_ecus :
        (r : Request) (ecus : List EcuAddr) (p : Plan)
        → see (add_ecus rx_addr r ecus p) ≡ (see p || any (hit r) ecus)
    unfolding add_ecus
    see-add_ecus r [] p = ground arith
    see-add_ecus r (e ∷ ecus) p =
        ground (arith, see-add_ecus r ecus (add_ecu rx_addr r e p), step r e p)

    see-plan_from :
        (requests : List (String × Request)) (p : Plan)
        → see (plan_from rx_addr t num_pandas requests p) ≡ (
            see p
            || any
                (λ x.
                  is_reachable num_pandas x.1 && any (hit x.1) (ecus_of rx_addr t num_pandas x.0))
                requests)
    unfolding plan_from
    see-plan_from [] p = ground arith
    see-plan_from ((brand, r) ∷ requests) p = elim (Bool-cases (is_reachable num_pandas r)) [
      | inl reachable ↦ rw reachable (
          ground (
            arith,
            see-plan_from requests (add_ecus rx_addr r (ecus_of rx_addr t num_pandas brand) p),
            see-add_ecus r (ecus_of rx_addr t num_pandas brand) p,
          ))
      | inr away ↦ rw away (see-plan_from requests p)
    ]

  abbrev pub mode_of : Bool → Plan → Mode
  mode_of obd p = if obd then p.obd_on else p.obd_off

  -- A request of the mode asks the address: its panda is there, and it is for the ECU there.
  abbrev pub asks : (obd : Bool) → Ecu → Request → EcuAddr → Bool
  asks obd a r e =
      is_allowed r e.0
      && (if obd then r.obd_multiplexing else not r.obd_multiplexing)
      && ((e.1, r.bus) == a)

  abbrev pub expects : Ecu → Request → EcuAddr → Bool
  expects x r e = is_allowed r e.0 && (response rx_addr r e == x)

  asks-add_ecu :
      (obd : Bool) (a : Ecu) (r : Request) (e : EcuAddr) (p : Plan)
      → is_asked a (mode_of obd (add_ecu rx_addr r e p))
        ≡ (is_asked a (mode_of obd p) || asks obd a r e)
  unfolding add_ecu
  asks-add_ecu true a r e p = elim (Bool-cases (is_allowed r e.0)) [
    | inl allowed ↦ elim (Bool-cases r.obd_multiplexing) [
      | inl on ↦ rw (allowed, on) (is_asked-add_query a (e.1, r.bus) p.obd_on)
      | inr off ↦ rw (allowed, off) (ground arith)
    ]
    | inr refused ↦ rw refused (ground arith)
  ]
  asks-add_ecu false a r e p = elim (Bool-cases (is_allowed r e.0)) [
    | inl allowed ↦ elim (Bool-cases r.obd_multiplexing) [
      | inl on ↦ rw (allowed, on) (ground arith)
      | inr off ↦ rw (allowed, off) (is_asked-add_query a (e.1, r.bus) p.obd_off)
    ]
    | inr refused ↦ rw refused (ground arith)
  ]

  expects-add_ecu :
      (x : Ecu) (r : Request) (e : EcuAddr) (p : Plan)
      → contains (add_ecu rx_addr r e p).responses x ≡ (contains p.responses x || expects x r e)
  unfolding add_ecu
  expects-add_ecu x r e p = elim (Bool-cases (is_allowed r e.0)) [
    | inl allowed ↦ rw allowed (contains-add p.responses (response rx_addr r e) x)
    | inr refused ↦ rw refused (ground arith)
  ]

  -- Some request whose panda is there has an ECU of its brand that the test holds for.
  abbrev pub some_request : (Request → EcuAddr → Bool) → Bool
  some_request hit =
      any (λ x. is_reachable num_pandas x.1 && any (hit x.1) (ecus_of rx_addr t num_pandas x.0))
        (requests_of t t.brands)

  module _ (traffic : (obd_multiplexing : Bool) (query : List Ecu) → List CanMessage) where
    -- In the mode some scan read a response of the ECU.
    abbrev pub has_answered : (obd : Bool) → Ecu → Bool
    has_answered obd x =
        any (λ q. any (answers (plan rx_addr t num_pandas).responses x) (traffic obd q))
          (groups rx_addr t num_pandas (mode_of obd (plan rx_addr t num_pandas)))

    contains-scan_groups :
        (obd : Bool) (responses : List Ecu) (qs : List (List Ecu)) (found : List Ecu) (x : Ecu)
        → contains (scan_groups rx_addr t num_pandas traffic obd responses qs found) x
          ≡ (contains found x || any (λ q. any (answers responses x) (traffic obd q)) qs)
    unfolding scan_groups
    contains-scan_groups obd responses [] found x = ground arith
    contains-scan_groups obd responses (q ∷ qs) found x = ground (
      arith,
      contains-scan_groups obd responses qs (union found (get_ecu_addrs responses (traffic obd q)))
          x,
      contains-union found (get_ecu_addrs responses (traffic obd q)) x,
      get_ecu_addrs_lem responses (traffic obd q) x,
    )

    found_lem :
        (x : Ecu)
        → contains (get_present_ecus rx_addr t num_pandas traffic) x
          ≡ (has_answered true x || has_answered false x)
    unfolding get_present_ecus contains
    found_lem x =
        contains-scan_groups false _
          (groups rx_addr t num_pandas (plan rx_addr t num_pandas).obd_off) _ x
        ∙ ap (λ b. b || has_answered false x)
            (contains-scan_groups true _
              (groups rx_addr t num_pandas (plan rx_addr t num_pandas).obd_on) [] x)

    -- In each mode of OBD multiplexing an address is asked exactly if some request of the mode is for an
    -- ECU at it, which the whitelist allows, and whose panda is there; a response is expected exactly if
    -- some such request, of any mode, has the ECU send it; and the ECUs found are those of which, in
    -- some mode, some scan read an expected response.
    pub get_present_ecus_lem :
        (x : Ecu)
        → (is_asked x (plan rx_addr t num_pandas).obd_on ≡ some_request (asks true x))
          × (is_asked x (plan rx_addr t num_pandas).obd_off ≡ some_request (asks false x))
          × (contains (plan rx_addr t num_pandas).responses x ≡ some_request (expects x))
          × (contains (get_present_ecus rx_addr t num_pandas traffic) x
              ≡ (has_answered true x || has_answered false x))
    unfolding get_present_ecus plan contains
    get_present_ecus_lem x = (
      see-plan_from (λ p. is_asked x p.obd_on) (asks true x) (asks-add_ecu true x)
          (requests_of t t.brands) empty_plan,
      see-plan_from (λ p. is_asked x p.obd_off) (asks false x) (asks-add_ecu false x)
          (requests_of t t.brands) empty_plan,
      see-plan_from (λ p. contains p.responses x) (expects x) (expects-add_ecu x)
          (requests_of t t.brands) empty_plan,
      found_lem x,
    )
