-- ===== src/Firmware/Versions/Complete.antt =====
-- What `get_fw_versions` of selfdrive/car/fw_versions.py reports of ECUs that answer.
use mathlib.Core.Option
use openpilot9xxcivic.Prelude.{
  ℕ, ℤ, ◌≡◌, refl, ap, ◌∙◌, inl, inr, Bool, true, ◌||◌, ◌==◌, Option, none, some, List, [], ◌∷◌,
  String, any, any-add, contains-add, contains, Dict, keys, lookup_or, nat_comparable,
  string_comparable, option_comparable, list_comparable, pair_comparable, Occurs, arith, Bool-cases,
  pair_beq,
}
use openpilot9xxcivic.Firmware.{
  Version, Addr, EcuAddr, get_all_ecus, Request, Tables, CarFw, is_brand,
}
use openpilot9xxcivic.Firmware.Present.{requests_of, is_reachable, is_allowed}
use openpilot9xxcivic.Firmware.Versions.Reports.{
  or_left, or_right, or_cases, is_report, report-query_groups,
}
use openpilot9xxcivic.Firmware.Versions.{
  Target, Targets, add_addr, add_target, add_targets, collect, requests_for, addr_groups, targets,
  get_fw_versions,
}

-- The address is in some group of the brand's.
abbrev is_listed : Target → Targets → Bool
is_listed y s = any (λ g. contains g y) (addr_groups s)

is_listed-add_addr :
    (y z : Target) (s : Targets) → is_listed y (add_addr z s) ≡ (is_listed y s || (z == y))
unfolding contains
is_listed-add_addr y (brand, (addr, none)) s =
    ground (arith, contains-add s.parallel_addrs (brand, (addr, none)) y)
is_listed-add_addr y (brand, (addr, some sub_addr)) s =
    ground (arith, any-add (λ g. contains g y) s.addrs ((brand, (addr, some sub_addr)) ∷ []))

is_listed-add_targets :
    (y : Target) (brand : String) (ecus : List EcuAddr) (s : Targets)
    → is_listed y s ≡ true
    → is_listed y (add_targets brand ecus s) ≡ true
unfolding add_targets add_target
is_listed-add_targets y brand [] s h = h
is_listed-add_targets y brand (e ∷ ecus) s h =
    is_listed-add_targets y brand ecus (add_target brand e s)
      (is_listed-add_addr y (brand, e.1) _ ∙ or_left _ _ h)

all_listed :
    (brand : String) (a : Addr) (ecus : List EcuAddr) (s : Targets)
    → any (λ e. e.1 == a) ecus ≡ true
    → is_listed (brand, a) (add_targets brand ecus s) ≡ true
unfolding add_targets add_target
all_listed brand a [] s h = absurd (ground arith)
all_listed brand a (e ∷ ecus) s h = elim (or_cases (e.1 == a) (any (λ e. e.1 == a) ecus) h) [
  | inl now ↦
      is_listed-add_targets (brand, a) brand ecus (add_target brand e s)
        (is_listed-add_addr (brand, a) (brand, e.1) _ ∙ or_right _ _ (same_target now))
  | inr later ↦ all_listed brand a ecus (add_target brand e s) later
]
  where
    same_target :
        (e.1 == a) ≡ true → pair_beq {A = String} {B = Addr} (brand, e.1) (brand, a) ≡ true
    same_target h = rw ((string_comparable.same_iff brand brand).1 refl, h) refl

requests_for-Occurs :
    (query_brand : Option String) (requests : List (String × Request)) (x : String × Request)
    → is_brand x.0 query_brand ≡ true
    → Occurs x requests
    → Occurs x (requests_for query_brand requests)
requests_for-Occurs query_brand [] x b o = elim o [ ]
requests_for-Occurs query_brand ((c, r) ∷ requests) x b (inl e) =
    rw (ap (λ y. is_brand y.0 query_brand) e ∙ b) (inl e)
requests_for-Occurs query_brand ((c, r) ∷ requests) x b (inr o) =
    elim (Bool-cases (is_brand c query_brand)) [
      | inl own ↦ rw own (inr (requests_for-Occurs query_brand requests x b o))
      | inr other ↦ rw other (requests_for-Occurs query_brand requests x b o)
    ]

-- What is queried for a brand.
abbrev pub brand_targets : Tables → String → Targets
brand_targets t brand =
    add_targets brand (get_all_ecus (t.fw_query_configs brand) (t.versions brand))
      (record { addrs = []; parallel_addrs = []; ecu_types = [] })

module _ (rx_addr : (tx_addr : ℕ) (rx_offset : ℤ) → ℕ) (t : Tables)
    (get_data : (obd_multiplexing : Bool) → Request → List Addr → Option (Dict Addr Version)) where
  -- If every query is answered by the ECUs that it asks, then the call for a brand of the tables returns,
  -- for each address of the brand's ECUs and each request of the brand whose panda is there and whose
  -- whitelist allows the ECU that is met first at the address, a version that the request got from there.
  pub get_fw_versions_complete :
      (brand : String) (r : Request) (a : Addr) (num_pandas : ℕ) (obd : Bool)
      → contains t.brands brand ≡ true
      → Occurs (brand, r) (requests_of t t.brands)
      → is_reachable num_pandas r ≡ true
      → any (λ e. e.1 == a) (get_all_ecus (t.fw_query_configs brand) (t.versions brand)) ≡ true
      → is_allowed r (lookup_or "" (brand, a) (brand_targets t brand).ecu_types) ≡ true
      → ((m : Bool) (q : Request) (addrs : List Addr) (b : Addr)
          → contains addrs b ≡ true
          → (d : Dict Addr Version) × (get_data m q addrs ≡ some d) × (contains (keys d) b ≡ true))
      → (fws : List CarFw) × (get_fw_versions rx_addr t get_data (some brand) [] num_pandas obd
          ≡ some fws)
        × (any (is_report rx_addr t get_data num_pandas (brand_targets t brand) (brand, r) a) fws
            ≡ true)
  unfolding get_fw_versions targets collect Option.bind is_brand
  get_fw_versions_complete brand r a num_pandas obd known o near listed allowed answering = (
    _,
    rw known (rw known refl),
    report-query_groups rx_addr t get_data num_pandas (brand_targets t brand) answering (brand, r) a
        near allowed (requests_for (some brand) (requests_of t t.brands))
        (addr_groups (brand_targets t brand)) (record { obd_multiplexing = obd; car_fw = [] })
        (requests_for-Occurs (some brand) (requests_of t t.brands) (brand, r) (own brand) o)
        (all_listed brand a (get_all_ecus (t.fw_query_configs brand) (t.versions brand)) _ listed),
  )
    where
      own : (b : String) → is_brand b (some b) ≡ true
      own b = (string_comparable.same_iff b b).1 refl
