-- ===== src/Firmware/Versions/Tests.antt =====
-- The queries of a brand with two ECUs, one behind a sub-address.
use openpilot9xxcivic.Prelude.{
  ℕ, ℤ, pos, negsuc, ◌+◌, ◌≡◌, ◌⊎◌, refl, inl, Bool, true, false, ◌||◌, any, contains, Option, none,
  some, List, [], ◌∷◌, map, Dict, keys, union, nat_comparable, string_comparable, option_comparable,
  list_comparable, pair_comparable,
}
use openpilot9xxcivic.Ecus.{Ecu, CanMessage}
use openpilot9xxcivic.Firmware.{Addr, Version, Request, Tables, CarFw, get_all_ecus}
use openpilot9xxcivic.Firmware.Brands.{
  get_brand_ecu_matches, get_brand_ecu_matches_lem, is_match, hits,
}
use openpilot9xxcivic.Firmware.Present.{
  requests_of, plan, is_asked, some_request, asks, expects, has_answered, get_present_ecus,
  get_present_ecus_lem,
}
use openpilot9xxcivic.Firmware.Versions.{get_fw_versions}
use openpilot9xxcivic.Firmware.Versions.Raises.{is_known}
use openpilot9xxcivic.Firmware.Versions.Reports.{is_report}
use openpilot9xxcivic.Firmware.Versions.Sound.{IsSoundReturn, get_fw_versions_lem}
use openpilot9xxcivic.Firmware.Versions.Complete.{brand_targets, get_fw_versions_complete}

abbrev rx_addr : (tx_addr : ℕ) (rx_offset : ℤ) → ℕ
rx_addr tx_addr (pos n) = tx_addr + n
rx_addr tx_addr (negsuc n) = tx_addr

abbrev read_version : Request
read_version = record {
  request = (34 ∷ 241 ∷ 129 ∷ []) ∷ [];
  response = (98 ∷ 241 ∷ 129 ∷ []) ∷ [];
  whitelist_ecus = [];
  rx_offset = pos 8;
  bus = 1;
  auxiliary = false;
  logging = false;
  obd_multiplexing = true;
}

abbrev tables : Tables
tables = record {
  brands = "toyota" ∷ [];
  versions = λ brand.
      ("PRIUS", (("engine", (0x7e0, none)), []) ∷ (("fwdRadar", (0x750, some 0xf)), []) ∷ []) ∷ [];
  fw_versions = [];
  model_to_brand = λ car. "toyota";
  fw_query_configs = λ brand. record {
    requests = read_version ∷ [];
    non_essential_ecus = [];
    extra_ecus = [];
    match_fw_to_car_fuzzy = none;
  };
}

abbrev version_of : Addr → Addr × Version
version_of a = (a, 1 ∷ [])

-- Every ECU answers.
abbrev get_data : (obd_multiplexing : Bool) → Request → List Addr → Option (Dict Addr Version)
get_data obd r addrs = some (map version_of addrs)

answering :
    (m : Bool) (q : Request) (addrs : List Addr) (b : Addr)
    → contains addrs b ≡ true
    → (d : Dict Addr Version) × (get_data m q addrs ≡ some d) × (contains (keys d) b ≡ true)
answering m q addrs b h = (map version_of addrs, refl, same addrs h)
  where
    same_keys : (as' : List Addr) → keys (map version_of as') ≡ as'
    same_keys [] = refl
    same_keys (a ∷ as') = rw (same_keys as') refl

    same : (as' : List Addr) → contains as' b ≡ true → contains (keys (map version_of as')) b ≡ true
    same as' h = rw (same_keys as') h

get_fw_versions_complete_example :
    (fws : List CarFw) × (get_fw_versions rx_addr tables get_data (some "toyota") [] 1 false
      ≡ some fws)
    × (any
          (is_report rx_addr tables get_data 1
            (brand_targets tables "toyota")
            ("toyota", read_version)
            (0x750, some 0xf))
          fws
        ≡ true)
unfolding contains requests_of get_all_ecus union
get_fw_versions_complete_example =
    get_fw_versions_complete rx_addr tables get_data "toyota" read_version (0x750, some 0xf) 1 false
      refl (inl refl) refl refl refl answering

get_fw_versions_lem_example :
    (is_known tables none (("any", []) ∷ []) ≡ false)
      × (get_fw_versions rx_addr tables get_data none (("any", []) ∷ []) 1 true ≡ none)
    ⊎ (is_known tables none (("any", []) ∷ []) ≡ true)
      × IsSoundReturn rx_addr tables get_data none (("any", []) ∷ []) 1 true
get_fw_versions_lem_example =
    get_fw_versions_lem rx_addr tables get_data none (("any", []) ∷ []) 1 true

abbrev engine : Ecu
engine = ((0x7e8, none), 1)

-- The engine answers in both modes.
abbrev traffic : (obd_multiplexing : Bool) (query : List Ecu) → List CanMessage
traffic obd query =
    record { address = 0x7e8; dat = 2 ∷ 126 ∷ 0 ∷ 0 ∷ 0 ∷ 0 ∷ 0 ∷ 0 ∷ []; src = 1 } ∷ []

get_present_ecus_lem_example :
    (is_asked engine (plan rx_addr tables 1).obd_on
      ≡ some_request rx_addr tables 1 (asks rx_addr tables 1 true engine))
    × (is_asked engine (plan rx_addr tables 1).obd_off
        ≡ some_request rx_addr tables 1 (asks rx_addr tables 1 false engine))
    × (contains (plan rx_addr tables 1).responses engine
        ≡ some_request rx_addr tables 1 (expects rx_addr tables 1 engine))
    × (contains (get_present_ecus rx_addr tables 1 traffic) engine ≡ (
        has_answered rx_addr tables 1 traffic true engine
        || has_answered rx_addr tables 1 traffic false engine))
get_present_ecus_lem_example = get_present_ecus_lem rx_addr tables 1 traffic engine

get_brand_ecu_matches_lem_example :
    is_match rx_addr tables
      (get_brand_ecu_matches rx_addr tables (engine ∷ []))
      "toyota"
      (0x7e0, none)
    ≡ any
        (λ ecu.
          any
            (λ x. hits rx_addr tables "toyota" (0x7e0, none) ecu (x.0, x.1.rx_offset))
            (requests_of tables tables.brands))
        (engine ∷ [])
get_brand_ecu_matches_lem_example =
    get_brand_ecu_matches_lem rx_addr tables "toyota" (0x7e0, none) (engine ∷ [])
