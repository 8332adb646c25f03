-- ===== src/Firmware/Tests.antt =====
-- A database of three cars of two brands, and the answers of one of them.
use mathlib.Core.List.{Perm}
use openpilot9xxcivic.Prelude.{
  ℕ, ◌≡◌, refl, true, false, not, ◌&&◌, ◌⊎◌, List, [], ◌∷◌, ◌++◌, String, none, some, contains,
  string_comparable, nat_comparable, option_comparable, list_comparable, pair_comparable, lookup_or,
  ◌↔◌, lookup, insert, select, add, is_empty, ◌==◌, if◌then◌else◌, union, push,
}
use openpilot9xxcivic.Firmware.{
  Addr, FwQueryConfig, Tables, CarFw, is_brand, OfflineFwVersions, LiveFwVersions, build_fw_dict,
}
use openpilot9xxcivic.Firmware.Exact.{match_fw_to_car_exact, IsMatch, match_fw_to_car_exact_lem}
use openpilot9xxcivic.Firmware.Fuzzy.{
  match_fw_to_car_fuzzy, all_fw_versions, owners, unanimous, hits, all_fw_versions_lem,
  match_fw_to_car_fuzzy_lem,
}
use openpilot9xxcivic.Firmware.Match.{match_fw_to_car, match_fw_to_car_lem, exact_matches}
use openpilot9xxcivic.Firmware.Query.{
  get_fw_versions_ordered, IsFalling, answers, up_to_match, has_match, get_fw_versions_ordered_lem,
}

abbrev honda : OfflineFwVersions
honda =
    ("CIVIC", (("engine", (1, none)), (10 ∷ []) ∷ []) ∷ (("abs", (2, none)), (20 ∷ []) ∷ []) ∷ [])
    ∷ ("ACCORD", (("engine", (1, none)), (11 ∷ []) ∷ []) ∷ [])
    ∷ []

abbrev mazda : OfflineFwVersions
mazda = ("CX5", (("engine", (1, none)), (12 ∷ []) ∷ []) ∷ []) ∷ []

abbrev config : FwQueryConfig
config = record {
  requests = [];
  non_essential_ecus = [];
  extra_ecus = [];
  match_fw_to_car_fuzzy = none;
}

abbrev tables : Tables
tables = record {
  brands = "honda" ∷ "mazda" ∷ [];
  versions = λ brand. if brand == "honda" then honda else mazda;
  fw_versions = honda ++ mazda;
  model_to_brand = λ car. if car == "CX5" then "mazda" else "honda";
  fw_query_configs = λ brand. config;
}

abbrev answer : ℕ → ℕ → CarFw
answer address version = record {
  ecu = "engine";
  fw_version = version ∷ [];
  address = address;
  sub_address = 0;
  response_address = address;
  request = [];
  brand = "honda";
  bus = 1;
  logging = false;
  obd_multiplexing = true;
}

abbrev civic_answers : List CarFw
civic_answers = answer 1 10 ∷ answer 2 20 ∷ []

abbrev live : LiveFwVersions
live = ((1, none), (10 ∷ []) ∷ []) ∷ ((2, none), (20 ∷ []) ∷ []) ∷ []

live_lem : build_fw_dict civic_answers (some "honda") ≡ live
unfolding build_fw_dict lookup_or lookup insert add contains
live_lem = refl

exact_civic : match_fw_to_car_exact tables live [] (some "honda") ≡ "CIVIC" ∷ []
unfolding match_fw_to_car_exact lookup_or lookup contains is_brand
exact_civic = refl

match_fw_to_car_exact_lem_example :
    (contains (match_fw_to_car_exact tables live [] (some "honda")) "CIVIC" ≡ true)
    ↔ IsMatch tables live [] tables.fw_versions (some "honda") "CIVIC"
match_fw_to_car_exact_lem_example = match_fw_to_car_exact_lem tables live [] (some "honda") "CIVIC"

fuzzy_civic : match_fw_to_car_fuzzy tables live (some "honda") none ≡ "CIVIC" ∷ []
unfolding match_fw_to_car_fuzzy lookup_or lookup contains insert add push is_brand
fuzzy_civic = refl

match_fw_to_car_fuzzy_lem_example :
    match_fw_to_car_fuzzy tables live (some "honda") none
    ≡ unanimous (hits (all_fw_versions tables (some "honda") none) live)
match_fw_to_car_fuzzy_lem_example = match_fw_to_car_fuzzy_lem tables live (some "honda") none

abbrev key : Addr × List ℕ
key = ((1, none), 10 ∷ [])

all_fw_versions_lem_example :
    lookup_or [] key (all_fw_versions tables (some "honda") none)
    ≡ owners tables (some "honda") none key tables.fw_versions
all_fw_versions_lem_example = all_fw_versions_lem tables (some "honda") none key

match_fw_to_car_lem_example :
    (((match_fw_to_car tables civic_answers "" true true).0 ≡ true)
      × ((brand : String) × (contains tables.brands brand ≡ true)
          × (contains
                (match_fw_to_car_exact tables
                  (build_fw_dict civic_answers (some brand))
                  []
                  (some brand))
                "CIVIC"
              ≡ true)))
    ⊎ (((match_fw_to_car tables civic_answers "" true true).0 ≡ false)
        × (true ≡ true)
        × ((true && not (is_empty (exact_matches tables civic_answers ""))) ≡ false))
unfolding match_fw_to_car match_fw_to_car_exact build_fw_dict lookup_or lookup contains insert add
    union
match_fw_to_car_lem_example = match_fw_to_car_lem tables civic_answers "" true true "CIVIC" refl

abbrev counts : String → ℕ
counts brand = if brand == "honda" then 2 else 1

abbrev query : String → List CarFw
query brand = if brand == "honda" then civic_answers else []

abbrev one_car : List CarFw → List String
one_car fw = "CIVIC" ∷ []

get_fw_versions_ordered_lem_example :
    (order : List String) × Perm order tables.brands
    × IsFalling counts order
    × (get_fw_versions_ordered counts query one_car tables.brands
        ≡ answers counts query one_car
            (up_to_match counts query one_car (select (has_match counts query one_car) order)))
get_fw_versions_ordered_lem_example = get_fw_versions_ordered_lem counts query one_car tables.brands
