-- ===== src/Fingerprint/Tests.antt =====
-- A database of two cars, and a bus that only one of them fits.
use openpilot9xxcivic.Prelude.{
  ℕ, ◌≤◌, ◌<◌, suc, ◌≡◌, refl, true, false, List, [], ◌∷◌, String, none, some, nat_comparable,
  insert, lookup, ◌==◌, string_comparable, if◌then◌else◌,
}
use openpilot9xxcivic.Common.Buses.{gen_empty_fingerprint}
use openpilot9xxcivic.Vin.{is_valid_vin}
use openpilot9xxcivic.Fingerprint.{
  CanData, Database, could_have_sent, eliminate_incompatible_cars, can_fingerprint,
}
use openpilot9xxcivic.Fingerprint.Outcome.{
  received, consistent_cars, seen, verdict, can_fingerprint_lem,
}
use openpilot9xxcivic.Fingerprint.Origin.{IsFrom, get_car_lem}
use openpilot9xxcivic.Fingerprint.Startup.{Session, fingerprint, get_car, fingerprint_valid_vin}

abbrev civic : String
civic = "HONDA_CIVIC_2022"

abbrev db : Database
db = record {
  all_legacy_fingerprint_cars = civic ∷ "HYUNDAI_SONATA" ∷ [];
  fingerprints_of = λ car. if car == civic then ((57, 3) ∷ []) ∷ [] else ((57, 4) ∷ []) ∷ [];
}

abbrev speed : CanData
speed = record { address = 57; dat = 1 ∷ 2 ∷ 3 ∷ []; src = 0 }

one_left : eliminate_incompatible_cars db speed db.all_legacy_fingerprint_cars ≡ civic ∷ []
unfolding eliminate_incompatible_cars could_have_sent lookup insert
one_left = refl

abbrev packets : ℕ → List CanData
packets n = speed ∷ []

can_fingerprint_lem_example :
    (k : ℕ) × (100 < k)
    × (k ≤ 201)
    × (can_fingerprint db packets
        ≡ some (
          verdict
              (consistent_cars db 0 (received packets (suc k)))
              (consistent_cars db 1 (received packets (suc k))),
          seen (received packets (suc k)) gen_empty_fingerprint,
        ))
can_fingerprint_lem_example = can_fingerprint_lem db packets

abbrev session : Session ℕ
session = record {
  fixed_fingerprint = "";
  skip_fw_query = false;
  disable_fw_cache = false;
  cached_params = none;
  same_vin_object = false;
  queried_vin = "1HGFE2F5XNA000001";
  queried_fw = λ vin. 7 ∷ [];
  match_fw_to_car = λ car_fw vin. (true, civic ∷ []);
  can_fingerprint = (none, []);
}

fingerprint_valid_vin_example : is_valid_vin (fingerprint session).vin ≡ true
fingerprint_valid_vin_example = fingerprint_valid_vin session

get_car_lem_example : IsFrom session (get_car session)
get_car_lem_example = get_car_lem session

civic_by_firmware : (get_car session).candidate ≡ civic
unfolding get_car
civic_by_firmware = refl
