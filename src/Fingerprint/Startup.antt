-- ===== src/Fingerprint/Startup.antt =====
-- `get_startup_event`, `fingerprint` and `get_car` of selfdrive/car/car_helpers.py.
use openpilot9xxcivic.Prelude.{
  ◌≡◌, refl, Bool, true, false, not, ◌&&◌, if◌then◌else◌, List, [], ◌∷◌, ◌++◌, String, Option, none,
  some, is_empty, Bool-cases, inl, inr, ◌==◌, string_comparable,
}
use openpilot9xxcivic.Common.Buses.{Finger}
use openpilot9xxcivic.Vin.{vin_unknown, is_valid_vin}

pub data StartupEvent : Type 0 where
  startup startup_master startup_no_car startup_no_fw startup_no_control : StartupEvent

-- The two flags of the build's metadata come first.
unfoldable pub get_startup_event :
    (comma_remote tested_channel car_recognized controller_available fw_seen : Bool) → StartupEvent
get_startup_event comma_remote tested_channel car_recognized controller_available fw_seen =
    let event = if comma_remote && tested_channel then startup else startup_master in
    if not car_recognized
    then (if fw_seen then startup_no_car else startup_no_fw)
    else if car_recognized && not controller_available
    then startup_no_control
    else event

-- `FingerprintSource`
pub data Source : Type 0 where
  can fw fixed : Source

-- `CarParamsCache`
pub record CachedParams (CarFw : Type 0) : Type 0 where
  pub car_name : String
  pub car_fw : List CarFw
  pub car_vin : String

-- What `fingerprint` reads: the environment, the cache, and the results of the queries in the order in
-- which it makes them. `same_vin_object` is the identity test `cached_params.carVin is VIN_UNKNOWN`.
pub record Session (CarFw : Type 0) : Type 0 where
  pub fixed_fingerprint : String
  pub skip_fw_query : Bool
  pub disable_fw_cache : Bool
  pub cached_params : Option (CachedParams CarFw)
  pub same_vin_object : Bool
  pub queried_vin : String
  pub queried_fw : String → List CarFw
  pub match_fw_to_car : List CarFw → String → Bool × List String
  pub can_fingerprint : Option String × Finger

-- The writes to the parameters and to the mode of the OBD port, in order.
pub data Effect : Type 0 where
  set_obd_multiplexing : Bool → Effect
  put_vin : String → Effect
  firmware_query_done : Effect

pub record Fingerprinted (CarFw : Type 0) : Type 0 where
  pub car_fingerprint : Option String
  pub finger : Finger
  pub vin : String
  pub car_fw : List CarFw
  pub source : Source
  pub exact_match : Bool
  pub effects : List Effect

-- What the first part leaves.
pub record FwQuery (CarFw : Type 0) : Type 0 where
  pub vin : String
  pub car_fw : List CarFw
  pub exact_fw_match : Bool
  pub fw_candidates : List String
  pub effects : List Effect

-- A cache of the mock car counts as none.
unfoldable pub live_cache :
    {CarFw : Type 0} → Option (CachedParams CarFw) → Option (CachedParams CarFw)
live_cache none = none
live_cache (some c) = if c.car_name == "mock" then none else some c

module _ {CarFw : Type 0} (s : Session CarFw) where
  unfoldable pub match_candidates : String → List CarFw → List Effect → FwQuery CarFw
  match_candidates vin car_fw effects = record {
    vin = vin;
    car_fw = car_fw;
    exact_fw_match = (s.match_fw_to_car car_fw vin).0;
    fw_candidates = (s.match_fw_to_car car_fw vin).1;
    effects = effects;
  }

  abbrev pub ask_car : FwQuery CarFw
  ask_car =
      match_candidates s.queried_vin (s.queried_fw s.queried_vin) (set_obd_multiplexing true ∷ [])

  unfoldable pub query_fw : Option (CachedParams CarFw) → FwQuery CarFw
  unfolding match_candidates
  query_fw none = ask_car
  query_fw (some c) =
      if not (is_empty c.car_fw) && not s.same_vin_object && not s.disable_fw_cache
      then match_candidates c.car_vin c.car_fw []
      else ask_car

  unfoldable pub first_part : FwQuery CarFw
  unfolding query_fw live_cache
  first_part =
      if s.skip_fw_query
      then record {
        vin = vin_unknown;
        car_fw = [];
        exact_fw_match = true;
        fw_candidates = [];
        effects = [];
      }
      else query_fw (live_cache s.cached_params)

-- The car, where it comes from, and whether the match is exact.
abbrev pub select_fw : List String → Bool → Option String → Option String × Source × Bool
select_fw (car ∷ []) exact_fw_match car_fingerprint = (some car, fw, exact_fw_match)
select_fw _ exact_fw_match car_fingerprint = (car_fingerprint, can, true)

abbrev pub select_fixed : String → Option String × Source × Bool → Option String × Source × Bool
select_fixed fixed_fingerprint (car, source, exact) =
    if fixed_fingerprint == "" then (car, source, exact) else (some fixed_fingerprint, fixed, exact)

module _ {CarFw : Type 0} (s : Session CarFw) where
  unfoldable pub fingerprint : Fingerprinted CarFw
  unfolding first_part
  fingerprint =
      let q = first_part s in
      let vin = if is_valid_vin q.vin then q.vin else vin_unknown in
      let (car, source, exact) =
        select_fixed s.fixed_fingerprint
          (select_fw q.fw_candidates q.exact_fw_match s.can_fingerprint.0) in
      record {
        car_fingerprint = car;
        finger = s.can_fingerprint.1;
        vin = vin;
        car_fw = q.car_fw;
        source = source;
        exact_match = exact;
        effects = q.effects ++ put_vin vin ∷ set_obd_multiplexing false ∷ firmware_query_done ∷ [];
      }

-- The fields of `CP` that `get_car` sets, and the candidate that it builds the interface for.
pub record NewCar (CarFw : Type 0) : Type 0 where
  pub candidate : String
  pub car_vin : String
  pub car_fw : List CarFw
  pub fingerprint_source : Source
  pub fuzzy_fingerprint : Bool

abbrev pub or_mock : Option String → String
or_mock none = "MOCK"
or_mock (some car) = car

unfoldable pub get_car : {CarFw : Type 0} → Session CarFw → NewCar CarFw
unfolding fingerprint
get_car s =
    let f = fingerprint s in
    record {
      candidate = or_mock f.car_fingerprint;
      car_vin = f.vin;
      car_fw = f.car_fw;
      fingerprint_source = f.source;
      fuzzy_fingerprint = not f.exact_match;
    }

unknown_is_valid : is_valid_vin vin_unknown ≡ true
unfolding is_valid_vin
unknown_is_valid = refl

-- The VIN that `fingerprint` returns is well formed, whatever the car or the cache sent.
pub fingerprint_valid_vin :
    {CarFw : Type 0} (s : Session CarFw) → is_valid_vin (fingerprint s).vin ≡ true
unfolding fingerprint
fingerprint_valid_vin s = elim (Bool-cases (is_valid_vin (first_part s).vin)) [
  | inl good ↦ rw good good
  | inr bad ↦ rw bad unknown_is_valid
]

-- The mode of the OBD port that the effects leave.
abbrev pub obd_after : Bool → List Effect → Bool
obd_after b [] = b
obd_after b (set_obd_multiplexing c ∷ es) = obd_after c es
obd_after b (put_vin v ∷ es) = obd_after b es
obd_after b (firmware_query_done ∷ es) = obd_after b es

obd_after-append :
    (b : Bool) (xs ys : List Effect) → obd_after b (xs ++ ys) ≡ obd_after (obd_after b xs) ys
obd_after-append b [] ys = refl
obd_after-append b (set_obd_multiplexing c ∷ es) ys = obd_after-append c es ys
obd_after-append b (put_vin v ∷ es) ys = obd_after-append b es ys
obd_after-append b (firmware_query_done ∷ es) ys = obd_after-append b es ys

-- OBD multiplexing is off when `fingerprint` returns.
pub fingerprint_obd_off :
    {CarFw : Type 0} (s : Session CarFw) (b : Bool) → obd_after b (fingerprint s).effects ≡ false
unfolding fingerprint
fingerprint_obd_off s b = rw obd_after-append refl
