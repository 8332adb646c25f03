-- ===== src/Firmware.antt =====
-- Firmware fingerprinting: the data of selfdrive/car/fw_versions.py and
-- selfdrive/car/fw_query_definitions.py. The database of versions is a parameter; ECU kinds, brands
-- and cars are texts, and a version is a list of bytes.
pub mod Brands
pub mod Exact
pub mod Fuzzy
pub mod Match
pub mod Present
pub mod Query
pub mod Versions
mod Tests
use openpilot9xxcivic.Prelude.{
  ℕ, ℤ, ◌+◌, Bool, true, false, not, ◌&&◌, ◌||◌, ◌==◌, nat_comparable, string_comparable,
  option_comparable, list_comparable, pair_comparable, if◌then◌else◌, List, [], ◌∷◌, ◌++◌, Option,
  none, some, String, Dict, lookup_or, insert, add, union, keys,
}

abbrev pub Version : Type 0
Version = List ℕ

-- `AddrType`: an address and a sub-address.
abbrev pub Addr : Type 0
Addr = ℕ × Option ℕ

-- `EcuAddrSubAddr`: the kind of an ECU before its address.
abbrev pub EcuAddr : Type 0
EcuAddr = String × Addr

abbrev pub LiveFwVersions : Type 0
LiveFwVersions = Dict Addr (List Version)

-- The versions of one car.
abbrev pub CarVersions : Type 0
CarVersions = Dict EcuAddr (List Version)

abbrev pub OfflineFwVersions : Type 0
OfflineFwVersions = Dict String CarVersions

-- `Request`, with the bytes sent and expected left to the ISO-TP layer.
pub record Request : Type 0 where
  pub request : List (List ℕ)
  pub response : List (List ℕ)
  pub whitelist_ecus : List String
  pub rx_offset : ℤ
  pub bus : ℕ
  pub auxiliary : Bool
  pub logging : Bool
  pub obd_multiplexing : Bool

pub record FwQueryConfig : Type 0 where
  pub requests : List Request
  pub non_essential_ecus : Dict String (List String)
  pub extra_ecus : List EcuAddr
  pub match_fw_to_car_fuzzy : Option (LiveFwVersions → String → OfflineFwVersions → List String)

-- The module's tables: VERSIONS, by brand, FW_VERSIONS over all brands, MODEL_TO_BRAND and
-- FW_QUERY_CONFIGS. They are complete: every car has a brand, and every brand a configuration.
pub record Tables : Type 0 where
  pub brands : List String
  pub versions : String → OfflineFwVersions
  pub fw_versions : OfflineFwVersions
  pub model_to_brand : String → String
  pub fw_query_configs : String → FwQueryConfig

-- `CarParams.CarFw`
pub record CarFw : Type 0 where
  pub ecu : String
  pub fw_version : Version
  pub address : ℕ
  pub sub_address : ℕ
  pub response_address : ℕ
  pub request : List (List ℕ)
  pub brand : String
  pub bus : ℕ
  pub logging : Bool
  pub obd_multiplexing : Bool

-- `auxiliary` requests run on the first auxiliary panda too (`FwQueryConfig.__post_init__`).
abbrev pub auxiliary_copies : List Request → List Request
auxiliary_copies [] = []
auxiliary_copies (r ∷ rs) =
    if r.auxiliary then record r { bus = r.bus + 4 } ∷ auxiliary_copies rs else auxiliary_copies rs

unfoldable pub post_init : FwQueryConfig → FwQueryConfig
post_init config = record config { requests = config.requests ++ auxiliary_copies config.requests }

unfoldable pub is_brand : String → Option String → Bool
is_brand brand none = true
is_brand brand (some filter_brand) = brand == filter_brand

-- A sub-address 0 stands for none.
abbrev pub addr_of : CarFw → Addr
addr_of fw = (fw.address, if fw.sub_address == 0 then none else some fw.sub_address)

unfoldable pub add_fw : CarFw → LiveFwVersions → LiveFwVersions
add_fw fw d = insert (addr_of fw) (add (lookup_or [] (addr_of fw) d) fw.fw_version) d

unfoldable pub build_from : LiveFwVersions → List CarFw → Option String → LiveFwVersions
unfolding add_fw is_brand
build_from d [] filter_brand = d
build_from d (fw ∷ fws) filter_brand =
    build_from (if is_brand fw.brand filter_brand && not fw.logging then add_fw fw d else d) fws
      filter_brand

unfoldable pub build_fw_dict : List CarFw → Option String → LiveFwVersions
unfolding build_from
build_fw_dict fw_versions filter_brand = build_from [] fw_versions filter_brand

-- `config.get_all_ecus(offline_fw_versions)`, a set, in the order of insertion.
unfoldable pub all_keys : OfflineFwVersions → List EcuAddr
all_keys [] = []
all_keys ((car, fws) ∷ rest) = keys fws ++ all_keys rest

unfoldable pub get_all_ecus : FwQueryConfig → OfflineFwVersions → List EcuAddr
unfolding all_keys
get_all_ecus config offline_fw_versions =
    union (union [] (all_keys offline_fw_versions)) config.extra_ecus
