-- ===== src/Firmware/Exact.antt =====
-- `match_fw_to_car_exact` of selfdrive/car/fw_versions.py.
use openpilot9xxcivic.Prelude.{
  ◌≡◌, ◌⊎◌, inl, inr, refl, Bool, true, false, not, ◌&&◌, ◌||◌, ◌==◌, nat_comparable,
  string_comparable, option_comparable, list_comparable, pair_comparable, if◌then◌else◌, List, [],
  ◌∷◌, ◌++◌, Option, String, lookup_or, contains, is_empty, any, arith, ◌↔◌, Bool-cases,
  list_beq_iff,
}
use openpilot9xxcivic.Firmware.{
  Version, Addr, EcuAddr, LiveFwVersions, CarVersions, OfflineFwVersions, Tables, is_brand,
}

abbrev pub essential_ecus : List String
essential_ecus = "engine" ∷ "eps" ∷ "abs" ∷ "fwdRadar" ∷ "fwdCamera" ∷ "vsa" ∷ []

module _ (t : Tables) (live : LiveFwVersions) (extra : OfflineFwVersions) where
  -- `candidate in config.non_essential_ecus.get(ecu_type, [])`
  unfoldable pub is_exempt : String → String → Bool
  is_exempt candidate ecu_type =
      contains
        (lookup_or [] ecu_type (t.fw_query_configs (t.model_to_brand candidate)).non_essential_ecus)
        candidate

  abbrev pub expected_versions : String → EcuAddr → List Version → List Version
  expected_versions candidate ecu versions =
      versions ++ lookup_or [] ecu (lookup_or [] candidate extra)

  abbrev pub found_versions : EcuAddr → List Version
  found_versions (ecu_type, addr) = lookup_or [] addr live

  -- One round of the inner loop: whether it makes the candidate invalid.
  unfoldable pub is_mismatch : String → EcuAddr → List Version → Bool
  unfolding is_exempt
  is_mismatch candidate (ecu_type, addr) versions =
      let found = found_versions (ecu_type, addr) in
      let expected = expected_versions candidate (ecu_type, addr) versions in
      if is_empty found && (is_exempt candidate ecu_type || not (contains essential_ecus ecu_type))
      then false
      else if ecu_type == "debug"
      then false
      else not (any (contains expected) found)

  unfoldable pub is_invalid : String → CarVersions → Bool
  unfolding is_mismatch
  is_invalid candidate [] = false
  is_invalid candidate ((ecu, versions) ∷ rest) =
      is_mismatch candidate ecu versions || is_invalid candidate rest

  unfoldable pub valid_cars : OfflineFwVersions → Option String → List String
  unfolding is_invalid
  valid_cars [] match_brand = []
  valid_cars ((candidate, fws) ∷ rest) match_brand =
      let more = valid_cars rest match_brand in
      if is_brand (t.model_to_brand candidate) match_brand && not (is_invalid candidate fws)
      then candidate ∷ more
      else more

  unfoldable pub match_fw_to_car_exact : Option String → List String
  unfolding valid_cars
  match_fw_to_car_exact match_brand = valid_cars t.fw_versions match_brand

  -- What an ECU of the database asks of the versions found at its address. One that answered, and
  -- one that is essential for the car, has a version that is expected of the car; the debug ECU is
  -- free.
  abbrev pub Agrees : String → EcuAddr → List Version → Type 0
  Agrees candidate (ecu_type, addr) versions =
      (ecu_type == "debug") ≡ false
      → (is_empty (found_versions (ecu_type, addr)) ≡ false)
        ⊎ ((contains essential_ecus ecu_type ≡ true) × (is_exempt candidate ecu_type ≡ false))
      → (version : Version) × (contains (found_versions (ecu_type, addr)) version ≡ true)
        × (contains (expected_versions candidate (ecu_type, addr) versions) version ≡ true)

  abbrev pub AllAgree : String → CarVersions → Type 0
  AllAgree candidate [] = Unit
  AllAgree candidate ((ecu, versions) ∷ rest) =
      Agrees candidate ecu versions × AllAgree candidate rest

any-contains :
    (expected found : List Version)
    → any (contains expected) found ≡ true
    → (version : Version) × (contains found version ≡ true) × (contains expected version ≡ true)
unfolding contains
any-contains expected [] h = cc
any-contains expected (v ∷ vs) h = elim (Bool-cases (contains expected v)) [
  | inl here ↦ (v, ground (arith, list_beq_iff v v), here)
  | inr there ↦ let r = any-contains expected vs (ground arith) in (r.0, ground (arith, r.1), r.2)
]

contains-any :
    (expected found : List Version) (version : Version)
    → contains found version ≡ true
    → contains expected version ≡ true
    → any (contains expected) found ≡ true
unfolding contains
contains-any expected [] v h e = cc
contains-any expected (w ∷ ws) v h e = ground (arith, list_beq_iff w v, contains-any expected ws v)

asked_cases :
    (a b c : Bool) → (a && (b || not c)) ≡ false → (a ≡ false) ⊎ ((c ≡ true) × (b ≡ false))
asked_cases false b c h = inl refl
asked_cases true true c h = cc
asked_cases true false true h = inr (refl, refl)
asked_cases true false false h = cc

both_false : (a b : Bool) → a ≡ false → b ≡ false → (a || b) ≡ false
both_false a b p q = ground arith

module _ (t : Tables) (live : LiveFwVersions) (extra : OfflineFwVersions) where
  abbrev skips : String → String → Addr → Bool
  skips candidate ecu_type addr =
      is_empty (lookup_or [] addr live)
      && (is_exempt t live extra candidate ecu_type || not (contains essential_ecus ecu_type))

  is_mismatch_lem :
      (candidate : String) (ecu : EcuAddr) (versions : List Version)
      → (is_mismatch t live extra candidate ecu versions ≡ false)
        ↔ Agrees t live extra candidate ecu versions
  unfolding is_mismatch
  is_mismatch_lem candidate (ecu_type, addr) versions = (
    λ h known asked.
        any-contains (expected_versions t live extra candidate (ecu_type, addr) versions)
          (lookup_or [] addr live) (ground arith),
    λ agrees. elim (Bool-cases (ecu_type == "debug")) [
      | inl free ↦ ground arith
      | inr known ↦ elim (Bool-cases (skips candidate ecu_type addr)) [
        | inl skip ↦ ground arith
        | inr asked ↦
            let r = agrees known (
              asked_cases (is_empty (lookup_or [] addr live))
                (is_exempt t live extra candidate ecu_type) (contains essential_ecus ecu_type)
                asked) in
            ground (
              arith,
              contains-any (expected_versions t live extra candidate (ecu_type, addr) versions)
                  (lookup_or [] addr live) r.0 r.1 r.2,
            )
      ]
    ],
  )

  is_invalid_lem :
      (candidate : String) (fws : CarVersions)
      → (is_invalid t live extra candidate fws ≡ false) ↔ AllAgree t live extra candidate fws
  unfolding is_invalid
  is_invalid_lem candidate [] = (λ _. tt, λ _. refl)
  is_invalid_lem candidate ((ecu, versions) ∷ rest) =
      let m = is_mismatch_lem candidate ecu versions in
      let r = is_invalid_lem candidate rest in
      (λ h. (m.0 (ground arith), r.0 (ground arith)), λ h. both_false _ _ (m.1 h.0) (r.1 h.1))

  -- A car stands in the database with some versions that are all met, and the filter lets it pass.
  abbrev pub IsMatch : OfflineFwVersions → Option String → String → Type 0
  IsMatch [] match_brand car = ⊥
  IsMatch ((candidate, fws) ∷ rest) match_brand car =
      ((candidate ≡ car)
        × (is_brand (t.model_to_brand car) match_brand ≡ true)
        × AllAgree t live extra candidate fws)
      ⊎ IsMatch rest match_brand car

  abbrev passes : String → CarVersions → Option String → Bool
  passes candidate fws match_brand =
      is_brand (t.model_to_brand candidate) match_brand
      && not (is_invalid t live extra candidate fws)

  valid_cars_lem :
      (db : OfflineFwVersions) (match_brand : Option String) (car : String)
      → (contains (valid_cars t live extra db match_brand) car ≡ true) ↔ IsMatch db match_brand car
  unfolding valid_cars contains
  valid_cars_lem [] match_brand car = (λ h. cc, λ h. elim h [ ])
  valid_cars_lem ((candidate, fws) ∷ rest) match_brand car =
      let ih = valid_cars_lem rest match_brand car in
      let agree = is_invalid_lem candidate fws in
      let same = string_comparable.same_iff candidate car in
      (
        λ h. elim (Bool-cases (passes candidate fws match_brand)) [
          | inr out ↦ inr (ih.0 (ground arith))
          | inl ok ↦ elim (Bool-cases (candidate == car)) [
            | inl this ↦ inl (same.0 this, ground (arith, same.0 this), agree.0 (ground arith))
            | inr that ↦ inr (ih.0 (ground arith))
          ]
        ],
        λ m. elim m [
          | inl (e, b, a) ↦ ground (arith, agree.1 a, same.1 e)
          | inr r ↦ ground (arith, ih.1 r)
        ],
      )

  -- The exact match returns exactly the cars of the brand of which every ECU but the debug one, if it
  -- answered or is essential for the car, has sent an expected version.
  pub match_fw_to_car_exact_lem :
      (match_brand : Option String) (car : String)
      → (contains (match_fw_to_car_exact t live extra match_brand) car ≡ true)
        ↔ IsMatch t.fw_versions match_brand car
  unfolding match_fw_to_car_exact
  match_fw_to_car_exact_lem match_brand car = valid_cars_lem t.fw_versions match_brand car
