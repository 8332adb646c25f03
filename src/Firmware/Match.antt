-- ===== src/Firmware/Match.antt =====
-- `match_fw_to_car` and `get_fw_versions_ordered` of selfdrive/car/fw_versions.py.
use openpilot9xxcivic.Prelude.{
  ◌≡◌, ◌⊎◌, inl, inr, Bool, true, false, not, ◌&&◌, ◌||◌, nat_comparable, string_comparable,
  list_comparable, if◌then◌else◌, List, [], ◌∷◌, Option, none, some, String, contains, union,
  contains-union, is_empty, arith, Bool-cases,
}
use openpilot9xxcivic.Firmware.{LiveFwVersions, OfflineFwVersions, Tables, CarFw, build_fw_dict}
use openpilot9xxcivic.Firmware.Exact.{match_fw_to_car_exact}
use openpilot9xxcivic.Firmware.Fuzzy.{match_fw_to_car_fuzzy}

-- `config.match_fw_to_car_fuzzy`, where the brand has it.
abbrev pub brand_fuzzy :
    Option (LiveFwVersions → String → OfflineFwVersions → List String)
    → LiveFwVersions
    → String
    → OfflineFwVersions
    → List String
brand_fuzzy none live vin versions = []
brand_fuzzy (some f) live vin versions = f live vin versions

module _ (t : Tables) (fw_versions : List CarFw) (vin : String) where
  -- The matches of one brand, with the brand's own fuzzy function only if there are none so far.
  unfoldable pub match_brand_exact : String → List String → List String
  match_brand_exact brand matches =
      union matches
        (match_fw_to_car_exact t (build_fw_dict fw_versions (some brand)) [] (some brand))

  unfoldable pub match_brand_fuzzy : String → List String → List String
  match_brand_fuzzy brand matches =
      let live = build_fw_dict fw_versions (some brand) in
      let more = union matches (match_fw_to_car_fuzzy t live (some brand) none) in
      if is_empty more
      then union more
          (brand_fuzzy (t.fw_query_configs brand).match_fw_to_car_fuzzy live vin (t.versions brand))
      else more

  -- `for brand in VERSIONS.keys()`
  unfoldable pub match_all :
      (String → List String → List String) → List String → List String → List String
  match_all match_one [] matches = matches
  match_all match_one (brand ∷ brands) matches =
      match_all match_one brands (match_one brand matches)

  abbrev pub exact_matches : List String
  exact_matches = match_all match_brand_exact t.brands []

  abbrev pub fuzzy_matches : List String
  fuzzy_matches = match_all match_brand_fuzzy t.brands []

  -- The two rounds, each made if it is allowed; the flag tells whether the match is exact.
  unfoldable pub match_fw_to_car : (allow_exact allow_fuzzy : Bool) → Bool × List String
  unfolding match_brand_exact match_brand_fuzzy match_all
  match_fw_to_car allow_exact allow_fuzzy =
      if allow_exact && not (is_empty exact_matches)
      then (true, exact_matches)
      else if allow_fuzzy && not (is_empty fuzzy_matches)
      then (false, fuzzy_matches)
      else (true, [])

  match_all_exact :
      (brands : List String) (matches : List String) (car : String)
      → contains (match_all match_brand_exact brands matches) car ≡ true
      → (contains matches car ≡ true)
        ⊎ ((brand : String) × (contains brands brand ≡ true)
            × (contains
                  (match_fw_to_car_exact t (build_fw_dict fw_versions (some brand)) [] (some brand))
                  car
                ≡ true))
  unfolding match_all
  match_all_exact [] matches car h = inl h
  match_all_exact (brand ∷ brands) matches car h =
      from_union (match_all_exact brands (match_brand_exact brand matches) car h)
    where
      from_union :
          (contains (match_brand_exact brand matches) car ≡ true)
            ⊎ ((b : String) × (contains brands b ≡ true)
                × (contains
                      (match_fw_to_car_exact t (build_fw_dict fw_versions (some b)) [] (some b))
                      car
                    ≡ true))
          → (contains matches car ≡ true)
            ⊎ ((b : String) × (contains (brand ∷ brands) b ≡ true)
                × (contains
                      (match_fw_to_car_exact t (build_fw_dict fw_versions (some b)) [] (some b))
                      car
                    ≡ true))
      from_union (inr (b, m, e)) = inr (b, unfold contains in ground (arith, m), e)
      from_union (inl m) =
          added
            (contains-union matches
              (match_fw_to_car_exact t (build_fw_dict fw_versions (some brand)) [] (some brand))
              car)
            (unfold match_brand_exact in m)
        where
          added :
              {u : Bool}
              → u ≡ (
                  contains matches car
                  || contains
                      (match_fw_to_car_exact t
                        (build_fw_dict fw_versions (some brand))
                        []
                        (some brand))
                      car)
              → u ≡ true
              → (contains matches car ≡ true)
                ⊎ ((b : String) × (contains (brand ∷ brands) b ≡ true)
                    × (contains
                          (match_fw_to_car_exact t (build_fw_dict fw_versions (some b)) [] (some b))
                          car
                        ≡ true))
          added e h = elim (Bool-cases (contains matches car)) [
            | inl old ↦ inl old
            | inr new ↦ inr (
              brand,
              unfold contains in ground (arith, string_comparable.same_iff brand brand),
              ground arith,
            )
          ]

  -- An exact match is tried first: its cars come from the exact match of some brand, and a fuzzy match
  -- is reported only where the exact one is off or finds nothing.
  pub match_fw_to_car_lem :
      (allow_exact allow_fuzzy : Bool) (car : String)
      → contains (match_fw_to_car allow_exact allow_fuzzy).1 car ≡ true
      → (((match_fw_to_car allow_exact allow_fuzzy).0 ≡ true)
          × ((brand : String) × (contains t.brands brand ≡ true)
              × (contains
                    (match_fw_to_car_exact t
                      (build_fw_dict fw_versions (some brand))
                      []
                      (some brand))
                    car
                  ≡ true)))
        ⊎ (((match_fw_to_car allow_exact allow_fuzzy).0 ≡ false)
            × (allow_fuzzy ≡ true)
            × ((allow_exact && not (is_empty exact_matches)) ≡ false))
  unfolding match_fw_to_car contains
  match_fw_to_car_lem allow_exact allow_fuzzy car h =
      elim (Bool-cases (allow_exact && not (is_empty exact_matches))) [
        | inl exact ↦
            inl (ground arith, from_start (match_all_exact t.brands [] car (rw exact at h)))
        | inr none' ↦ elim (Bool-cases (allow_fuzzy && not (is_empty fuzzy_matches))) [
          | inl fuzzy ↦ inr (ground arith, ground arith, none')
          | inr never ↦ absurd (ground arith)
        ]
      ]
    where
      from_start :
          (false ≡ true)
            ⊎ ((brand : String) × (contains t.brands brand ≡ true)
                × (contains
                      (match_fw_to_car_exact t
                        (build_fw_dict fw_versions (some brand))
                        []
                        (some brand))
                      car
                    ≡ true))
          → (brand : String) × (contains t.brands brand ≡ true)
            × (contains
                  (match_fw_to_car_exact t (build_fw_dict fw_versions (some brand)) [] (some brand))
                  car
                ≡ true)
      from_start (inl h) = cc
      from_start (inr r) = r
