-- ===== src/Fingerprint/Origin.antt =====
-- Where the answer of `get_car` of selfdrive/car/car_helpers.py comes from.
use openpilot9xxcivic.Prelude.{
  ◌≡◌, refl, sym, ap, ◌∙◌, ◌⊎◌, Option-cases, Bool, true, false, not, ◌&&◌, if◌then◌else◌, List, [],
  ◌∷◌, String, Option, none, some, is_empty, Bool-cases, inl, inr, ◌≢◌, ◌==◌, string_comparable,
}
use openpilot9xxcivic.Vin.{vin_unknown, is_valid_vin}
use openpilot9xxcivic.Fingerprint.Startup.{
  can, fw, fixed, CachedParams, Session, FwQuery, NewCar, live_cache, match_candidates, query_fw,
  first_part, select_fw, select_fixed, fingerprint, or_mock, get_car,
}

single_cases :
    (cars : List String) → ((car : String) × (cars ≡ car ∷ [])) ⊎ ((car : String) → cars ≢ car ∷ [])
single_cases [] = inr (λ car e. cc)
single_cases (car ∷ []) = inl (car, refl)
single_cases (car ∷ other ∷ cars) = inr (λ c e. cc)

select_fw_other :
    (cars : List String) (exact : Bool) (car : Option String)
    → ((c : String) → cars ≢ c ∷ [])
    → select_fw cars exact car ≡ (car, can, true)
select_fw_other [] exact car h = refl
select_fw_other (c ∷ []) exact car h = absurd (h c refl)
select_fw_other (c ∷ d ∷ cs) exact car h = refl

not-not : (b : Bool) → not (not b) ≡ b
not-not true = refl
not-not false = refl

module _ {CarFw : Type 0} (s : Session CarFw) where
  -- A cache can be used if it is not the mock car's, has firmware and a VIN that is not the object VIN_UNKNOWN,
  -- and its use is not turned off.
  abbrev pub is_usable : Option (CachedParams CarFw) → Bool
  is_usable none = false
  is_usable (some c) =
      not (c.car_name == "mock")
      && not (is_empty c.car_fw)
      && not s.same_vin_object
      && not s.disable_fw_cache

  -- The VIN and the firmware are those of a cache that can be used.
  abbrev pub IsCached : (vin : String) (car_fw : List CarFw) → Type 0
  IsCached vin car_fw =
      (c : CachedParams CarFw) × (s.cached_params ≡ some c)
      × (is_usable s.cached_params ≡ true)
      × (vin ≡ c.car_vin)
      × (car_fw ≡ c.car_fw)

  -- There is no such cache, and the VIN and the firmware are what the car was asked for.
  abbrev pub IsQueried : (vin : String) (car_fw : List CarFw) → Type 0
  IsQueried vin car_fw =
      (is_usable s.cached_params ≡ false)
      × (vin ≡ s.queried_vin)
      × (car_fw ≡ s.queried_fw s.queried_vin)

  -- What is matched: nothing, if there is no query, else the cached or the queried firmware.
  abbrev pub IsMatched : FwQuery CarFw → Type 0
  IsMatched q =
      (s.skip_fw_query ≡ true)
        × (q.car_fw ≡ [])
        × (q.fw_candidates ≡ [])
        × (q.exact_fw_match ≡ true)
      ⊎ (s.skip_fw_query ≡ false)
        × (IsCached q.vin q.car_fw ⊎ IsQueried q.vin q.car_fw)
        × ((q.exact_fw_match, q.fw_candidates) ≡ s.match_fw_to_car q.car_fw q.vin)

  query_fw-IsMatched : s.skip_fw_query ≡ false → IsMatched (query_fw s (live_cache s.cached_params))
  unfolding query_fw match_candidates live_cache
  query_fw-IsMatched p = elim (Option-cases s.cached_params) [
    | inl nothing ↦ rw nothing (inr (p, inr (refl, refl, refl), refl))
    | inr (c, cached) ↦ elim (Bool-cases (c.car_name == "mock")) [
      | inl mock ↦ rw (cached, mock) (inr (p, inr (refl, refl, refl), refl))
      | inr live ↦
          elim (Bool-cases
            (not (is_empty c.car_fw) && not s.same_vin_object && not s.disable_fw_cache)) [
              | inl good ↦ rw (cached, live, good) (inr (p, inl (c, refl, refl, refl, refl), refl))
              | inr bad ↦ rw (cached, live, bad) (inr (p, inr (refl, refl, refl), refl))
            ]
    ]
  ]

  first_part-IsMatched : IsMatched (first_part s)
  unfolding first_part
  first_part-IsMatched = matched s.skip_fw_query refl
    where
      matched :
          (skip : Bool)
          → s.skip_fw_query ≡ skip
          → IsMatched (
              if skip
              then record {
                vin = vin_unknown;
                car_fw = [];
                exact_fw_match = true;
                fw_candidates = [];
                effects = [];
              }
              else query_fw s (live_cache s.cached_params))
      matched true p = inl (p, refl, refl, refl)
      matched false p = query_fw-IsMatched p

  -- Where the answer of `get_car` comes from.
  abbrev pub IsFrom : NewCar CarFw → Type 0
  IsFrom n =
      (n.fingerprint_source ≡ fixed)
        × ((s.fixed_fingerprint == "") ≡ false)
        × (n.candidate ≡ s.fixed_fingerprint)
      ⊎ (n.fingerprint_source ≡ fw)
        × ((s.fixed_fingerprint == "") ≡ true)
        × (s.skip_fw_query ≡ false)
        × ((vin : String) × (IsCached vin n.car_fw ⊎ IsQueried vin n.car_fw)
            × ((not n.fuzzy_fingerprint, n.candidate ∷ []) ≡ s.match_fw_to_car n.car_fw vin))
      ⊎ (n.fingerprint_source ≡ can)
        × ((s.fixed_fingerprint == "") ≡ true)
        × (n.candidate ≡ or_mock s.can_fingerprint.0)
        × (n.fuzzy_fingerprint ≡ false)
        × ((s.skip_fw_query ≡ true)
            ⊎ ((vin : String) × (IsCached vin n.car_fw ⊎ IsQueried vin n.car_fw)
                × ((car : String) → (s.match_fw_to_car n.car_fw vin).1 ≢ car ∷ [])))

  -- The car and its source from what was matched.
  answer_of : FwQuery CarFw → NewCar CarFw
  answer_of q =
      let (car, source, exact) =
        select_fixed s.fixed_fingerprint
          (select_fw q.fw_candidates q.exact_fw_match s.can_fingerprint.0) in
      record {
        candidate = or_mock car;
        car_vin = if is_valid_vin q.vin then q.vin else vin_unknown;
        car_fw = q.car_fw;
        fingerprint_source = source;
        fuzzy_fingerprint = not exact;
      }

  answer_of-IsFrom : (q : FwQuery CarFw) → IsMatched q → IsFrom (answer_of q)
  unfolding answer_of
  answer_of-IsFrom q m = elim (Bool-cases (s.fixed_fingerprint == "")) [
    | inr set ↦ rw set (inl (refl, refl, refl))
    | inl unset ↦ rw unset (elim m [
      | inl (skip, empty, none_left, exact) ↦
          rw (none_left, skip) (inr (inr (refl, refl, refl, refl, inl refl)))
      | inr (ask, origin, found) ↦ elim (single_cases q.fw_candidates) [
        | inl (car, one) ↦ rw one (
            inr (
              inl (
                refl,
                refl,
                ask,
                (
                  q.vin,
                  origin,
                  ap (λ b. (b, car ∷ [])) (not-not q.exact_fw_match)
                      ∙ ap (λ l. (q.exact_fw_match, l)) (sym one)
                      ∙ found,
                ),
              )))
        | inr other ↦
            rw (select_fw_other q.fw_candidates q.exact_fw_match s.can_fingerprint.0 other) (
              inr (
                inr (
                  refl,
                  refl,
                  refl,
                  refl,
                  inr (q.vin, origin, λ car e. other car (ap (λ r. r.1) found ∙ e)),
                )))
      ]
    ])
  ]

  -- Where the answer of `get_car` comes from, whatever the environment, the cache and the car: a fixed
  -- fingerprint, if one is set; else the one candidate that match_fw_to_car gives for the returned firmware,
  -- which is the one of a usable cache if there is one and else the one that the car was asked for, with
  -- fuzzy_fingerprint set exactly if that match was inexact; else the car of the CAN fingerprint, or the mock car, as an exact
  -- match, and then the query was skipped or that firmware has no single candidate. A fixed fingerprint
  -- aside, a match is inexact in the second case alone.
  pub get_car_lem : IsFrom (get_car s)
  unfolding get_car fingerprint answer_of
  get_car_lem = answer_of-IsFrom (first_part s) first_part-IsMatched
