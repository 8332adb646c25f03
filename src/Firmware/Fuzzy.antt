-- ===== src/Firmware/Fuzzy.antt =====
-- `match_fw_to_car_fuzzy` of selfdrive/car/fw_versions.py.
use mathlib.Core.List.{append-nil, append_assoc}
use openpilot9xxcivic.Prelude.{
  ◌≡◌, refl, sym, ap, ◌∙◌, Bool, false, not, ◌&&◌, ◌||◌, ◌==◌, nat_comparable, string_comparable,
  option_comparable, list_comparable, pair_comparable, if◌then◌else◌, leb, List, [], ◌∷◌, ◌++◌,
  Option, none, some, String, Dict, lookup_or, lookup, push, lookup_or-push, inl, inr, add, union,
  contains, all, length, Bool-cases,
}
use openpilot9xxcivic.Firmware.{
  Version, Addr, LiveFwVersions, CarVersions, OfflineFwVersions, Tables, is_brand,
}

abbrev pub fuzzy_exclude_ecus : List String
fuzzy_exclude_ecus = "fwdCamera" ∷ "fwdRadar" ∷ "eps" ∷ "debug" ∷ []

-- A key of `all_fw_versions`.
abbrev pub Key : Type 0
Key = Addr × Version

-- The innermost loop: `all_fw_versions[(addr, sub_addr, f)].append(candidate)`.
unfoldable pub append_versions :
    String → Addr → List Version → Dict Key (List String) → Dict Key (List String)
append_versions candidate addr [] d = d
append_versions candidate addr (f ∷ fs) d =
    append_versions candidate addr fs (push (addr, f) candidate d)

unfoldable pub append_ecus : String → CarVersions → Dict Key (List String) → Dict Key (List String)
unfolding append_versions
append_ecus candidate [] d = d
append_ecus candidate (((ecu_type, addr), fws) ∷ rest) d =
    append_ecus candidate rest
      (if contains fuzzy_exclude_ecus ecu_type then d else append_versions candidate addr fws d)

-- `candidate == exclude`
abbrev pub is_excluded : Option String → String → Bool
is_excluded none candidate = false
is_excluded (some car) candidate = candidate == car

module _ (t : Tables) (match_brand exclude : Option String) where
  abbrev pub is_skipped : String → Bool
  is_skipped candidate =
      not (is_brand (t.model_to_brand candidate) match_brand) || is_excluded exclude candidate

  unfoldable pub append_cars : OfflineFwVersions → Dict Key (List String) → Dict Key (List String)
  unfolding append_ecus
  append_cars [] d = d
  append_cars ((candidate, fws) ∷ rest) d =
      append_cars rest (if is_skipped candidate then d else append_ecus candidate fws d)

  unfoldable pub all_fw_versions : Dict Key (List String)
  unfolding append_cars
  all_fw_versions = append_cars t.fw_versions []

-- The variables of the second loop; `rejected` is its early `return set()`.
pub data Scan : Type 0 where
  rejected : Scan
  scanning : (matched_ecus : List Addr) → (match : Option String) → Scan

unfoldable pub note_candidates : Addr → List String → Scan → Scan
note_candidates ecu_key candidates rejected = rejected
note_candidates ecu_key (car ∷ []) (scanning matched none) =
    scanning (add matched ecu_key) (some car)
note_candidates ecu_key (car ∷ []) (scanning matched (some match)) =
    if match == car then scanning (add matched ecu_key) (some match) else rejected
note_candidates ecu_key _ (scanning matched match) = scanning matched match

unfoldable pub scan_versions : Dict Key (List String) → Addr → List Version → Scan → Scan
unfolding note_candidates
scan_versions table ecu_key [] s = s
scan_versions table ecu_key (version ∷ rest) s =
    scan_versions table ecu_key rest
      (note_candidates ecu_key (lookup_or [] (ecu_key, version) table) s)

unfoldable pub scan_live : Dict Key (List String) → LiveFwVersions → Scan → Scan
unfolding scan_versions
scan_live table [] s = s
scan_live table ((ecu_key, versions) ∷ rest) s =
    scan_live table rest (scan_versions table ecu_key versions s)

unfoldable pub fuzzy_result : Scan → List String
fuzzy_result (scanning matched (some match)) =
    if not (match == "") && leb 2 (length matched) then match ∷ [] else []
fuzzy_result _ = []

unfoldable pub match_fw_to_car_fuzzy :
    Tables → LiveFwVersions → (match_brand exclude : Option String) → List String
unfolding all_fw_versions scan_live fuzzy_result
match_fw_to_car_fuzzy t live match_brand exclude =
    fuzzy_result (scan_live (all_fw_versions t match_brand exclude) live (scanning [] none))

-- The cars, as often as they list it, that list a version at an address for an ECU that counts.
abbrev pub listed : String → Key → Addr → List Version → List String
listed candidate key addr [] = []
listed candidate key addr (f ∷ fs) =
    if pair_comparable.same (addr, f) key
    then candidate ∷ listed candidate key addr fs
    else listed candidate key addr fs

abbrev pub listed_ecus : String → Key → CarVersions → List String
listed_ecus candidate key [] = []
listed_ecus candidate key (((ecu_type, addr), fws) ∷ rest) =
    (if contains fuzzy_exclude_ecus ecu_type then [] else listed candidate key addr fws)
    ++ listed_ecus candidate key rest

module _ (t : Tables) (match_brand exclude : Option String) where
  abbrev pub owners : Key → OfflineFwVersions → List String
  owners key [] = []
  owners key ((candidate, fws) ∷ rest) =
      (if is_skipped t match_brand exclude candidate then [] else listed_ecus candidate key fws)
      ++ owners key rest

append_versions_lem :
    (candidate : String) (key : Key) (addr : Addr) (fs : List Version) (d : Dict Key (List String))
    → lookup_or [] key (append_versions candidate addr fs d)
      ≡ lookup_or [] key d ++ listed candidate key addr fs
unfolding append_versions
append_versions_lem candidate key addr [] d = sym (append-nil (lookup_or [] key d))
append_versions_lem candidate key addr (f ∷ fs) d =
    rw
      (
        append_versions_lem candidate key addr fs (push (addr, f) candidate d),
        lookup_or-push (addr, f) key candidate d,
        append_assoc,
      )
      (elim (Bool-cases (pair_comparable.same (addr, f) key)) [
        | inl e ↦ rw e refl
        | inr e ↦ rw e refl
      ])

append_ecus_lem :
    (candidate : String) (key : Key) (fws : CarVersions) (d : Dict Key (List String))
    → lookup_or [] key (append_ecus candidate fws d)
      ≡ lookup_or [] key d ++ listed_ecus candidate key fws
unfolding append_ecus
append_ecus_lem candidate key [] d = sym (append-nil (lookup_or [] key d))
append_ecus_lem candidate key (((ecu_type, addr), fws) ∷ rest) d =
    elim (Bool-cases (contains fuzzy_exclude_ecus ecu_type)) [
      | inl e ↦ rw e (append_ecus_lem candidate key rest d)
      | inr e ↦ rw e (
          append_ecus_lem candidate key rest (append_versions candidate addr fws d)
          ∙ (ap (λ l. l ++ listed_ecus candidate key rest)
                (append_versions_lem candidate key addr fws d)
              ∙ append_assoc (lookup_or [] key d) (listed candidate key addr fws)
                  (listed_ecus candidate key rest)))
    ]

module _ (t : Tables) (match_brand exclude : Option String) where
  append_cars_lem :
      (key : Key) (db : OfflineFwVersions) (d : Dict Key (List String))
      → lookup_or [] key (append_cars t match_brand exclude db d)
        ≡ lookup_or [] key d ++ owners t match_brand exclude key db
  unfolding append_cars
  append_cars_lem key [] d = sym (append-nil (lookup_or [] key d))
  append_cars_lem key ((candidate, fws) ∷ rest) d =
      elim (Bool-cases (is_skipped t match_brand exclude candidate)) [
        | inl e ↦ rw e (append_cars_lem key rest d)
        | inr e ↦ rw e (
            append_cars_lem key rest (append_ecus candidate fws d)
            ∙ (ap (λ l. l ++ owners t match_brand exclude key rest)
                  (append_ecus_lem candidate key fws d)
                ∙ append_assoc (lookup_or [] key d) (listed_ecus candidate key fws)
                    (owners t match_brand exclude key rest)))
      ]

  -- The table holds, for an address and a version, the cars that list it for an ECU that counts.
  pub all_fw_versions_lem :
      (key : Key)
      → lookup_or [] key (all_fw_versions t match_brand exclude)
        ≡ owners t match_brand exclude key t.fw_versions
  unfolding all_fw_versions lookup_or lookup
  all_fw_versions_lem key = append_cars_lem key t.fw_versions []

-- The live versions that one car alone lists, each with its address, in the order of the loops.
abbrev pub hit : Addr → List String → List (Addr × String)
hit ecu_key (car ∷ []) = (ecu_key, car) ∷ []
hit ecu_key _ = []

abbrev pub hits_at : Dict Key (List String) → Addr → List Version → List (Addr × String)
hits_at table ecu_key [] = []
hits_at table ecu_key (v ∷ vs) =
    hit ecu_key (lookup_or [] (ecu_key, v) table) ++ hits_at table ecu_key vs

abbrev pub hits : Dict Key (List String) → LiveFwVersions → List (Addr × String)
hits table [] = []
hits table ((ecu_key, versions) ∷ rest) = hits_at table ecu_key versions ++ hits table rest

abbrev note_all : List (Addr × String) → Scan → Scan
note_all [] s = s
note_all ((ecu_key, car) ∷ rest) s = note_all rest (note_candidates ecu_key (car ∷ []) s)

note_all-append :
    (xs ys : List (Addr × String)) (s : Scan) → note_all (xs ++ ys) s ≡ note_all ys (note_all xs s)
note_all-append [] ys s = refl
note_all-append ((k, c) ∷ xs) ys s = note_all-append xs ys (note_candidates k (c ∷ []) s)

note_hit :
    (k : Addr) (cars : List String) (s : Scan) → note_candidates k cars s ≡ note_all (hit k cars) s
unfolding note_candidates
note_hit k [] rejected = refl
note_hit k [] (scanning m none) = refl
note_hit k [] (scanning m (some c)) = refl
note_hit k (c ∷ []) s = refl
note_hit k (c ∷ d ∷ cs) rejected = refl
note_hit k (c ∷ d ∷ cs) (scanning m none) = refl
note_hit k (c ∷ d ∷ cs) (scanning m (some e)) = refl

scan_versions_lem :
    (table : Dict Key (List String)) (k : Addr) (vs : List Version) (s : Scan)
    → scan_versions table k vs s ≡ note_all (hits_at table k vs) s
unfolding scan_versions
scan_versions_lem table k [] s = refl
scan_versions_lem table k (v ∷ vs) s =
    rw
      (
        scan_versions_lem table k vs (note_candidates k (lookup_or [] (k, v) table) s),
        note_hit k (lookup_or [] (k, v) table) s,
      )
      (sym (note_all-append (hit k (lookup_or [] (k, v) table)) (hits_at table k vs) s))

scan_live_lem :
    (table : Dict Key (List String)) (live : LiveFwVersions) (s : Scan)
    → scan_live table live s ≡ note_all (hits table live) s
unfolding scan_live
scan_live_lem table [] s = refl
scan_live_lem table ((k, vs) ∷ rest) s =
    rw (scan_live_lem table rest (scan_versions table k vs s), scan_versions_lem table k vs s)
      (sym (note_all-append (hits_at table k vs) (hits table rest) s))

abbrev pub hit_keys : List (Addr × String) → List Addr
hit_keys [] = []
hit_keys ((k, c) ∷ hs) = k ∷ hit_keys hs

-- What the hits decide: the car of the first hit, if it is the car of all and the hits stand at two
-- addresses or more.
abbrev pub unanimous : List (Addr × String) → List String
unanimous [] = []
unanimous ((k, car) ∷ hs) =
    if all (λ h. car == h.1) hs && (not (car == "") && leb 2 (length (union [] (k ∷ hit_keys hs))))
    then car ∷ []
    else []

note_rejected : (hs : List (Addr × String)) → note_all hs rejected ≡ rejected
unfolding note_candidates
note_rejected [] = refl
note_rejected ((k, c) ∷ hs) = note_rejected hs

note_all_lem :
    (hs : List (Addr × String)) (m : List Addr) (car : String)
    → note_all hs (scanning m (some car))
      ≡ (if all (λ h. car == h.1) hs then scanning (union m (hit_keys hs)) (some car) else rejected)
unfolding note_candidates union
note_all_lem [] m car = refl
note_all_lem ((k, c) ∷ hs) m car = elim (Bool-cases (car == c)) [
  | inl same ↦ rw same (note_all_lem hs (add m k) car)
  | inr other ↦ rw other (note_rejected hs)
]

unanimous_lem :
    (hs : List (Addr × String)) → fuzzy_result (note_all hs (scanning [] none)) ≡ unanimous hs
unfolding note_candidates fuzzy_result
unanimous_lem [] = refl
unanimous_lem ((k, car) ∷ hs) =
    rw (note_all_lem hs (add [] k) car) (elim (Bool-cases (all (λ h. car == h.1) hs)) [
      | inl same ↦ rw same (unfold union in refl)
      | inr other ↦ rw other refl
    ])

-- The fuzzy match returns a car exactly if all the live versions that one car alone lists, for ECUs
-- other than the excluded ones, are of that car and stand at two addresses or more.
pub match_fw_to_car_fuzzy_lem :
    (t : Tables) (live : LiveFwVersions) (match_brand exclude : Option String)
    → match_fw_to_car_fuzzy t live match_brand exclude
      ≡ unanimous (hits (all_fw_versions t match_brand exclude) live)
unfolding match_fw_to_car_fuzzy
match_fw_to_car_fuzzy_lem t live match_brand exclude =
    rw (scan_live_lem (all_fw_versions t match_brand exclude) live (scanning [] none))
      (unanimous_lem (hits (all_fw_versions t match_brand exclude) live))
