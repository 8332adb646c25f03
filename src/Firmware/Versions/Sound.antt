-- ===== src/Firmware/Versions/Sound.antt =====
-- Where the versions of `get_fw_versions` of selfdrive/car/fw_versions.py come from, and when it raises.
use openpilot9xxcivic.Prelude.{
  ℕ, ℤ, ◌%◌, ◌≡◌, refl, sym, ap, ◌∙◌, ◌⊎◌, inl, inr, Bool, true, false, ◌&&◌, ◌||◌, ◌==◌, nat_beq,
  if◌then◌else◌, Option, none, some, is_some, List, [], ◌∷◌, ◌++◌, String, is_empty, all, Dict,
  lookup_or, nat_comparable, string_comparable, option_comparable, list_comparable, pair_comparable,
  Occurs, Every, Every-append, arith, Bool-cases, Option-cases,
}
use openpilot9xxcivic.Firmware.{Version, Addr, OfflineFwVersions, Request, Tables, CarFw, is_brand}
use openpilot9xxcivic.Firmware.Present.{requests_of, is_reachable, is_allowed}
use openpilot9xxcivic.Firmware.Versions.Raises.{is_known, targets_lem}
use openpilot9xxcivic.Firmware.Versions.{
  Target, Targets, Session, chunks, query_addrs, car_fw_of, car_fws_of, query_request, query_chunk,
  query_chunks, query_groups, requests_for, addr_groups, targets, get_fw_versions,
}

module _ (rx_addr : (tx_addr : ℕ) (rx_offset : ℤ) → ℕ) (t : Tables)
    (get_data : (obd_multiplexing : Bool) → Request → List Addr → Option (Dict Addr Version))
    (query_brand : Option String) (num_pandas : ℕ) (s : Targets) where
  -- The whitelist allows the ECU that the brand, or `any`, has at the address.
  abbrev pub is_target : String × Request → Addr → Bool
  is_target x a =
      is_allowed x.1 (lookup_or "" (x.0, a) s.ecu_types)
      || is_allowed x.1 (lookup_or "" ("any", a) s.ecu_types)

  -- A request of the queried brand, whose panda is there, was sent to some addresses that it is for, in
  -- its own mode of OBD multiplexing where it went to the bus that this switches, and the version is of
  -- its answers.
  abbrev pub IsAnswer : CarFw → Type 0
  IsAnswer f =
      (x : String × Request) × (obd : Bool) × (addrs : List Addr) × (d : Dict Addr Version)
      × (entry : Addr × Version) × (Occurs x (requests_of t t.brands))
      × (is_brand x.0 query_brand ≡ true)
      × (is_reachable num_pandas x.1 ≡ true)
      × (all (is_target x) addrs ≡ true)
      × (nat_beq (x.1.bus % 4) 1 ≡ true → obd ≡ x.1.obd_multiplexing)
      × (get_data obd x.1 addrs ≡ some d)
      × (Occurs entry d)
      × (f ≡ car_fw_of rx_addr t num_pandas s x.0 x.1 entry.0 entry.1)

  -- A request that is sent.
  abbrev IsSent : String × Request → Type 0
  IsSent x = (Occurs x (requests_of t t.brands)) × (is_brand x.0 query_brand ≡ true)

  is_target-query_addrs :
      (brand : String) (r : Request) (chunk : List Target)
      → all (is_target (brand, r)) (query_addrs rx_addr t num_pandas s brand r chunk) ≡ true
  unfolding query_addrs
  is_target-query_addrs brand r [] = refl
  is_target-query_addrs brand r ((b, a) ∷ chunk) =
      if_all ((b == brand) || (b == "any")) (is_allowed r (lookup_or "" (b, a) s.ecu_types)) _
        (λ h k. here h k) (is_target-query_addrs brand r chunk)
    where
      if_all :
          (p q : Bool) (rest : List Addr)
          → (p ≡ true → q ≡ true → is_target (brand, r) a ≡ true)
          → all (is_target (brand, r)) rest ≡ true
          → all (is_target (brand, r)) (if p && q then a ∷ rest else rest) ≡ true
      if_all true true rest h k = rw (h refl refl) k
      if_all true false rest h k = k
      if_all false q rest h k = k

      any_there : (p q : Bool) → (p || q) ≡ true → p ≡ false → q ≡ true
      any_there p q h n = ground arith

      or_true : (p q : Bool) → q ≡ true → (p || q) ≡ true
      or_true p q h = ground arith

      kind_at :
          (i j : String)
          → i ≡ j
          → is_allowed r (lookup_or "" (i, a) s.ecu_types)
            ≡ is_allowed r (lookup_or "" (j, a) s.ecu_types)
      kind_at i j e = ap (λ i. is_allowed r (lookup_or "" (i, a) s.ecu_types)) e

      here :
          ((b == brand) || (b == "any")) ≡ true
          → is_allowed r (lookup_or "" (b, a) s.ecu_types) ≡ true
          → is_target (brand, r) a ≡ true
      here h k = elim (Bool-cases (b == brand)) [
        | inl own ↦ rw (sym (kind_at b brand ((string_comparable.same_iff b brand).0 own)), k) refl
        | inr other ↦ or_true _ _ (
            sym (
              kind_at b "any" (
                (string_comparable.same_iff b "any").0
                  (any_there (b == brand) (b == "any") h other)))
            ∙ k)
      ]

  car_fws-Every :
      (P : CarFw → Type 0) (brand : String) (r : Request) (d : Dict Addr Version)
      → ((e : Addr × Version) → Occurs e d → P (car_fw_of rx_addr t num_pandas s brand r e.0 e.1))
      → Every P (car_fws_of rx_addr t num_pandas s brand r d)
  unfolding car_fws_of
  car_fws-Every P brand r [] h = tt
  car_fws-Every P brand r ((a, v) ∷ d) h =
      (h (a, v) (inl refl), car_fws-Every P brand r d (λ e o. h e (inr o)))

  abbrev IsSound : Session → Type 0
  IsSound state = Every IsAnswer state.car_fw

  query_request-IsSound :
      (chunk : List Target) (x : String × Request) (state : Session)
      → IsSent x
      → IsSound state
      → IsSound (query_request rx_addr t num_pandas s get_data chunk x state)
  unfolding query_request car_fws_of
  query_request-IsSound chunk (brand, r) state (o, b) h =
      elim (Bool-cases (is_reachable num_pandas r)) [
        | inl near ↦
            rw near
              (elim (Bool-cases (is_empty (query_addrs rx_addr t num_pandas s brand r chunk))) [
                | inl nobody ↦ rw nobody (Every-append IsAnswer state.car_fw [] h tt)
                | inr somebody ↦ rw somebody (
                    answered (get_data obd r addrs) (λ d e.
                      car_fws-Every IsAnswer brand r d (λ entry there. (
                        (brand, r),
                        obd,
                        addrs,
                        d,
                        entry,
                        o,
                        b,
                        near,
                        is_target-query_addrs brand r chunk,
                        own_mode,
                        e,
                        there,
                        refl,
                      ))))
              ])
        | inr far ↦ rw far h
      ]
    where
      obd : Bool
      obd = if nat_beq (r.bus % 4) 1 then r.obd_multiplexing else state.obd_multiplexing

      addrs : List Addr
      addrs = query_addrs rx_addr t num_pandas s brand r chunk

      own_mode : nat_beq (r.bus % 4) 1 ≡ true → obd ≡ r.obd_multiplexing
      own_mode e = rw e refl

      answered :
          (found : Option (Dict Addr Version))
          → ((d : Dict Addr Version)
              → found ≡ some d
              → Every IsAnswer (car_fws_of rx_addr t num_pandas s brand r d))
          → Every IsAnswer (elim found as (λ x. List CarFw) [
            | none ↦ state.car_fw
            | some d ↦ state.car_fw ++ car_fws_of rx_addr t num_pandas s brand r d
          ])
      answered none k = h
      answered (some d) k = Every-append IsAnswer state.car_fw _ h (k d refl)

  query_chunk-IsSound :
      (requests : List (String × Request)) (chunk : List Target) (state : Session)
      → Every IsSent requests
      → IsSound state
      → IsSound (query_chunk rx_addr t num_pandas s get_data requests chunk state)
  unfolding query_chunk
  query_chunk-IsSound [] chunk state sent h = h
  query_chunk-IsSound (x ∷ requests) chunk state sent h =
      query_chunk-IsSound requests chunk _ sent.1 (query_request-IsSound chunk x state sent.0 h)

  query_chunks-IsSound :
      (requests : List (String × Request)) (chunks : List (List Target)) (state : Session)
      → Every IsSent requests
      → IsSound state
      → IsSound (query_chunks rx_addr t num_pandas s get_data requests chunks state)
  unfolding query_chunks
  query_chunks-IsSound requests [] state sent h = h
  query_chunks-IsSound requests (chunk ∷ rest) state sent h =
      query_chunks-IsSound requests rest _ sent (query_chunk-IsSound requests chunk state sent h)

  query_groups-IsSound :
      (requests : List (String × Request)) (groups : List (List Target)) (state : Session)
      → Every IsSent requests
      → IsSound state
      → IsSound (query_groups rx_addr t num_pandas s get_data requests groups state)
  unfolding query_groups
  query_groups-IsSound requests [] state sent h = h
  query_groups-IsSound requests (group ∷ groups) state sent h =
      query_groups-IsSound requests groups _ sent
        (query_chunks-IsSound requests (chunks 128 group) state sent h)

  requests_for-Every :
      (requests : List (String × Request))
      → ((x : String × Request) → Occurs x requests → Occurs x (requests_of t t.brands))
      → Every IsSent (requests_for query_brand requests)
  requests_for-Every [] h = tt
  requests_for-Every ((brand, r) ∷ requests) h = elim (Bool-cases (is_brand brand query_brand)) [
    | inl own ↦
        rw own ((h (brand, r) (inl refl), own), requests_for-Every requests (λ x o. h x (inr o)))
    | inr other ↦ rw other (requests_for-Every requests (λ x o. h x (inr o)))
  ]

module _ (rx_addr : (tx_addr : ℕ) (rx_offset : ℤ) → ℕ) (t : Tables)
    (get_data : (obd_multiplexing : Bool) → Request → List Addr → Option (Dict Addr Version)) where
  abbrev pub IsSoundReturn :
      Option String → Dict String OfflineFwVersions → (num_pandas : ℕ) (obd : Bool) → Type 0
  IsSoundReturn query_brand extra num_pandas obd =
      (s : Targets) × (fws : List CarFw) × (targets t query_brand extra ≡ some s)
      × (get_fw_versions rx_addr t get_data query_brand extra num_pandas obd ≡ some fws)
      × Every (IsAnswer rx_addr t get_data query_brand num_pandas s) fws

  returned :
      (query_brand : Option String) (extra : Dict String OfflineFwVersions) (num_pandas : ℕ)
      (obd : Bool) (s : Targets)
      → targets t query_brand extra ≡ some s
      → IsSoundReturn query_brand extra num_pandas obd
  unfolding get_fw_versions
  returned query_brand extra num_pandas obd s e = (
    s,
    _,
    e,
    rw e refl,
    query_groups-IsSound rx_addr t get_data query_brand num_pandas s
        (requests_for query_brand (requests_of t t.brands)) (addr_groups s)
        (record { obd_multiplexing = obd; car_fw = [] })
        (requests_for-Every rx_addr t get_data query_brand num_pandas s (requests_of t t.brands)
          (λ x o. o))
        tt,
  )

  raised :
      (query_brand : Option String) (extra : Dict String OfflineFwVersions) (num_pandas : ℕ)
      (obd : Bool)
      → targets t query_brand extra ≡ none
      → get_fw_versions rx_addr t get_data query_brand extra num_pandas obd ≡ none
  unfolding get_fw_versions
  raised query_brand extra num_pandas obd e = rw e refl

  -- `get_fw_versions` raises `KeyError` exactly if the queried brand or the brand of extra versions has no
  -- configuration. Otherwise each version that it returns is of the answers to a request in the tables,
  -- of the queried brand if there is one, whose panda is there; the request was sent only to addresses
  -- whose ECU its whitelist allows, and with OBD multiplexing as the request wants it if it went to the
  -- bus that this switches.
  pub get_fw_versions_lem :
      (query_brand : Option String) (extra : Dict String OfflineFwVersions) (num_pandas : ℕ)
      (obd : Bool)
      → (is_known t query_brand extra ≡ false)
          × (get_fw_versions rx_addr t get_data query_brand extra num_pandas obd ≡ none)
        ⊎ (is_known t query_brand extra ≡ true) × IsSoundReturn query_brand extra num_pandas obd
  get_fw_versions_lem query_brand extra num_pandas obd =
      elim (Option-cases (targets t query_brand extra)) [
        | inl e ↦ inl (
          sym (targets_lem t query_brand extra) ∙ ap is_some e,
          raised query_brand extra num_pandas obd e,
        )
        | inr (s, e) ↦ inr (
          sym (targets_lem t query_brand extra) ∙ ap is_some e,
          returned query_brand extra num_pandas obd s e,
        )
      ]
