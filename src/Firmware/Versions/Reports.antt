-- ===== src/Firmware/Versions/Reports.antt =====
-- What the queries of `get_fw_versions` of selfdrive/car/fw_versions.py report of an address that answers.
use openpilot9xxcivic.Prelude.{
  ℕ, zero, suc, ℤ, ◌%◌, ◌≤◌, ◌≡◌, refl, sym, ap, ◌∙◌, ◌⊎◌, inl, inr, Bool, true, false, ◌&&◌, ◌||◌,
  ◌==◌, nat_beq, if◌then◌else◌, Option, none, some, List, [], ◌∷◌, ◌++◌, length, take, drop,
  take-append-drop, length-drop, String, is_empty, any, any-append, contains, contains-append, Dict,
  keys, lookup_or, nat_comparable, string_comparable, option_comparable, list_comparable,
  pair_comparable, Occurs, arith, Bool-cases, pair_beq, pair_beq_iff, list_beq_iff, nat_beq_iff,
}
use openpilot9xxcivic.Firmware.{Version, Addr, Request, Tables, CarFw}
use openpilot9xxcivic.Firmware.Present.{is_reachable, is_allowed}
use openpilot9xxcivic.Firmware.Versions.{
  Target, Targets, Session, chunks, chunks_from, query_addrs, car_fw_of, car_fws_of, query_request,
  query_chunk, query_chunks, query_groups, some_or_zero,
}

pub or_left : (p q : Bool) → p ≡ true → (p || q) ≡ true
or_left p q h = ground arith

pub or_right : (p q : Bool) → q ≡ true → (p || q) ≡ true
or_right p q h = ground arith

nobody : (addrs : List Addr) (a : Addr) → contains addrs a ≡ true → is_empty addrs ≡ false
unfolding contains
nobody [] a h = absurd (ground arith)
nobody (b ∷ addrs) a h = refl

pub or_cases : (p q : Bool) → (p || q) ≡ true → (p ≡ true) ⊎ (q ≡ true)
or_cases true q h = inl refl
or_cases false q h = inr h

-- No element is lost between the chunks.
contains-chunks_from :
    (n fuel : ℕ) (l : List Target) (y : Target)
    → length l ≤ fuel
    → contains l y ≡ true
    → any (λ c. contains c y) (chunks_from (suc n) fuel l) ≡ true
unfolding chunks_from contains
contains-chunks_from n fuel [] y h k = absurd (ground arith)
contains-chunks_from n zero (x ∷ l) y h k = absurd (omega arith)
contains-chunks_from n (suc fuel) (x ∷ l) y h k =
    elim (or_cases (contains (x ∷ take n l) y) (contains (drop n l) y) split) [
      | inl now ↦ or_left _ _ now
      | inr later ↦
          or_right _ _
            (contains-chunks_from n fuel (drop n l) y (omega (arith, length-drop n l)) later)
    ]
  where
    split : (contains (x ∷ take n l) y || contains (drop n l) y) ≡ true
    split =
        sym (contains-append (x ∷ take n l) (drop n l) y)
        ∙ ap (λ m. contains (x ∷ m) y) (take-append-drop n l)
        ∙ k

module _ (rx_addr : (tx_addr : ℕ) (rx_offset : ℤ) → ℕ) (t : Tables)
    (get_data : (obd_multiplexing : Bool) → Request → List Addr → Option (Dict Addr Version))
    (num_pandas : ℕ) (s : Targets) where
  -- A version that the request got from the address.
  abbrev pub is_report : String × Request → Addr → CarFw → Bool
  is_report x a f =
      (f.brand == x.0)
      && (f.request == x.1.request)
      && nat_beq f.bus x.1.bus
      && nat_beq f.address a.0
      && nat_beq f.sub_address (some_or_zero a.1)

  contains-query_addrs :
      (brand : String) (r : Request) (chunk : List Target) (a : Addr)
      → contains chunk (brand, a) ≡ true
      → is_allowed r (lookup_or "" (brand, a) s.ecu_types) ≡ true
      → contains (query_addrs rx_addr t num_pandas s brand r chunk) a ≡ true
  unfolding query_addrs contains
  contains-query_addrs brand r [] a h k = absurd (ground arith)
  contains-query_addrs brand r ((b, c) ∷ chunk) a h k =
      elim (or_cases (pair_beq {A = String} {B = Addr} (b, c) (brand, a))
        (contains chunk (brand, a)) h) [
          | inl same ↦
              ap (λ y. contains (query_addrs rx_addr t num_pandas s brand r (y ∷ chunk)) a)
                ((pair_beq_iff (b, c) (brand, a)).0 same)
              ∙ rw ((string_comparable.same_iff brand brand).1 refl, k)
                  (or_left _ _ ((pair_beq_iff a a).1 refl))
          | inr later ↦
              skip
                (((b == brand) || (b == "any")) && is_allowed r (lookup_or "" (b, c) s.ecu_types))
                (query_addrs rx_addr t num_pandas s brand r chunk)
                (contains-query_addrs brand r chunk a later k)
        ]
    where
      skip :
          (p : Bool) (rest : List Addr)
          → contains rest a ≡ true
          → contains (if p then c ∷ rest else rest) a ≡ true
      skip true rest h = or_right _ _ h
      skip false rest h = h

  report-car_fws_of :
      (x : String × Request) (a : Addr) (d : Dict Addr Version)
      → contains (keys d) a ≡ true
      → any (is_report x a) (car_fws_of rx_addr t num_pandas s x.0 x.1 d) ≡ true
  unfolding car_fws_of car_fw_of contains
  report-car_fws_of x a [] h = absurd (ground arith)
  report-car_fws_of x a ((c, v) ∷ d) h = elim (or_cases (c == a) (contains (keys d) a) h) [
    | inl same ↦ or_left _ _ (
        ap (λ b. is_report x b (car_fw_of rx_addr t num_pandas s x.0 x.1 c v))
          (sym ((pair_beq_iff c a).0 same))
        ∙ rw
            (
              (string_comparable.same_iff x.0 x.0).1 refl,
              (list_beq_iff x.1.request x.1.request).1 refl,
              (nat_beq_iff x.1.bus x.1.bus).1 refl,
              (nat_beq_iff c.0 c.0).1 refl,
              (nat_beq_iff (some_or_zero c.1) (some_or_zero c.1)).1 refl,
            )
            refl)
    | inr later ↦ or_right _ _ (report-car_fws_of x a d later)
  ]

  -- What is reported stays so.
  module _ (p : CarFw → Bool) where
    any-query_request :
        (chunk : List Target) (x : String × Request) (state : Session)
        → any p state.car_fw ≡ true
        → any p (query_request rx_addr t num_pandas s get_data chunk x state).car_fw ≡ true
    unfolding query_request
    any-query_request chunk (brand, r) state h = elim (Bool-cases (is_reachable num_pandas r)) [
      | inl near ↦ rw near (kept _)
      | inr far ↦ rw far h
    ]
      where
        kept :
            (found : Option (Dict Addr Version))
            → any p (elim found as (λ x. List CarFw) [
              | none ↦ state.car_fw
              | some d ↦ state.car_fw ++ car_fws_of rx_addr t num_pandas s brand r d
            ])
              ≡ true
        kept none = h
        kept (some d) =
            any-append p state.car_fw (car_fws_of rx_addr t num_pandas s brand r d) ∙ or_left _ _ h

    any-query_chunk :
        (requests : List (String × Request)) (chunk : List Target) (state : Session)
        → any p state.car_fw ≡ true
        → any p (query_chunk rx_addr t num_pandas s get_data requests chunk state).car_fw ≡ true
    unfolding query_chunk
    any-query_chunk [] chunk state h = h
    any-query_chunk (x ∷ requests) chunk state h =
        any-query_chunk requests chunk _ (any-query_request chunk x state h)

    any-query_chunks :
        (requests : List (String × Request)) (chunks : List (List Target)) (state : Session)
        → any p state.car_fw ≡ true
        → any p (query_chunks rx_addr t num_pandas s get_data requests chunks state).car_fw ≡ true
    unfolding query_chunks
    any-query_chunks requests [] state h = h
    any-query_chunks requests (chunk ∷ rest) state h =
        any-query_chunks requests rest _ (any-query_chunk requests chunk state h)

    any-query_groups :
        (requests : List (String × Request)) (groups : List (List Target)) (state : Session)
        → any p state.car_fw ≡ true
        → any p (query_groups rx_addr t num_pandas s get_data requests groups state).car_fw ≡ true
    unfolding query_groups
    any-query_groups requests [] state h = h
    any-query_groups requests (group ∷ groups) state h =
        any-query_groups requests groups _ (any-query_chunks requests (chunks 128 group) state h)

  -- An ECU that answers whatever is asked of it, and a request that is for it.
  module _
      (answering : (obd : Bool) (r : Request) (addrs : List Addr) (a : Addr)
        → contains addrs a ≡ true
        → (d : Dict Addr Version) × (get_data obd r addrs ≡ some d) × (contains (keys d) a ≡ true))
      (x : String × Request) (a : Addr) (near : is_reachable num_pandas x.1 ≡ true)
      (allowed : is_allowed x.1 (lookup_or "" (x.0, a) s.ecu_types) ≡ true) where
    report-query_request :
        (chunk : List Target) (state : Session)
        → contains chunk (x.0, a) ≡ true
        → any (is_report x a) (query_request rx_addr t num_pandas s get_data chunk x state).car_fw
          ≡ true
    unfolding query_request
    report-query_request chunk state h =
        rw (near, nobody addrs a asked)
          (let (d, e, k) = answering obd x.1 addrs a asked in
            rw e (
              any-append (is_report x a) state.car_fw (car_fws_of rx_addr t num_pandas s x.0 x.1 d)
              ∙ or_right _ _ (report-car_fws_of x a d k)))
      where
        obd : Bool
        obd = if nat_beq (x.1.bus % 4) 1 then x.1.obd_multiplexing else state.obd_multiplexing

        addrs : List Addr
        addrs = query_addrs rx_addr t num_pandas s x.0 x.1 chunk

        asked : contains addrs a ≡ true
        asked = contains-query_addrs x.0 x.1 chunk a h allowed

    report-query_chunk :
        (requests : List (String × Request)) (chunk : List Target) (state : Session)
        → Occurs x requests
        → contains chunk (x.0, a) ≡ true
        → any
            (is_report x a)
            (query_chunk rx_addr t num_pandas s get_data requests chunk state).car_fw
          ≡ true
    unfolding query_chunk
    report-query_chunk [] chunk state o h = elim o [ ]
    report-query_chunk (y ∷ requests) chunk state (inl e) h =
        any-query_chunk (is_report x a) requests chunk _ (
          ap
            (λ y.
              any (is_report x a)
                (query_request rx_addr t num_pandas s get_data chunk y state).car_fw)
            e
          ∙ report-query_request chunk state h)
    report-query_chunk (y ∷ requests) chunk state (inr o) h =
        report-query_chunk requests chunk _ o h

    report-query_chunks :
        (requests : List (String × Request)) (chunks : List (List Target)) (state : Session)
        → Occurs x requests
        → any (λ c. contains c (x.0, a)) chunks ≡ true
        → any
            (is_report x a)
            (query_chunks rx_addr t num_pandas s get_data requests chunks state).car_fw
          ≡ true
    unfolding query_chunks
    report-query_chunks requests [] state o h = absurd (ground arith)
    report-query_chunks requests (chunk ∷ rest) state o h =
        elim (or_cases (contains chunk (x.0, a)) (any (λ c. contains c (x.0, a)) rest) h) [
          | inl now ↦
              any-query_chunks (is_report x a) requests rest _
                (report-query_chunk requests chunk state o now)
          | inr later ↦ report-query_chunks requests rest _ o later
        ]

    pub report-query_groups :
        (requests : List (String × Request)) (groups : List (List Target)) (state : Session)
        → Occurs x requests
        → any (λ g. contains g (x.0, a)) groups ≡ true
        → any
            (is_report x a)
            (query_groups rx_addr t num_pandas s get_data requests groups state).car_fw
          ≡ true
    unfolding query_groups chunks
    report-query_groups requests [] state o h = absurd (ground arith)
    report-query_groups requests (group ∷ groups) state o h =
        elim (or_cases (contains group (x.0, a)) (any (λ g. contains g (x.0, a)) groups) h) [
          | inl now ↦ any-query_groups (is_report x a) requests groups _ (
              report-query_chunks requests (chunks 128 group) state o
                (contains-chunks_from 127 (length group) group (x.0, a) (omega arith) now))
          | inr later ↦ report-query_groups requests groups _ o later
        ]
