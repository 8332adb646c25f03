-- ===== src/Vin/Sound.antt =====
-- Where the answer of `get_vin` of selfdrive/car/vin.py comes from.
use openpilot9xxcivic.Prelude.{
  ℕ, zero, suc, ◌+◌, ◌≤◌, ◌<◌, ◌≡◌, refl, ◌⊎◌, inl, inr, Bool, true, ◌&&◌, ◌||◌, ltb, nat_beq,
  nat_beq_iff, Occurs, Every, List, [], ◌∷◌, Option, none, some, contains, nat_comparable, Dict,
  lookup, arith, Bool-cases,
}
use openpilot9xxcivic.Vin.{clean_vin}
use openpilot9xxcivic.Vin.Query.{
  VinRequest, uds_vin, obd_vin, gm_vin, kwp_vin, VinQuery, VinFound, vin_queries, or_else,
  read_addr, read_addrs, read_results, run_query, run_queries, run_buses, get_vin,
}

-- The engines and gateways on the buses 0 and 1, with the offset 8.
abbrev pub is_standard_source : (bus addr rx_offset : ℕ) → Bool
is_standard_source bus addr rx_offset =
    ltb bus 2
    && nat_beq rx_offset 8
    && contains (0x7e0 ∷ 0x7e2 ∷ 0x760 ∷ 0x7c6 ∷ 0x18da10f1 ∷ 0x18da0ef1 ∷ []) addr

-- One address on bus 0.
abbrev pub is_single_source : (only offset bus addr rx_offset : ℕ) → Bool
is_single_source only offset bus addr rx_offset =
    nat_beq bus 0 && nat_beq addr only && nat_beq rx_offset offset

-- Which ECUs answer a kind of request: besides the standard ones the cameras of a Volkswagen and of a Bolt
-- and the controller of a Leaf.
unfoldable pub is_known_source : VinRequest → (bus addr rx_offset : ℕ) → Bool
is_known_source uds_vin bus addr rx_offset =
    is_standard_source bus addr rx_offset || is_single_source 0x74f 106 bus addr rx_offset
is_known_source obd_vin bus addr rx_offset = is_standard_source bus addr rx_offset
is_known_source gm_vin bus addr rx_offset = is_single_source 0x24b 1024 bus addr rx_offset
is_known_source kwp_vin bus addr rx_offset = is_single_source 0x797 3 bus addr rx_offset

-- The offset of a row, on a bus and from an address that the row lists, makes a known source.
abbrev pub IsKnown : VinQuery → Type 0
IsKnown q =
    (bus addr : ℕ)
    → contains q.valid_buses bus ≡ true
    → contains q.vin_addrs addr ≡ true
    → is_known_source q.request bus addr q.rx_offset ≡ true

vin_queries-IsKnown : Every IsKnown vin_queries
unfolding contains is_known_source
vin_queries-IsKnown = (
  λ bus addr b a. ground (arith, b, a),
  (
    λ bus addr b a. ground (arith, b, a),
    (
      λ bus addr b a. ground (arith, b, a),
      (λ bus addr b a. ground (arith, b, a), (λ bus addr b a. ground (arith, b, a), tt)),
    ),
  ),
)

module _ (decodes : List ℕ → Bool) (query : ℕ → ℕ → VinQuery → Option (Dict ℕ (List ℕ))) where
  -- Where a VIN comes from: a row of the table was asked on its bus, in a round from the first one on and
  -- before the last one, and was answered from its address with bytes that clean up to it.
  pub record IsAnswer (first last : ℕ) (buses : List ℕ) (found : VinFound) : Type 0 where
    pub round : ℕ
    pub not_before : first ≤ round
    pub before : round < last
    pub q : VinQuery
    pub is_row : Occurs q vin_queries
    pub offset : found.rx_offset ≡ q.rx_offset
    pub is_known : is_known_source q.request found.bus found.addr found.rx_offset ≡ true
    pub results : Dict ℕ (List ℕ)
    pub raw : List ℕ
    pub asked : contains buses found.bus ≡ true
    pub valid : contains q.valid_buses found.bus ≡ true
    pub listed : contains q.vin_addrs found.addr ≡ true
    pub answered : query round found.bus q ≡ some results
    pub read : lookup found.addr results ≡ some raw
    pub cleaned : found.vin ≡ clean_vin raw
    pub decoded : decodes found.vin ≡ true

  abbrev Read : VinQuery → ℕ → Dict ℕ (List ℕ) → List ℕ → VinFound → Type 0
  Read q bus results addrs found =
      (raw : List ℕ) × (found.bus ≡ bus)
      × (contains addrs found.addr ≡ true)
      × (lookup found.addr results ≡ some raw)
      × (found.rx_offset ≡ q.rx_offset)
      × (found.vin ≡ clean_vin raw)
      × (decodes found.vin ≡ true)

  read_addr_sound :
      (q : VinQuery) (bus addr : ℕ) (o : Option (List ℕ)) (next : Option VinFound)
      (found : VinFound)
      → read_addr decodes query q bus addr o next ≡ some found
      → (next ≡ some found)
        ⊎ ((raw : List ℕ) × (o ≡ some raw)
            × (found.bus ≡ bus)
            × (found.addr ≡ addr)
            × (found.rx_offset ≡ q.rx_offset)
            × (found.vin ≡ clean_vin raw)
            × (decodes found.vin ≡ true))
  unfolding read_addr
  read_addr_sound q bus addr none next found h = inl h
  read_addr_sound q bus addr (some vin) next found h =
      inr (vin, refl, ground arith, ground arith, ground arith, ground arith, ground arith)

  read_addrs_sound :
      (q : VinQuery) (bus : ℕ) (results : Dict ℕ (List ℕ)) (addrs : List ℕ) (found : VinFound)
      → read_addrs decodes query q bus results addrs ≡ some found
      → Read q bus results addrs found
  unfolding read_addrs contains
  read_addrs_sound q bus results [] found h = cc
  read_addrs_sound q bus results (addr ∷ rest) found h =
      join
        (read_addr_sound q bus addr (lookup addr results)
          (read_addrs decodes query q bus results rest) found h)
        (read_addrs_sound q bus results rest found)
    where
      join :
          (read_addrs decodes query q bus results rest ≡ some found)
            ⊎ ((raw : List ℕ) × (lookup addr results ≡ some raw)
                × (found.bus ≡ bus)
                × (found.addr ≡ addr)
                × (found.rx_offset ≡ q.rx_offset)
                × (found.vin ≡ clean_vin raw)
                × (decodes found.vin ≡ true))
          → (read_addrs decodes query q bus results rest ≡ some found
              → Read q bus results rest found)
          → Read q bus results (addr ∷ rest) found
      join (inl e) ih = let r = ih e in (r.0, r.1, ground arith, r.3, r.4, r.5, r.6)
      join (inr (raw, e, b, a, o, v, d)) ih =
          (raw, b, ground (arith, nat_beq_iff addr found.addr), rw a e, o, v, d)

  run_query_sound :
      (i bus : ℕ) (q : VinQuery) (found : VinFound)
      → Occurs q vin_queries
      → IsKnown q
      → run_query decodes query i bus q ≡ some found
      → IsAnswer i (i + 1) (bus ∷ []) found
  unfolding run_query read_results contains
  run_query_sound i bus q found row known h = elim (Bool-cases (contains q.valid_buses bus)) [
    | inr bad ↦ absurd (ground arith)
    | inl good ↦ answered (query i bus q) refl (ground arith) good
  ]
    where
      answered :
          (o : Option (Dict ℕ (List ℕ)))
          → query i bus q ≡ o
          → read_results decodes query q bus o ≡ some found
          → contains q.valid_buses bus ≡ true
          → IsAnswer i (i + 1) (bus ∷ []) found
      answered none e k g = cc
      answered (some results) e k g =
          let r = read_addrs_sound q bus results q.vin_addrs found k in
          record {
            round = i;
            not_before = omega arith;
            before = omega arith;
            q = q;
            is_row = row;
            offset = r.4;
            is_known = rw (r.1, r.4) (known bus found.addr g r.2);
            results = results;
            raw = r.0;
            asked = ground (arith, nat_beq_iff bus found.bus, r.1);
            valid = rw r.1 g;
            listed = r.2;
            answered = rw r.1 e;
            read = r.3;
            cleaned = r.5;
            decoded = r.6;
          }

  or_else-some {ℓ} :
      {A : Type ℓ} (a b : Option A) {x : A} → or_else a b ≡ some x → (a ≡ some x) ⊎ (b ≡ some x)
  or_else-some none b h = inr h
  or_else-some (some a) b h = inl h

  run_queries_sound :
      (i bus : ℕ) (qs : List VinQuery) (found : VinFound)
      → Every (λ q. Occurs q vin_queries × IsKnown q) qs
      → run_queries decodes query i bus qs ≡ some found
      → IsAnswer i (i + 1) (bus ∷ []) found
  unfolding run_queries
  run_queries_sound i bus [] found rows h = cc
  run_queries_sound i bus (q ∷ qs) found rows h =
      elim (or_else-some (run_query decodes query i bus q) (run_queries decodes query i bus qs) h) [
        | inl e ↦ run_query_sound i bus q found rows.0.0 rows.0.1 e
        | inr e ↦ run_queries_sound i bus qs found rows.1 e
      ]

  -- What holds of some rounds and buses holds of more of them.
  IsAnswer-asked :
      (first last first' last' : ℕ) (xs ys : List ℕ) (found : VinFound)
      → first' ≤ first
      → last ≤ last'
      → IsAnswer first last xs found
      → contains ys found.bus ≡ true
      → IsAnswer first' last' ys found
  IsAnswer-asked first last first' last' xs ys found f l a h = record {
    round = a.round;
    not_before = omega (arith, a.not_before);
    before = omega (arith, a.before);
    q = a.q;
    is_row = a.is_row;
    offset = a.offset;
    is_known = a.is_known;
    results = a.results;
    raw = a.raw;
    asked = h;
    valid = a.valid;
    listed = a.listed;
    answered = a.answered;
    read = a.read;
    cleaned = a.cleaned;
    decoded = a.decoded;
  }

  rows : Every (λ q. Occurs q vin_queries × IsKnown q) vin_queries
  rows =
      let k = vin_queries-IsKnown in
      (
        (inl refl, k.0),
        (
          (inr (inl refl), k.1.0),
          (
            (inr (inr (inl refl)), k.1.1.0),
            (
              (inr (inr (inr (inl refl))), k.1.1.1.0),
              ((inr (inr (inr (inr (inl refl)))), k.1.1.1.1.0), tt),
            ),
          ),
        ),
      )

  run_buses_sound :
      (i : ℕ) (buses : List ℕ) (found : VinFound)
      → run_buses decodes query i buses ≡ some found
      → IsAnswer i (i + 1) buses found
  unfolding run_buses contains
  run_buses_sound i [] found h = cc
  run_buses_sound i (bus ∷ buses) found h =
      elim (or_else-some (run_queries decodes query i bus vin_queries)
        (run_buses decodes query i buses) h) [
          | inl e ↦
              let a = run_queries_sound i bus vin_queries found rows e in
              IsAnswer-asked i (i + 1) i (i + 1) (bus ∷ []) (bus ∷ buses) found (omega arith)
                (omega arith) a (ground (arith, a.asked))
          | inr e ↦
              let a = run_buses_sound i buses found e in
              IsAnswer-asked i (i + 1) i (i + 1) buses (bus ∷ buses) found (omega arith)
                (omega arith) a (ground (arith, a.asked))
        ]

  -- What `get_vin` returns is the cleaned-up answer to a row of its table, asked in one of the `left`
  -- rounds from round `i` on, on a bus that was asked and that the row allows, from an address that the
  -- row lists and with its offset; and it is a known source for the kind of request: for UDS and OBD one
  -- of the standard addresses on bus 0 or 1 with the offset 8, and on bus 0 for UDS 0x74f with 0x6a, for
  -- GM 0x24b with 0x400 and for KWP 0x797 with 0x3.
  pub get_vin_sound :
      (left i : ℕ) (buses : List ℕ) (found : VinFound)
      → get_vin decodes query left i buses ≡ some found
      → IsAnswer i (i + left) buses found
  unfolding get_vin
  get_vin_sound zero i buses found h = cc
  get_vin_sound (suc left) i buses found h =
      elim (or_else-some (run_buses decodes query i buses)
        (get_vin decodes query left (i + 1) buses) h) [
          | inl e ↦
              let a = run_buses_sound i buses found e in
              IsAnswer-asked i (i + 1) i (i + suc left) buses buses found (omega arith)
                (omega arith) a a.asked
          | inr e ↦
              let a = get_vin_sound left (i + 1) buses found e in
              IsAnswer-asked (i + 1) (i + 1 + left) i (i + suc left) buses buses found (omega arith)
                (omega arith) a a.asked
        ]
