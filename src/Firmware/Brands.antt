-- ===== src/Firmware/Brands.antt =====
-- `get_brand_ecu_matches` of selfdrive/car/fw_versions.py.
use openpilot9xxcivic.Prelude.{
  ℕ, ℤ, pos, negsuc, neg, ◌≡◌, refl, ap, ◌∙◌, ◌↔◌, Bool, true, false, ◌&&◌, ◌||◌, ◌==◌, nat_beq,
  nat_beq_iff, if◌then◌else◌, List, [], ◌∷◌, String, any, any-add, contains, add, contains-add,
  Dict, insert, lookup, lookup_or, lookup_or-insert, pair_beq_iff, Comparable, nat_comparable,
  string_comparable, option_comparable, pair_comparable, arith, Bool-cases, inl, inr,
}
use openpilot9xxcivic.Ecus.{Ecu}
use openpilot9xxcivic.Firmware.{Addr, EcuAddr, Request, Tables, get_all_ecus}
use openpilot9xxcivic.Firmware.Present.{requests_of}

abbrev int_beq : ℤ → ℤ → Bool
int_beq (pos m) (pos n) = nat_beq m n
int_beq (negsuc m) (negsuc n) = nat_beq m n
int_beq _ _ = false

int_beq_iff : (x y : ℤ) → (int_beq x y ≡ true) ↔ (x ≡ y)
int_beq_iff (pos m) (pos n) = (λ h. ap pos ((nat_beq_iff m n).0 h), λ h. (nat_beq_iff m n).1 (cc))
int_beq_iff (negsuc m) (negsuc n) =
    (λ h. ap negsuc ((nat_beq_iff m n).0 h), λ h. (nat_beq_iff m n).1 (cc))
int_beq_iff (pos m) (negsuc n) = (λ h. cc, λ h. cc)
int_beq_iff (negsuc m) (pos n) = (λ h. cc, λ h. cc)

instance abbrev int_comparable : Comparable ℤ
int_comparable = record { same = int_beq; same_iff = int_beq_iff }

-- `brand_addrs[brand]`, without the kinds of the ECUs.
abbrev pub addrs_of : List EcuAddr → List Addr
addrs_of [] = []
addrs_of ((ecu_type, a) ∷ ecus) = a ∷ addrs_of ecus

abbrev pub brand_addrs : Tables → String → List Addr
brand_addrs t brand = addrs_of (get_all_ecus (t.fw_query_configs brand) (t.versions brand))

-- `brand_rx_offsets`, a set.
abbrev pub brand_rx_offsets : List (String × Request) → List (String × ℤ) → List (String × ℤ)
brand_rx_offsets [] offsets = offsets
brand_rx_offsets ((brand, r) ∷ requests) offsets =
    brand_rx_offsets requests (add offsets (brand, r.rx_offset))

-- `brand_matches` at first.
abbrev pub no_matches : List (String × Request) → Dict String (List Addr) → Dict String (List Addr)
no_matches [] matches = matches
no_matches ((brand, r) ∷ requests) matches = no_matches requests (insert brand [] matches)

-- `d[k].add(v)`
contains-insert :
    (k j : String) (v a : Addr) (d : Dict String (List Addr))
    → contains (lookup_or [] j (insert k (add (lookup_or [] k d) v) d)) a
      ≡ (contains (lookup_or [] j d) a || (k == j) && (v == a))
contains-insert k j v a d =
    rw (lookup_or-insert [] k j (add (lookup_or [] k d) v) d) (elim (Bool-cases (k == j)) [
      | inl same ↦ rw same (
          contains-add (lookup_or [] k d) v a
          ∙ ap (λ i. contains (lookup_or [] i d) a || v == a)
              ((string_comparable.same_iff k j).0 same))
      | inr other ↦ rw other (ground arith)
    ])

any_ext {ℓ} :
    {A : Type ℓ} (p q : A → Bool) (xs : List A) → ((x : A) → p x ≡ q x) → any p xs ≡ any q xs
any_ext p q [] h = refl
any_ext p q (x ∷ xs) h = ground (arith, h x, any_ext p q xs h)

nothing_there : (brand : String) (a : Addr) → contains (lookup_or [] brand []) a ≡ false
unfolding contains lookup_or lookup
nothing_there brand a = refl

-- A test of the key and the value that were found is one of those that were looked for.
same_test :
    (f : String → Addr → Bool) (b brand : String) (x a : Addr)
    → ((b == brand) && (x == a) && f b x) ≡ ((b == brand) && (x == a) && f brand a)
same_test f b brand x a = elim (Bool-cases (b == brand)) [
  | inl s ↦ elim (Bool-cases (x == a)) [
    | inl e ↦
        ap (λ i. (b == brand) && (x == a) && f i x) ((string_comparable.same_iff b brand).0 s)
        ∙ ap (λ i. (b == brand) && (x == a) && f brand i) ((pair_beq_iff x a).0 e)
    | inr n ↦ rw n (ground arith)
  ]
  | inr n ↦ rw n refl
]

module _ (rx_addr : (addr : ℕ) (rx_offset : ℤ) → ℕ) (t : Tables) where
  -- The address that the request went to, if its offset was the given one.
  abbrev pub tx_addr : Ecu → (rx_offset : ℤ) → Addr
  tx_addr ((addr, sub_addr), bus) rx_offset = (rx_addr addr (neg rx_offset), sub_addr)

  abbrev pub add_match : Ecu → String × ℤ → Dict String (List Addr) → Dict String (List Addr)
  add_match ecu (brand, rx_offset) matches =
      let a = tx_addr ecu rx_offset in
      if contains (brand_addrs t brand) a
      then insert brand (add (lookup_or [] brand matches) a) matches
      else matches

  unfoldable pub match_offsets :
      Ecu → List (String × ℤ) → Dict String (List Addr) → Dict String (List Addr)
  match_offsets ecu [] matches = matches
  match_offsets ecu (o ∷ offsets) matches = match_offsets ecu offsets (add_match ecu o matches)

  unfoldable pub match_ecus :
      List (String × ℤ) → List Ecu → Dict String (List Addr) → Dict String (List Addr)
  unfolding match_offsets
  match_ecus offsets [] matches = matches
  match_ecus offsets (ecu ∷ ecus) matches =
      match_ecus offsets ecus (match_offsets ecu offsets matches)

  unfoldable pub get_brand_ecu_matches : (ecu_rx_addrs : List Ecu) → Dict String (List Addr)
  unfolding match_ecus
  get_brand_ecu_matches ecu_rx_addrs =
      let requests = requests_of t t.brands in
      match_ecus (brand_rx_offsets requests []) ecu_rx_addrs (no_matches requests [])

  abbrev pub is_match : Dict String (List Addr) → String → Addr → Bool
  is_match matches brand a = contains (lookup_or [] brand matches) a

  -- With this offset the ECU is the one of the brand at the address.
  abbrev pub hits : String → Addr → Ecu → String × ℤ → Bool
  hits brand a ecu (b, rx_offset) =
      (b == brand) && (tx_addr ecu rx_offset == a) && contains (brand_addrs t brand) a

  offset_step :
      (brand : String) (a : Addr) (ecu : Ecu) (o : String × ℤ) (matches : Dict String (List Addr))
      → is_match (add_match ecu o matches) brand a
        ≡ (is_match matches brand a || hits brand a ecu o)
  offset_step brand a ecu o matches =
      elim (Bool-cases (contains (brand_addrs t o.0) (tx_addr ecu o.1))) [
        | inl there ↦ rw there (
            contains-insert o.0 brand (tx_addr ecu o.1) a matches
            ∙ ap (λ b. is_match matches brand a || b)
                (keep (o.0 == brand) (tx_addr ecu o.1 == a) _ _ there
                  (same_test (λ b x. contains (brand_addrs t b) x) o.0 brand (tx_addr ecu o.1) a)))
        | inr missing ↦ rw missing (
            lose (is_match matches brand a) (o.0 == brand) (tx_addr ecu o.1 == a) _ _ missing
              (same_test (λ b x. contains (brand_addrs t b) x) o.0 brand (tx_addr ecu o.1) a))
      ]
    where
      keep : (p q f g : Bool) → f ≡ true → (p && q && f) ≡ (p && q && g) → (p && q) ≡ (p && q && g)
      keep p q f g h e = ground arith

      lose : (m p q f g : Bool) → f ≡ false → (p && q && f) ≡ (p && q && g) → m ≡ (m || p && q && g)
      lose m p q f g h e = ground arith

  match_offsets_lem :
      (brand : String) (a : Addr) (ecu : Ecu) (offsets : List (String × ℤ))
      (matches : Dict String (List Addr))
      → is_match (match_offsets ecu offsets matches) brand a
        ≡ (is_match matches brand a || any (hits brand a ecu) offsets)
  unfolding match_offsets
  match_offsets_lem brand a ecu [] matches = ground arith
  match_offsets_lem brand a ecu (o ∷ offsets) matches =
      chain _ _ _ _ _ (match_offsets_lem brand a ecu offsets (add_match ecu o matches))
        (offset_step brand a ecu o matches)
    where
      chain : (x y m h r : Bool) → x ≡ (y || r) → y ≡ (m || h) → x ≡ (m || (h || r))
      chain x y m h r e k = ground arith

  match_ecus_lem :
      (brand : String) (a : Addr) (offsets : List (String × ℤ)) (ecus : List Ecu)
      (matches : Dict String (List Addr))
      → is_match (match_ecus offsets ecus matches) brand a
        ≡ (is_match matches brand a || any (λ ecu. any (hits brand a ecu) offsets) ecus)
  unfolding match_ecus
  match_ecus_lem brand a offsets [] matches = ground arith
  match_ecus_lem brand a offsets (ecu ∷ ecus) matches = ground (
    arith,
    match_ecus_lem brand a offsets ecus (match_offsets ecu offsets matches),
    match_offsets_lem brand a ecu offsets matches,
  )

  offsets_lem :
      (p : String × ℤ → Bool) (requests : List (String × Request)) (offsets : List (String × ℤ))
      → any p (brand_rx_offsets requests offsets)
        ≡ (any p offsets || any (λ x. p (x.0, x.1.rx_offset)) requests)
  offsets_lem p [] offsets = ground arith
  offsets_lem p ((brand, r) ∷ requests) offsets = ground (
    arith,
    offsets_lem p requests (add offsets (brand, r.rx_offset)),
    any-add p offsets (brand, r.rx_offset),
  )

  no_matches_lem :
      (brand : String) (a : Addr) (requests : List (String × Request))
      (matches : Dict String (List Addr))
      → is_match matches brand a ≡ false
      → is_match (no_matches requests matches) brand a ≡ false
  unfolding contains
  no_matches_lem brand a [] matches h = h
  no_matches_lem brand a ((b, r) ∷ requests) matches h =
      no_matches_lem brand a requests (insert b [] matches) (
        rw (lookup_or-insert [] b brand [] matches)
          (elim (Bool-cases (b == brand)) [ inl same ↦ rw same refl | inr other ↦ rw other h ]))

  -- An address counts as a match of a brand exactly if it is the address of one of the brand's ECUs and,
  -- for the offset of some request of the brand, some ECU that answered has it as the address of the
  -- request.
  pub get_brand_ecu_matches_lem :
      (brand : String) (a : Addr) (ecu_rx_addrs : List Ecu)
      → is_match (get_brand_ecu_matches ecu_rx_addrs) brand a
        ≡ any
            (λ ecu. any (λ x. hits brand a ecu (x.0, x.1.rx_offset)) (requests_of t t.brands))
            ecu_rx_addrs
  unfolding get_brand_ecu_matches
  get_brand_ecu_matches_lem brand a ecus =
      let requests = requests_of t t.brands in
      match_ecus_lem brand a (brand_rx_offsets requests []) ecus (no_matches requests [])
      ∙ rw (no_matches_lem brand a requests [] (nothing_there brand a)) (
          any_ext (λ ecu. any (hits brand a ecu) (brand_rx_offsets requests []))
            (λ ecu. any (λ x. hits brand a ecu (x.0, x.1.rx_offset)) requests) ecus
            (λ ecu. offsets_lem (hits brand a ecu) requests []))
