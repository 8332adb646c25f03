-- ===== src/Firmware/Query.antt =====
-- `get_fw_versions_ordered` and `set_obd_multiplexing` of selfdrive/car/fw_versions.py.
use mathlib.Core.List.{append-nil, append_assoc, Perm}
use mathlib.Core.List.Perm
use openpilot9xxcivic.Prelude.{
  ℕ, ◌≤◌, ◌≡◌, refl, sym, ◌∙◌, Bool, not, string_comparable, nat_beq, if◌then◌else◌, leb, List, [],
  ◌∷◌, ◌++◌, String, length, arith, Bool-cases, select, inl, inr,
}
use openpilot9xxcivic.Firmware.{CarFw}

-- `sorted(brand_matches, key=lambda b: len(brand_matches[b]), reverse=True)`, which is stable.
module _ {ℓ} {A : Type ℓ} (key : A → ℕ) where
  unfoldable pub insert_sorted : A → List A → List A
  insert_sorted x [] = x ∷ []
  insert_sorted x (y ∷ ys) =
      let later = insert_sorted x ys in if leb (key y) (key x) then x ∷ y ∷ ys else y ∷ later

  unfoldable pub sorted_reverse : List A → List A
  unfolding insert_sorted
  sorted_reverse [] = []
  sorted_reverse (x ∷ xs) = insert_sorted x (sorted_reverse xs)

  -- No key below `x` is greater, all the way down.
  abbrev pub BoundedBy : ℕ → List A → Type 0
  BoundedBy n [] = Unit
  BoundedBy n (x ∷ xs) = (key x ≤ n) × BoundedBy n xs

  abbrev pub IsFalling : List A → Type 0
  IsFalling [] = Unit
  IsFalling (x ∷ xs) = BoundedBy (key x) xs × IsFalling xs

  BoundedBy-le : (m n : ℕ) (xs : List A) → m ≤ n → BoundedBy m xs → BoundedBy n xs
  BoundedBy-le m n [] h b = tt
  BoundedBy-le m n (x ∷ xs) h b = (omega arith, BoundedBy-le m n xs h b.1)

  BoundedBy-insert_sorted :
      (n : ℕ) (x : A) (xs : List A) → key x ≤ n → BoundedBy n xs → BoundedBy n (insert_sorted x xs)
  unfolding insert_sorted
  BoundedBy-insert_sorted n x [] h b = (h, tt)
  BoundedBy-insert_sorted n x (y ∷ ys) h b = elim (Bool-cases (leb (key y) (key x))) [
    | inl le ↦ rw le (h, b)
    | inr gt ↦ rw gt (b.0, BoundedBy-insert_sorted n x ys h b.1)
  ]

  IsFalling-insert_sorted : (x : A) (xs : List A) → IsFalling xs → IsFalling (insert_sorted x xs)
  unfolding insert_sorted
  IsFalling-insert_sorted x [] f = (tt, tt)
  IsFalling-insert_sorted x (y ∷ ys) f = elim (Bool-cases (leb (key y) (key x))) [
    | inl le ↦
        rw le
          (let h : key y ≤ key x = ground arith in ((h, BoundedBy-le (key y) (key x) ys h f.0), f))
    | inr gt ↦
        rw gt (
          BoundedBy-insert_sorted (key y) x ys (ground arith) f.0,
          IsFalling-insert_sorted x ys f.1,
        )
  ]

  pub IsFalling-sorted_reverse : (xs : List A) → IsFalling (sorted_reverse xs)
  unfolding sorted_reverse
  IsFalling-sorted_reverse [] = tt
  IsFalling-sorted_reverse (x ∷ xs) =
      IsFalling-insert_sorted x (sorted_reverse xs) (IsFalling-sorted_reverse xs)

  insert_sorted-perm : (x : A) (xs : List A) → Perm (insert_sorted x xs) (x ∷ xs)
  unfolding insert_sorted
  insert_sorted-perm x [] = Perm.refl (x ∷ [])
  insert_sorted-perm x (y ∷ ys) = elim (Bool-cases (leb (key y) (key x))) [
    | inl le ↦ rw le (Perm.refl (x ∷ y ∷ ys))
    | inr gt ↦ rw gt (Perm.trans (Perm.cons y (insert_sorted-perm x ys)) (Perm.swap x y ys))
  ]

  pub sorted_reverse-perm : (xs : List A) → Perm (sorted_reverse xs) xs
  unfolding sorted_reverse
  sorted_reverse-perm [] = Perm.nil
  sorted_reverse-perm (x ∷ xs) =
      Perm.trans (insert_sorted-perm x (sorted_reverse xs)) (Perm.cons x (sorted_reverse-perm xs))

-- `match_count b` is `len(brand_matches[b])`, `query b` the firmware that `get_fw_versions` reads for
-- the brand, and `match` the cars that `match_fw_to_car` finds for it.
module _ (match_count : String → ℕ) (query : String → List CarFw)
    (match : List CarFw → List String) where
  -- The loop over the ordered brands, with its `continue` and its `break`.
  unfoldable pub query_brands : List String → List CarFw → List CarFw
  query_brands [] all_car_fw = all_car_fw
  query_brands (brand ∷ brands) all_car_fw =
      let skipped = query_brands brands all_car_fw in
      let more = query_brands brands (all_car_fw ++ query brand) in
      if nat_beq (match_count brand) 0
      then skipped
      else if nat_beq (length (match (query brand))) 1
      then all_car_fw ++ query brand
      else more

  unfoldable pub get_fw_versions_ordered : List String → List CarFw
  unfolding query_brands sorted_reverse
  get_fw_versions_ordered brands = query_brands (sorted_reverse match_count brands) []

  -- The brands that are asked: those with a matching ECU, up to the first that gives one car.
  abbrev pub up_to_match : List String → List String
  up_to_match [] = []
  up_to_match (brand ∷ brands) =
      if nat_beq (length (match (query brand))) 1 then brand ∷ [] else brand ∷ up_to_match brands

  abbrev pub answers : List String → List CarFw
  answers [] = []
  answers (brand ∷ brands) = query brand ++ answers brands

  abbrev pub has_match : String → Bool
  has_match brand = not (nat_beq (match_count brand) 0)

  query_brands_lem :
      (brands : List String) (fw : List CarFw)
      → query_brands brands fw ≡ fw ++ answers (up_to_match (select has_match brands))
  unfolding query_brands
  query_brands_lem [] fw = sym (append-nil fw)
  query_brands_lem (brand ∷ brands) fw = elim (Bool-cases (nat_beq (match_count brand) 0)) [
    | inl skip ↦ rw skip (query_brands_lem brands fw)
    | inr ask ↦ rw ask (elim (Bool-cases (nat_beq (length (match (query brand))) 1)) [
      | inl one ↦ rw (one, append-nil) refl
      | inr more ↦ rw more (
          query_brands_lem brands (fw ++ query brand)
          ∙ append_assoc fw (query brand) (answers (up_to_match (select has_match brands))))
    ])
  ]

  -- There is an order of the given brands, each as often as it was given, by falling numbers of matches,
  -- such that the brands with a matching ECU are asked in that order, up to and with the first whose
  -- answers match exactly one car, and the answers are returned in the same order.
  pub get_fw_versions_ordered_lem :
      (brands : List String)
      → (order : List String) × Perm order brands
        × IsFalling match_count order
        × (get_fw_versions_ordered brands ≡ answers (up_to_match (select has_match order)))
  unfolding get_fw_versions_ordered
  get_fw_versions_ordered_lem brands = (
    sorted_reverse match_count brands,
    sorted_reverse-perm match_count brands,
    IsFalling-sorted_reverse match_count brands,
    query_brands_lem (sorted_reverse match_count brands) [],
  )
