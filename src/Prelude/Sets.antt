-- ===== src/Prelude/Sets.antt =====
-- Python's sets and the membership test of lists, as lists with an equality test.
use mathlib.Core.Path.{◌≡◌, refl, ap}
use mathlib.Core.Logic.{inl, inr}
use mathlib.Core.Bool.{Bool, true, false, ◌&&◌, ◌||◌}
use mathlib.Core.List.{List, [], ◌∷◌, ◌++◌, map}
use native.Mathlib.Omega.{arith}
use openpilot9xxcivic.Prelude.Branch.{if◌then◌else◌, Bool-cases}
use openpilot9xxcivic.Prelude.Equality.{Comparable}

-- The comprehension `[x for x in xs if p x]`, and the builtins `all` and `any`.
module _ {ℓ} {A : Type ℓ} where
  abbrev pub select : (A → Bool) → List A → List A
  select p [] = []
  select p (x ∷ xs) = if p x then x ∷ select p xs else select p xs

  abbrev pub all : (A → Bool) → List A → Bool
  all p [] = true
  all p (x ∷ xs) = p x && all p xs

  abbrev pub any : (A → Bool) → List A → Bool
  any p [] = false
  any p (x ∷ xs) = p x || any p xs

module _ {ℓ} {A : Type ℓ} ⦃e : Comparable A⦄ where
  -- `a in xs`
  unfoldable pub contains : List A → A → Bool
  contains [] a = false
  contains (x ∷ xs) a = e.same x a || contains xs a

  -- `xs.add(a)`
  unfoldable pub add : List A → A → List A
  unfolding contains
  add xs a = if contains xs a then xs else xs ++ a ∷ []

  -- `xs |= ys`
  unfoldable pub union : List A → List A → List A
  unfolding add
  union xs [] = xs
  union xs (y ∷ ys) = union (add xs y) ys

  pub contains-append :
      (xs ys : List A) (a : A) → contains (xs ++ ys) a ≡ (contains xs a || contains ys a)
  unfolding contains
  contains-append [] ys a = refl
  contains-append (x ∷ xs) ys a = ground (arith, contains-append xs ys a)

module _ {ℓ} {A : Type ℓ} ⦃e : Comparable A⦄ where
  pub contains-add : (xs : List A) (b a : A) → contains (add xs b) a ≡ (contains xs a || e.same b a)
  unfolding contains add
  contains-add xs b a = elim (Bool-cases (contains xs b)) [
    | inl old ↦ ground (arith, e.same_iff b a, old)
    | inr new ↦ ground (arith, contains-append xs (b ∷ []) a, new)
  ]

module _ {ℓ} {A : Type ℓ} ⦃e : Comparable A⦄ where
  pub contains-union :
      (xs ys : List A) (a : A) → contains (union xs ys) a ≡ (contains xs a || contains ys a)
  unfolding union contains
  contains-union xs [] a = ground arith
  contains-union xs (y ∷ ys) a = ground (arith, contains-union (add xs y) ys a, contains-add xs y a)

  pub contains-select :
      (p : A → Bool) (xs : List A) (a : A) → contains (select p xs) a ≡ (contains xs a && p a)
  unfolding contains
  contains-select p [] a = refl
  contains-select p (x ∷ xs) a = ground (arith, contains-select p xs a, e.same_iff x a)

module _ {ℓ} {A : Type ℓ} where
  pub any-append : (p : A → Bool) (xs ys : List A) → any p (xs ++ ys) ≡ (any p xs || any p ys)
  any-append p [] ys = refl
  any-append p (x ∷ xs) ys = ground (arith, any-append p xs ys)

  pub any-map {κ} :
      {B : Type κ} (p : B → Bool) (f : A → B) (xs : List A)
      → any p (map f xs) ≡ any (λ x. p (f x)) xs
  any-map p f [] = refl
  any-map p f (x ∷ xs) = ap (λ b. p (f x) || b) (any-map p f xs)

module _ {ℓ} {A : Type ℓ} ⦃e : Comparable A⦄ where
  -- An element that is there counts.
  pub contains→any :
      (p : A → Bool) (xs : List A) (a : A) → contains xs a ≡ true → p a ≡ true → any p xs ≡ true
  unfolding contains
  contains→any p [] a h k = ground arith
  contains→any p (x ∷ xs) a h k = elim (Bool-cases (e.same x a)) [
    | inl here ↦ rw (ap p ((e.same_iff x a).0 here), k) refl
    | inr other ↦ ground (arith, contains→any p xs a, other)
  ]

module _ {ℓ} {A : Type ℓ} ⦃e : Comparable A⦄ where
  pub any-add : (p : A → Bool) (xs : List A) (a : A) → any p (add xs a) ≡ (any p xs || p a)
  unfolding add
  any-add p xs a = elim (Bool-cases (contains xs a)) [
    | inl old ↦ rw old (ground (arith, contains→any p xs a old))
    | inr new ↦ rw new (ground (arith, any-append p xs (a ∷ [])))
  ]
