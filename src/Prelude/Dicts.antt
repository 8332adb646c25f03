-- ===== src/Prelude/Dicts.antt =====
-- Python's dict as an association list in insertion order: a write to a key that is there keeps its
-- place.
use mathlib.Core.Path.{◌≡◌, refl, sym, ap}
use mathlib.Core.Option.{Option, none, some}
use mathlib.Core.Logic.{inl, inr}
use mathlib.Core.List.{append-nil, ◌++◌, List, [], ◌∷◌}
use native.Mathlib.Omega.{arith}
use openpilot9xxcivic.Prelude.Branch.{if◌then◌else◌, Bool-cases}
use openpilot9xxcivic.Prelude.Equality.{Comparable}

abbrev pub Dict {ℓ κ} : Type ℓ → Type κ → Type (ℓ ⊔ κ)
Dict K V = List (K × V)

module _ {ℓ κ} {K : Type ℓ} {V : Type κ} ⦃e : Comparable K⦄ where
  -- `d.get(k)`
  unfoldable pub lookup : K → Dict K V → Option V
  lookup k [] = none
  lookup k ((j, v) ∷ d) = if e.same j k then some v else lookup k d

  -- `d[k] = v`
  unfoldable pub insert : K → V → Dict K V → Dict K V
  insert k v [] = (k, v) ∷ []
  insert k v ((j, w) ∷ d) = if e.same j k then (j, v) ∷ d else (j, w) ∷ insert k v d

  pub lookup-insert :
      (k j : K) (v : V) (d : Dict K V)
      → lookup j (insert k v d) ≡ (if e.same k j then some v else lookup j d)
  unfolding lookup insert
  lookup-insert k j v [] = refl
  lookup-insert k j v ((i, w) ∷ d) =
      ground (arith, e.same_iff k j, e.same_iff i k, e.same_iff i j, lookup-insert k j v d)

abbrev pub or_default {ℓ} : {V : Type ℓ} → V → Option V → V
or_default default none = default
or_default default (some v) = v

-- `d.get(k, default)`
module _ {ℓ κ} {K : Type ℓ} {V : Type κ} ⦃e : Comparable K⦄ where
  unfoldable pub lookup_or : V → K → Dict K V → V
  unfolding lookup
  lookup_or default k d = or_default default (lookup k d)

module _ {ℓ κ} {K : Type ℓ} {V : Type κ} where
  abbrev pub keys : Dict K V → List K
  keys [] = []
  keys ((k, v) ∷ d) = k ∷ keys d

  abbrev pub values : Dict K V → List V
  values [] = []
  values ((k, v) ∷ d) = v ∷ values d

module _ {ℓ κ} {K : Type ℓ} {V : Type κ} ⦃e : Comparable K⦄ where
  pub lookup_or-insert :
      (default : V) (k j : K) (v : V) (d : Dict K V)
      → lookup_or default j (insert k v d) ≡ (if e.same k j then v else lookup_or default j d)
  unfolding lookup_or
  lookup_or-insert default k j v d = rw (lookup-insert k j v d) (ground arith)

module _ {ℓ κ} {K : Type ℓ} {V : Type κ} ⦃e : Comparable K⦄ where
  -- `d[k].append(v)` of a `defaultdict(list)`
  unfoldable pub push : K → V → Dict K (List V) → Dict K (List V)
  push k v d = insert k (lookup_or [] k d ++ v ∷ []) d

  pub lookup_or-push :
      (k j : K) (v : V) (d : Dict K (List V))
      → lookup_or [] j (push k v d) ≡ lookup_or [] j d ++ (if e.same k j then v ∷ [] else [])
  unfolding push
  lookup_or-push k j v d =
      rw (lookup_or-insert [] k j (lookup_or [] k d ++ v ∷ []) d) (elim (Bool-cases (e.same k j)) [
        | inl same ↦ rw same (ap (λ i. lookup_or [] i d ++ v ∷ []) ((e.same_iff k j).0 same))
        | inr other ↦ rw other (sym (append-nil (lookup_or [] j d)))
      ])
