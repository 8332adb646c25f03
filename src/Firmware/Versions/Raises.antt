-- ===== src/Firmware/Versions/Raises.antt =====
-- When `get_fw_versions` of selfdrive/car/fw_versions.py has the tables for what it is to query.
use mathlib.Core.Option
use openpilot9xxcivic.Prelude.{
  ◌≡◌, refl, ap, ◌∙◌, Bool, true, ◌&&◌, ◌||◌, ◌==◌, Option, none, some, is_some, List, [], ◌∷◌,
  String, all, contains, Dict, insert, string_comparable, arith, Bool-cases, inl, inr,
}
use openpilot9xxcivic.Firmware.{OfflineFwVersions, Tables}
use openpilot9xxcivic.Firmware.Versions.{Targets, collect, all_versions, updated, targets}

-- The queried brand, if there is one, and the brands of the extra versions have a configuration.
abbrev pub is_known : Tables → Option String → Dict String OfflineFwVersions → Bool
is_known t none extra = all (λ x. contains t.brands x.0) extra
is_known t (some brand) extra = contains t.brands brand && all (λ x. contains t.brands x.0) extra

all-insert :
    {V : Type 0} (p : String → Bool) (k : String) (v : V) (d : Dict String V)
    → all (λ x. p x.0) (insert k v d) ≡ (p k && all (λ x. p x.0) d)
unfolding insert
all-insert p k v [] = refl
all-insert p k v ((j, w) ∷ d) = elim (Bool-cases (j == k)) [
  | inl same ↦
      rw (same, ap p ((string_comparable.same_iff j k).0 same)) (twice (p k) (all (λ x. p x.0) d))
  | inr other ↦ rw (other, all-insert p k v d) (swap (p j) (p k) (all (λ x. p x.0) d))
]
  where
    twice : (a b : Bool) → (a && b) ≡ (a && (a && b))
    twice a b = ground arith

    swap : (a b c : Bool) → (a && (b && c)) ≡ (b && (a && c))
    swap a b c = ground arith

all-updated :
    (p : String → Bool) (d extra : Dict String OfflineFwVersions)
    → all (λ x. p x.0) (updated d extra) ≡ (all (λ x. p x.0) d && all (λ x. p x.0) extra)
all-updated p d [] = ground arith
all-updated p d ((b, v) ∷ extra) =
    all-updated p (insert b v d) extra
    ∙ rw (all-insert p b v d) (swap (p b) (all (λ x. p x.0) d) (all (λ x. p x.0) extra))
  where
    swap : (a b c : Bool) → (a && b && c) ≡ (b && (a && c))
    swap a b c = ground arith

all_versions-known :
    (t : Tables) (brands : List String)
    → ((b : String) → contains brands b ≡ true → contains t.brands b ≡ true)
    → all (λ x. contains t.brands x.0) (all_versions t brands) ≡ true
unfolding contains
all_versions-known t [] h = refl
all_versions-known t (b ∷ brands) h =
    rw
      (
        h b (rw ((string_comparable.same_iff b b).1 refl) refl),
        all_versions-known t brands (λ c k. h c (or_true (b == c) (contains brands c) k)),
      )
      refl
  where
    or_true : (p q : Bool) → q ≡ true → (p || q) ≡ true
    or_true p q h = ground arith

collect_lem :
    (t : Tables) (versions : Dict String OfflineFwVersions) (s : Targets)
    → is_some (collect t versions s) ≡ all (λ x. contains t.brands x.0) versions
unfolding collect
collect_lem t [] s = refl
collect_lem t ((b, v) ∷ versions) s = elim (Bool-cases (contains t.brands b)) [
  | inl known ↦ rw known (collect_lem t versions _)
  | inr unknown ↦ rw unknown refl
]

pub targets_lem :
    (t : Tables) (query_brand : Option String) (extra : Dict String OfflineFwVersions)
    → is_some (targets t query_brand extra) ≡ is_known t query_brand extra
unfolding targets Option.bind
targets_lem t none extra =
    collect_lem t (updated (all_versions t t.brands) extra) _
    ∙ all-updated (contains t.brands) (all_versions t t.brands) extra
    ∙ rw (all_versions-known t t.brands (λ b h. h)) refl
targets_lem t (some brand) extra = elim (Bool-cases (contains t.brands brand)) [
  | inl known ↦ rw known (
      collect_lem t (updated ((brand, t.versions brand) ∷ []) extra) _
      ∙ all-updated (contains t.brands) ((brand, t.versions brand) ∷ []) extra
      ∙ rw known refl)
  | inr unknown ↦ rw unknown refl
]
