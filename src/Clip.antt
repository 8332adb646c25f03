-- ===== src/Clip.antt =====
-- `clip` of openpilot.common.numpy_fast, which is not in this repository: a parameter with numpy's
-- documented behaviour on an interval that is not empty.
use openpilot9xxcivic.Prelude.{ℤ, ◌≤ℤ◌, ◌<ℤ◌, min_ℤ, max_ℤ, ◌≡◌, arith, eq_of_parts}

pub record Clip : Type 0 where
  pub clip : ℤ → ℤ → ℤ → ℤ
  pub clip_below : (x lo hi : ℤ) → lo ≤ℤ hi → x <ℤ lo → clip x lo hi ≡ lo
  pub clip_above : (x lo hi : ℤ) → lo ≤ℤ hi → hi <ℤ x → clip x lo hi ≡ hi
  pub clip_within : (x lo hi : ℤ) → lo ≤ℤ x → x ≤ℤ hi → clip x lo hi ≡ x

module _ (np : Clip) where
  open np use {clip, clip_below, clip_above, clip_within}

  -- The three cases in one equation.
  pub clip_lem : (x lo hi : ℤ) → lo ≤ℤ hi → clip x lo hi ≡ max_ℤ lo (min_ℤ x hi)
  clip_lem x lo hi h = ground (
    arith,
    clip_below x lo hi,
    clip_above x lo hi,
    clip_within x lo hi,
    eq_of_parts x hi,
    eq_of_parts x lo,
    eq_of_parts lo hi,
  )

  pub le-clip : (x lo hi : ℤ) → lo ≤ℤ hi → lo ≤ℤ clip x lo hi
  le-clip x lo hi h = rw (clip_lem x lo hi h) (ground arith)

  pub clip-le : (x lo hi : ℤ) → lo ≤ℤ hi → clip x lo hi ≤ℤ hi
  clip-le x lo hi h = rw (clip_lem x lo hi h) (ground arith)

pub max_min_below : (x lo hi : ℤ) → lo ≤ℤ hi → x <ℤ lo → max_ℤ lo (min_ℤ x hi) ≡ lo
max_min_below x lo hi h k = ground (arith, eq_of_parts x hi)

pub max_min_above : (x lo hi : ℤ) → lo ≤ℤ hi → hi <ℤ x → max_ℤ lo (min_ℤ x hi) ≡ hi
max_min_above x lo hi h k = ground (arith, eq_of_parts lo hi)

pub max_min_within : (x lo hi : ℤ) → lo ≤ℤ x → x ≤ℤ hi → max_ℤ lo (min_ℤ x hi) ≡ x
max_min_within x lo hi h k = ground (arith, eq_of_parts lo x)

-- The maximum of the lower end and the minimum meets the laws.
abbrev pub max_min : Clip
max_min = record {
  clip = λ x lo hi. max_ℤ lo (min_ℤ x hi);
  clip_below = max_min_below;
  clip_above = max_min_above;
  clip_within = max_min_within;
}
