-- ===== src/Video/Units.antt =====
-- The loop of `hevc_index` of tools/lib/vidindex.py: it ends, and what it returns.
use openpilot9xxcivic.Prelude.{
  ℕ, zero, suc, ℤ, pos, negsuc, ◌+◌, ◌/◌, ◌%◌, ◌≢◌, ◌≤◌, ◌<◌, ◌≡◌, refl, ◌⊎◌, inl, inr, Bool, true,
  false, not, ◌&&◌, ◌||◌, ltb, leb, nat_beq, if◌then◌else◌, some, List, [], ◌∷◌, ◌++◌, length, drop,
  arith, Bool-cases, Option-cases, contains, nat_comparable, length-drop,
}
use openpilot9xxcivic.Video.Bits.{Bytes, video_file_invalid, Result, ok, err, ◌>>=◌, get_ue}
use openpilot9xxcivic.Video.{
  has_start_code, require_nal_unit_start, index, get_hevc_nal_unit_length, get_hevc_nal_unit_type,
  byte_at, checked_type, first_slice_type, get_hevc_slice_type, Index, add_frame, index_typed,
  index_unit, Ending, at_end, raised, out_of_fuel, index_loop, finish, starts_with_zero, hevc_index,
  parameter_set_nal_units, coded_slice_segment_nal_units,
}

-- A statement about the value of a call that returns.
abbrev pub IfOk : {A : Type 0} → (A → Type 0) → Result A → Type 0
IfOk P (ok a) = P a
IfOk P (err e) = Unit

bind-IfOk :
    {A B : Type 0} (Q : A → Type 0) (P : B → Type 0) (m : Result A) (k : A → Result B)
    → IfOk Q m
    → ((a : A) → Q a → IfOk P (k a))
    → IfOk P (m >>= k)
bind-IfOk Q P (ok a) k h next = next a h
bind-IfOk Q P (err e) k h next = tt

anything : {A : Type 0} (m : Result A) → IfOk (λ a. Unit) m
anything (ok a) = tt
anything (err e) = tt

if-IfOk :
    {A : Type 0} (P : A → Type 0) (b : Bool) (x y : Result A)
    → IfOk P x
    → IfOk P y
    → IfOk P (if b then x else y)
if-IfOk P true x y p q = p
if-IfOk P false x y p q = q

-- A slice type of a first slice is 0, 1 or 2.
abbrev pub is_small : ℤ → Bool
is_small (pos n) = ltb n 3
is_small (negsuc n) = false

abbrev is_typed : ℤ × Bool → Bool
is_typed (slice_type, is_first_slice) = not is_first_slice || is_small slice_type

-- Frames at rising offsets from `lo` on and below `hi`, each at a start code.
abbrev pub are_frames : Bytes → (lo hi : ℕ) → List (ℤ × ℕ) → Bool
are_frames dat lo hi [] = leb lo hi
are_frames dat lo hi ((slice_type, i) ∷ rest) =
    is_small slice_type && leb lo i && has_start_code (drop i dat) && are_frames dat (i + 1) hi rest

frames_append :
    (dat : Bytes) (lo i : ℕ) (t : ℤ) (fs : List (ℤ × ℕ))
    → is_small t ≡ true
    → has_start_code (drop i dat) ≡ true
    → are_frames dat lo i fs ≡ true
    → are_frames dat lo (i + 1) (fs ++ (t, i) ∷ []) ≡ true
frames_append dat lo i t [] s c h = ground arith
frames_append dat lo i t ((u, j) ∷ fs) s c h = ground (arith, frames_append dat (j + 1) i t fs)

frames_le :
    (dat : Bytes) (lo hi hi' : ℕ) (fs : List (ℤ × ℕ))
    → hi ≤ hi'
    → are_frames dat lo hi fs ≡ true
    → are_frames dat lo hi' fs ≡ true
frames_le dat lo hi hi' [] l h = ground arith
frames_le dat lo hi hi' ((u, j) ∷ fs) l h = ground (arith, frames_le dat (j + 1) hi hi' fs)

starts_lem :
    (dat : Bytes) (i : ℕ)
    → IfOk (λ b. has_start_code (drop i dat) ≡ true) (require_nal_unit_start dat i)
unfolding require_nal_unit_start
starts_lem dat i = elim (Bool-cases (ltb i 1)) [
  | inl low ↦ rw low tt
  | inr high ↦ elim (Bool-cases (has_start_code (drop i dat))) [
    | inl here ↦ rw (high, here) refl
    | inr away ↦ rw (high, away) tt
  ]
]

checked_lem : (r : ℕ × ℕ) → IfOk (λ t. is_typed t ≡ true) (checked_type r)
checked_lem (n, size) = elim (Bool-cases (ltb 2 n)) [
  | inl large ↦ rw large tt
  | inr small ↦ rw small (ground arith)
]

abbrev IsTyped : ℤ × Bool → Type 0
IsTyped r = is_typed r ≡ true

first_lem : (dat : Bytes) (start skip : ℕ) → IfOk IsTyped (first_slice_type dat start skip)
unfolding first_slice_type
first_lem dat start skip =
    bind-IfOk (λ r. Unit) IsTyped (get_ue dat start skip) _ (anything (get_ue dat start skip))
      (λ r u.
        bind-IfOk (λ q. Unit) IsTyped (get_ue dat start (skip + r.1)) checked_type
          (anything (get_ue dat start (skip + r.1))) (λ q v. checked_lem q))

slice_lem : (dat : Bytes) (i t : ℕ) → IfOk IsTyped (get_hevc_slice_type dat i t)
unfolding get_hevc_slice_type
slice_lem dat i t =
    bind-IfOk (λ b. Unit) IsTyped (byte_at dat (i + 3 + 2)) _ (anything (byte_at dat (i + 3 + 2)))
      (λ b u. if-IfOk IsTyped (nat_beq (b / 128 % 2) 1) _ _ (first_lem dat (i + 3 + 2) _) refl)

-- The frames found in a round stand at its start code.
abbrev HasFrames : Bytes → ℕ → Index → Type 0
HasFrames dat i f = are_frames dat 1 i f.frame_types ≡ true

add_frame_lem :
    (dat : Bytes) (i : ℕ) (f : Index) (t : ℤ × Bool)
    → has_start_code (drop i dat) ≡ true
    → HasFrames dat i f
    → IsTyped t
    → HasFrames dat (i + 1) (add_frame f i t)
add_frame_lem dat i f (t, true) c h s = frames_append dat 1 i t f.frame_types s c h
add_frame_lem dat i f (t, false) c h s = frames_le dat 1 i (i + 1) f.frame_types (omega arith) h

typed_lem :
    (dat : Bytes) (i len t : ℕ) (f : Index)
    → has_start_code (drop i dat) ≡ true
    → HasFrames dat i f
    → IfOk (HasFrames dat (i + 1)) (index_typed dat i len f t)
unfolding index_typed
typed_lem dat i len t f c h =
    let same = frames_le dat 1 i (i + 1) f.frame_types (omega arith) h in
    if-IfOk (HasFrames dat (i + 1)) (contains parameter_set_nal_units t) _ _ same (
      if-IfOk (HasFrames dat (i + 1)) (contains coded_slice_segment_nal_units t) _ _
        (bind-IfOk IsTyped (HasFrames dat (i + 1)) (get_hevc_slice_type dat i t) _
          (slice_lem dat i t) (λ r s. add_frame_lem dat i f r c h s))
        same)

unit_lem :
    (dat : Bytes) (i len : ℕ) (f : Index)
    → HasFrames dat i f
    → IfOk (HasFrames dat (i + 1)) (index_unit dat i len f)
unfolding index_unit
unit_lem dat i len f h =
    bind-IfOk (λ b. has_start_code (drop i dat) ≡ true) (HasFrames dat (i + 1))
      (require_nal_unit_start dat i) _ (starts_lem dat i)
      (λ b c.
        bind-IfOk (λ t. Unit) (HasFrames dat (i + 1)) (get_hevc_nal_unit_type dat i)
          (index_typed dat i len f) (anything (get_hevc_nal_unit_type dat i))
          (λ t u. typed_lem dat i len t f c h))

-- A unit is not empty and does not reach past the end.
index_lt : (dat : Bytes) (k : ℕ) → index dat ≡ some k → k < length dat
unfolding index
index_lt [] k h = absurd (ground arith)
index_lt (b ∷ dat) k h = elim (Bool-cases (has_start_code (b ∷ dat))) [
  | inl here ↦ ground (arith, here)
  | inr away ↦ elim (Option-cases (index dat)) [
    | inl e ↦ absurd (ground (arith, away, e))
    | inr (j, e) ↦ ground (arith, away, e, index_lt dat j e)
  ]
]

length_lem :
    (dat : Bytes) (i : ℕ)
    → i < length dat
    → (0 < get_hevc_nal_unit_length dat i) × (i + get_hevc_nal_unit_length dat i ≤ length dat)
unfolding get_hevc_nal_unit_length
length_lem dat i h = elim (Option-cases (index (drop (i + 3) dat))) [
  | inl last ↦ rw last (omega arith)
  | inr (k, e) ↦ rw e (omega (arith, index_lt (drop (i + 3) dat) k e, length-drop (i + 3) dat))
]

abbrev IsSound : Bytes → Index × Ending → Type 0
IsSound dat (f, e) = HasFrames dat (length dat) f × (e ≢ out_of_fuel)

loop_lem :
    (fuel : ℕ) (dat : Bytes) (i : ℕ) (f : Index)
    → length dat < fuel + i
    → i ≤ length dat
    → HasFrames dat i f
    → IsSound dat (index_loop fuel dat i f)
unfolding index_loop
loop_lem zero dat i f l u h = absurd (omega arith)
loop_lem (suc fuel) dat i f l u h = elim (Bool-cases (ltb i (length dat))) [
  | inl inside ↦
      let n = get_hevc_nal_unit_length dat i in
      let b = length_lem dat i (ground arith) in
      rw inside (
        round (index_unit dat i n f) (unit_lem dat i n f h) (λ next e.
          loop_lem fuel dat (i + n) next (omega arith) b.1
            (frames_le dat 1 (i + 1) (i + n) next.frame_types (omega arith) e)))
  | inr over ↦ rw over (frames_le dat 1 i (length dat) f.frame_types u h, λ e. at_end-ne e)
]
  where
    at_end-ne : at_end ≢ out_of_fuel
    at_end-ne e = cc

    round :
        (r : Result Index)
        → IfOk (HasFrames dat (i + 1)) r
        → ((next : Index)
            → HasFrames dat (i + 1) next
            → IsSound dat (index_loop fuel dat (i + get_hevc_nal_unit_length dat i) next))
        → IsSound dat (elim r as (λ x. Index × Ending) [
          | ok next ↦ index_loop fuel dat (i + get_hevc_nal_unit_length dat i) next
          | err e ↦ (f, raised e)
        ])
    round (ok next) g rest = rest next g
    round (err e) g rest = (frames_le dat 1 i (length dat) f.frame_types u h, λ q. cc)

-- The answer of the call: the whole length, and frames at rising offsets, each at a start code and with
-- a slice type of 0, 1 or 2; or an exception, which a caller that allows corrupt data gets only where
-- the data is shorter than 4 bytes or does not begin with 0.
abbrev pub IsAnswer : Bytes → (allow_corrupt : Bool) → Result (Index × ℕ) → Type 0
IsAnswer dat allow_corrupt (ok (f, n)) =
    (n ≡ length dat) × (are_frames dat 1 (length dat) f.frame_types ≡ true)
IsAnswer dat allow_corrupt (err e) =
    (allow_corrupt ≡ false) ⊎ ((ltb (length dat) 4 || not (starts_with_zero dat)) ≡ true)

finish_lem :
    (dat : Bytes) (allow : Bool) (r : Index × Ending)
    → IsSound dat r
    → (a : Result (Index × ℕ)) × (finish allow (length dat) r ≡ some a) × IsAnswer dat allow a
unfolding finish
finish_lem dat allow (f, at_end) (h, n) = (ok (f, length dat), refl, (refl, h))
finish_lem dat true (f, raised e) (h, n) = (ok (f, length dat), refl, (refl, h))
finish_lem dat false (f, raised e) (h, n) = (err e, refl, inl refl)
finish_lem dat allow (f, out_of_fuel) (h, n) = absurd (n refl)

-- For any data the loop comes to its end within the fuel, with an answer as above.
pub hevc_index_lem :
    (dat : Bytes) (allow_corrupt : Bool)
    → (a : Result (Index × ℕ)) × (hevc_index dat allow_corrupt ≡ some a)
      × IsAnswer dat allow_corrupt a
unfolding hevc_index
hevc_index_lem dat allow = elim (Bool-cases (ltb (length dat) 4 || not (starts_with_zero dat))) [
  | inl bad ↦ rw bad (err video_file_invalid, refl, inr bad)
  | inr good ↦ rw good (
      finish_lem dat allow _ (
        loop_lem (length dat) dat 1 (record { frame_types = []; prefix_dat = [] }) (omega arith)
          (ground arith) (ground arith)))
]
