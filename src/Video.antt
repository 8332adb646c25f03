-- ===== src/Video.antt =====
-- The index of an HEVC stream: tools/lib/vidindex.py. A byte is a number below 256; `>> j & 1` of a byte is
-- `/ 2 ^ j % 2`, and a slice is `take` of `drop`.
pub mod Bits
mod Golomb
mod Units
mod Tests
use mathlib.Core.Option
use openpilot9xxcivic.Prelude.{
  ℕ, zero, suc, ℤ, pos, negsuc, ◌+◌, ◌-◌, ◌*◌, ◌/◌, ◌%◌, ◌^◌, Bool, true, false, not, ◌&&◌, ◌||◌,
  ltb, leb, nat_beq, if◌then◌else◌, Option, none, some, List, [], ◌∷◌, ◌++◌, length, take, drop,
  get_elem?, contains, nat_comparable, list_beq,
}
use openpilot9xxcivic.Video.Bits.{
  Bytes, Error, video_file_invalid, value_error, index_error, Result, ok, err, ◌>>=◌, get_ue,
}

abbrev pub nal_unit_start_code : Bytes
nal_unit_start_code = 0 ∷ 0 ∷ 1 ∷ []

-- `HEVC_PARAMETER_SET_NAL_UNITS`: VPS_NUT, SPS_NUT and PPS_NUT.
abbrev pub parameter_set_nal_units : List ℕ
parameter_set_nal_units = 32 ∷ 33 ∷ 34 ∷ []

-- `HEVC_CODED_SLICE_SEGMENT_NAL_UNITS`: TRAIL_N to RASL_R, and BLA_W_LP to CRA_NUT.
abbrev pub coded_slice_segment_nal_units : List ℕ
coded_slice_segment_nal_units =
    0 ∷ 1 ∷ 2 ∷ 3 ∷ 4 ∷ 5 ∷ 6 ∷ 7 ∷ 8 ∷ 9 ∷ 16 ∷ 17 ∷ 18 ∷ 19 ∷ 20 ∷ 21 ∷ []

-- Whether the start code stands at the head.
unfoldable pub has_start_code : Bytes → Bool
has_start_code dat = list_beq (take 3 dat) nal_unit_start_code

unfoldable pub require_nal_unit_start : Bytes → (nal_unit_start : ℕ) → Result Bool
unfolding has_start_code
require_nal_unit_start dat nal_unit_start =
    if ltb nal_unit_start 1
    then err value_error
    else if has_start_code (drop nal_unit_start dat)
    then ok true
    else err video_file_invalid

-- `dat.index(NAL_UNIT_START_CODE)`: how far the first start code is from the head.
unfoldable pub index : Bytes → Option ℕ
unfolding has_start_code
index [] = none
index (b ∷ dat) =
    let rest = Option.map (λ i. i + 1) (index dat) in
    if has_start_code (b ∷ dat) then some 0 else rest

-- The bytes up to the next start code, or to the end.
abbrev pub length_up_to : (dat_len nal_unit_start : ℕ) → Option ℕ → ℕ
length_up_to dat_len nal_unit_start none = dat_len - nal_unit_start
length_up_to dat_len nal_unit_start (some i) = nal_unit_start + 3 + i - nal_unit_start

unfoldable pub get_hevc_nal_unit_length : Bytes → (nal_unit_start : ℕ) → ℕ
unfolding index
get_hevc_nal_unit_length dat nal_unit_start =
    length_up_to (length dat) nal_unit_start (index (drop (nal_unit_start + 3) dat))

abbrev pub header_type : Bytes → Result ℕ
header_type (a ∷ b ∷ []) = ok (a / 2 % 64)
header_type _ = err video_file_invalid

unfoldable pub get_hevc_nal_unit_type : Bytes → (nal_unit_start : ℕ) → Result ℕ
get_hevc_nal_unit_type dat nal_unit_start = header_type (take 2 (drop (nal_unit_start + 3) dat))

-- `dat[i]`
abbrev pub byte_at : Bytes → ℕ → Result ℕ
byte_at [] i = err index_error
byte_at (b ∷ dat) zero = ok b
byte_at (b ∷ dat) (suc i) = byte_at dat i

-- The slice type of a first slice, which `slice_type > 2` refuses.
abbrev pub checked_type : ℕ × ℕ → Result (ℤ × Bool)
checked_type (slice_type, size) =
    if ltb 2 slice_type then err video_file_invalid else ok (pos slice_type, true)

unfoldable pub first_slice_type : Bytes → (rbsp_start skip_bits : ℕ) → Result (ℤ × Bool)
first_slice_type dat rbsp_start skip_bits = get_ue dat rbsp_start skip_bits >>= λ r.
    get_ue dat rbsp_start (skip_bits + r.1) >>= checked_type

-- The slice type, or -1, and whether the slice is the first one of its picture.
unfoldable pub get_hevc_slice_type : Bytes → (nal_unit_start nal_unit_type : ℕ) → Result (ℤ × Bool)
unfolding first_slice_type
get_hevc_slice_type dat nal_unit_start nal_unit_type =
    let rbsp_start = nal_unit_start + 3 + 2 in
    byte_at dat rbsp_start >>= λ b.
    if nat_beq (b / 128 % 2) 1
    then first_slice_type dat rbsp_start
        (if leb 16 nal_unit_type && leb nal_unit_type 23 then 2 else 1)
    else ok (negsuc 0, false)

-- What `hevc_index` has found so far: the frames with their slice types and offsets, and the parameter
-- sets.
pub record Index : Type 0 where
  pub frame_types : List (ℤ × ℕ)
  pub prefix_dat : Bytes

abbrev pub add_frame : Index → ℕ → ℤ × Bool → Index
add_frame f i (slice_type, is_first_slice) =
    if is_first_slice then record f { frame_types = f.frame_types ++ (slice_type, i) ∷ [] } else f

unfoldable pub index_typed :
    Bytes → (i nal_unit_len : ℕ) → Index → (nal_unit_type : ℕ) → Result Index
unfolding get_hevc_slice_type
index_typed dat i nal_unit_len f nal_unit_type =
    if contains parameter_set_nal_units nal_unit_type
    then ok (record f { prefix_dat = f.prefix_dat ++ take nal_unit_len (drop i dat) })
    else if contains coded_slice_segment_nal_units nal_unit_type
    then (get_hevc_slice_type dat i nal_unit_type >>= λ t. ok (add_frame f i t))
    else ok f

-- One round of the loop: the unit at `i`, which is `nal_unit_len` bytes long.
unfoldable pub index_unit : Bytes → (i nal_unit_len : ℕ) → Index → Result Index
unfolding require_nal_unit_start get_hevc_nal_unit_type index_typed
index_unit dat i nal_unit_len f = require_nal_unit_start dat i >>= λ started.
    get_hevc_nal_unit_type dat i >>= index_typed dat i nal_unit_len f

-- How the loop ends: at the end of the data, by an exception in a round, or (only here) out of fuel.
pub data Ending : Type 0 where
  at_end : Ending
  raised : Error → Ending
  out_of_fuel : Ending

unfoldable pub index_loop : (fuel : ℕ) → Bytes → (i : ℕ) → Index → Index × Ending
unfolding index_unit get_hevc_nal_unit_length
index_loop zero dat i f = (f, out_of_fuel)
index_loop (suc fuel) dat i f =
    if ltb i (length dat)
    then (let nal_unit_len = get_hevc_nal_unit_length dat i in
        elim (index_unit dat i nal_unit_len f) [
          | ok next ↦ index_loop fuel dat (i + nal_unit_len) next
          | err e ↦ (f, raised e)
        ])
    else (f, at_end)

-- `none` is out of fuel.
unfoldable pub finish :
    (allow_corrupt : Bool) → (dat_len : ℕ) → Index × Ending → Option (Result (Index × ℕ))
finish allow_corrupt dat_len (f, at_end) = some (ok (f, dat_len))
finish allow_corrupt dat_len (f, raised e) = some (if allow_corrupt then ok (f, dat_len) else err e)
finish allow_corrupt dat_len (f, out_of_fuel) = none

abbrev pub starts_with_zero : Bytes → Bool
starts_with_zero [] = false
starts_with_zero (b ∷ bs) = nat_beq b 0

-- The data of the file, with a round of fuel for each byte.
unfoldable pub hevc_index : Bytes → (allow_corrupt : Bool) → Option (Result (Index × ℕ))
unfolding index_loop finish
hevc_index dat allow_corrupt =
    if ltb (length dat) 4 || not (starts_with_zero dat)
    then some (err video_file_invalid)
    else finish allow_corrupt (length dat)
        (index_loop (length dat) dat 1 (record { frame_types = []; prefix_dat = [] }))
