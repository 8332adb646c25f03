-- ===== src/Video/Tests.antt =====
-- A stream of a parameter set and two slices, and the theorems at it.
use openpilot9xxcivic.Prelude.{ℕ, ◌≡◌, false, Option, some, List, [], ◌∷◌, drop}
use openpilot9xxcivic.Video.Bits.{Bytes, Result, ok, err, video_file_invalid, get_ue}
use openpilot9xxcivic.Video.Golomb.{bits, decode, get_ue_lem}
use openpilot9xxcivic.Video.{Index, hevc_index}
use openpilot9xxcivic.Video.Units.{IsAnswer, hevc_index_lem}

-- The first slice of a picture is an I slice; the second one is not the first of its picture.
abbrev stream : Bytes
stream = 0 ∷ 0 ∷ 0 ∷ 1 ∷ 64 ∷ 1 ∷ 12 ∷ 0 ∷ 0 ∷ 1 ∷ 2 ∷ 1 ∷ 216 ∷ 0 ∷ 0 ∷ 1 ∷ 2 ∷ 1 ∷ 88 ∷ []

abbrev parts : Option (Result (Index × ℕ)) → List ℕ × ℕ
parts (some (ok (f, n))) = (f.prefix_dat, n)
parts _ = ([], 0)

get_ue_lem_example : get_ue stream 12 1 ≡ decode 0 (drop 1 (bits (drop 12 stream)))
get_ue_lem_example = get_ue_lem stream 12 1

-- The codes of the slice header: 0, and then 2 in three bits.
slice_header : (get_ue stream 12 1 ≡ ok (0, 1)) × (get_ue stream 12 2 ≡ ok (2, 3))
slice_header = (get_ue_lem stream 12 1, get_ue_lem stream 12 2)

no_code : get_ue (0 ∷ 0 ∷ []) 0 0 ≡ err video_file_invalid
no_code = get_ue_lem (0 ∷ 0 ∷ []) 0 0

hevc_index_lem_example :
    (a : Result (Index × ℕ)) × (hevc_index stream false ≡ some a) × IsAnswer stream false a
hevc_index_lem_example = hevc_index_lem stream false
