-- ===== src/Interfaces/Blinkers.antt =====
-- The blinker filters of `CarStateBase` in selfdrive/car/interfaces.py.
use openpilot9xxcivic.Prelude.{
  ℕ, zero, suc, ◌+◌, ◌-◌, ◌≡◌, refl, ap, ◌≤◌, Bool, true, false, not, ◌&&◌, ◌||◌, ltb,
  if◌then◌else◌, List, [], ◌∷◌, any, take, arith,
}

-- The fields of `CarStateBase` that the filters read and write.
pub record Blinkers : Type 0 where
  pub left_blinker_cnt : ℕ
  pub right_blinker_cnt : ℕ
  pub left_blinker_prev : Bool
  pub right_blinker_prev : Bool

abbrev pub off : Blinkers
off = record {
  left_blinker_cnt = 0;
  right_blinker_cnt = 0;
  left_blinker_prev = false;
  right_blinker_prev = false;
}

-- The new state, and the two blinkers returned. `max(n - 1, 0)` is the subtraction of ℕ.
unfoldable pub update_blinker_from_lamp :
    (blinker_time : ℕ) (left_blinker_lamp right_blinker_lamp : Bool)
    → Blinkers
    → Blinkers × Bool × Bool
update_blinker_from_lamp blinker_time left_blinker_lamp right_blinker_lamp s =
    let left : ℕ = if left_blinker_lamp then blinker_time else s.left_blinker_cnt - 1 in
    let right : ℕ = if right_blinker_lamp then blinker_time else s.right_blinker_cnt - 1 in
    (record s { left_blinker_cnt = left; right_blinker_cnt = right }, ltb 0 left, ltb 0 right)

unfoldable pub update_blinker_from_stalk :
    (blinker_time : ℕ) (left_blinker_stalk right_blinker_stalk : Bool)
    → Blinkers
    → Blinkers × Bool × Bool
update_blinker_from_stalk blinker_time left_blinker_stalk right_blinker_stalk s =
    let right_1 : ℕ = if left_blinker_stalk then 0 else s.right_blinker_cnt in
    let left_1 : ℕ =
      if left_blinker_stalk && not s.left_blinker_prev then blinker_time else s.left_blinker_cnt in
    let left_2 : ℕ = if right_blinker_stalk then 0 else left_1 in
    let right_2 : ℕ =
      if right_blinker_stalk && not s.right_blinker_prev then blinker_time else right_1 in
    let left : ℕ = left_2 - 1 in
    let right : ℕ = right_2 - 1 in
    (
      record s {
        left_blinker_cnt = left;
        right_blinker_cnt = right;
        left_blinker_prev = left_blinker_stalk;
        right_blinker_prev = right_blinker_stalk;
      },
      left_blinker_stalk || ltb 0 left,
      right_blinker_stalk || ltb 0 right,
    )

-- The frames of a run, the last one first: the state after them.
unfoldable pub lamp_frames : (blinker_time : ℕ) → List (Bool × Bool) → Blinkers
unfolding update_blinker_from_lamp
lamp_frames blinker_time [] = off
lamp_frames blinker_time ((left, right) ∷ earlier) =
    (update_blinker_from_lamp blinker_time left right (lamp_frames blinker_time earlier)).0

-- The counter is what is left of `blinker_time` since the lamp was last seen.
abbrev pub left_lamp : Bool × Bool → Bool
left_lamp (left, right) = left

abbrev pub right_lamp : Bool × Bool → Bool
right_lamp (left, right) = right

-- What is left of `n` frames after the last one where the lamp was seen.
abbrev pub rest_of : (Bool × Bool → Bool) → ℕ → List (Bool × Bool) → ℕ
rest_of lamp n [] = 0
rest_of lamp n (f ∷ fs) = if lamp f then n else rest_of lamp n fs - 1

rest_of_le : (lamp : Bool × Bool → Bool) (n : ℕ) (fs : List (Bool × Bool)) → rest_of lamp n fs ≤ n
rest_of_le lamp n [] = ground arith
rest_of_le lamp n (f ∷ fs) = ground (arith, rest_of_le lamp n fs)

rest_of-any :
    (lamp : Bool × Bool → Bool) (n k : ℕ) (frames : List (Bool × Bool))
    → ltb 0 (rest_of lamp (n + k) frames - k) ≡ any lamp (take n frames)
rest_of-any lamp zero k [] = ground arith
rest_of-any lamp zero k (f ∷ fs) = ground (arith, rest_of_le lamp k (f ∷ fs))
rest_of-any lamp (suc n) k [] = ground arith
rest_of-any lamp (suc n) k (f ∷ fs) = ground (arith, rest_of-any lamp n (k + 1) fs)

lamp_cnt :
    (n : ℕ) (frames : List (Bool × Bool))
    → ((lamp_frames n frames).left_blinker_cnt ≡ rest_of left_lamp n frames)
      × ((lamp_frames n frames).right_blinker_cnt ≡ rest_of right_lamp n frames)
unfolding lamp_frames update_blinker_from_lamp
lamp_cnt n [] = (refl, refl)
lamp_cnt n ((left, right) ∷ fs) = ground (arith, lamp_cnt n fs)

-- A blinker is on exactly if its lamp was seen within the last `blinker_time` frames.
pub update_blinker_from_lamp_lem :
    (blinker_time : ℕ) (left right : Bool) (earlier : List (Bool × Bool))
    → let out =
        update_blinker_from_lamp blinker_time left right (lamp_frames blinker_time earlier) in
      (out.1 ≡ any left_lamp (take blinker_time ((left, right) ∷ earlier)))
      × (out.2 ≡ any right_lamp (take blinker_time ((left, right) ∷ earlier)))
unfolding update_blinker_from_lamp
update_blinker_from_lamp_lem n left right earlier = ground (
  arith,
  lamp_cnt n earlier,
  rest_of-any left_lamp n 0 ((left, right) ∷ earlier),
  rest_of-any right_lamp n 0 ((left, right) ∷ earlier),
)

-- Frames with the stalk off, run one after the other: the left blinker in each.
unfoldable pub released : (blinker_time n : ℕ) → Blinkers → List Bool
unfolding update_blinker_from_stalk
released blinker_time zero s = []
released blinker_time (suc n) s =
    let out = update_blinker_from_stalk blinker_time false false s in
    out.1 ∷ released blinker_time n out.0

-- The `n` frames of a count-down from `c`.
abbrev pub countdown : (c n : ℕ) → List Bool
countdown c zero = []
countdown c (suc n) = ltb 1 c ∷ countdown (c - 1) n

released_lem : (t n : ℕ) (s : Blinkers) → released t n s ≡ countdown s.left_blinker_cnt n
unfolding released update_blinker_from_stalk
released_lem t zero s = refl
released_lem t (suc n) s = ground (
  arith,
  ap (λ l. ltb 1 s.left_blinker_cnt ∷ l)
      (released_lem t n (update_blinker_from_stalk t false false s).0),
)

-- After a touch of the left stalk in one frame, with the stalk off before and after, the left blinker
-- is on in that frame and in the `blinker_time - 2` frames that follow and no longer, and the right
-- one is off in that frame with its counter at 0.
pub update_blinker_from_stalk_touch :
    (blinker_time n : ℕ) (s : Blinkers)
    → s.left_blinker_prev ≡ false
    → let out = update_blinker_from_stalk blinker_time true false s in
      (out.1 ≡ true)
      × (out.2 ≡ false)
      × (out.0.right_blinker_cnt ≡ 0)
      × (released blinker_time n out.0 ≡ countdown (blinker_time - 1) n)
unfolding update_blinker_from_stalk
update_blinker_from_stalk_touch t n s h =
    ground (arith, released_lem t n (update_blinker_from_stalk t true false s).0)
