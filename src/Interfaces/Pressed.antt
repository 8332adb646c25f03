-- ===== src/Interfaces/Pressed.antt =====
-- `CarStateBase.update_steering_pressed` of selfdrive/car/interfaces.py.
use openpilot9xxcivic.Prelude.{
  ℕ, zero, suc, ℤ, pos, neg, ◌+◌, ◌*◌, ◌-◌, ◌≤◌, ◌<◌, ◌≡◌, refl, ◌∙◌, ◌+ℤ◌, ltb_ℤ, +ℤ_parts,
  neg_parts, eq_of_parts, Bool, true, false, if◌then◌else◌, List, [], ◌∷◌, arith, ltb,
}
use openpilot9xxcivic.Clip.{Clip, clip_lem}

module _ (np : Clip) where
  -- The new counter, and what is returned.
  unfoldable pub update_steering_pressed :
      (steering_pressed : Bool) (steering_pressed_min_count : ℕ) → ℤ → ℤ × Bool
  update_steering_pressed steering_pressed steering_pressed_min_count steering_pressed_cnt =
      let counted = steering_pressed_cnt +ℤ (if steering_pressed then pos 1 else neg (pos 1)) in
      let cnt = np.clip counted (pos 0) (pos (steering_pressed_min_count * 2)) in
      (cnt, ltb_ℤ (pos steering_pressed_min_count) cnt)

  -- The frames of a run from the counter of `__init__`, the last one first.
  unfoldable pub pressed_frames : (steering_pressed_min_count : ℕ) → List Bool → ℤ
  unfolding update_steering_pressed
  pressed_frames steering_pressed_min_count [] = pos 0
  pressed_frames steering_pressed_min_count (pressed ∷ earlier) =
      (update_steering_pressed pressed steering_pressed_min_count
        (pressed_frames steering_pressed_min_count earlier)).0

-- The filter on ℕ: a counter between 0 and `2 * m`.
abbrev pub count : (pressed : Bool) (m l : ℕ) → ℕ
count true m l = if ltb l (m * 2) then l + 1 else l
count false m l = l - 1

abbrev pub level : (m : ℕ) → List Bool → ℕ
level m [] = 0
level m (pressed ∷ fs) = count pressed m (level m fs)

level_le : (m : ℕ) (fs : List Bool) → level m fs ≤ m * 2
level_le m [] = ground arith
level_le m (true ∷ fs) = ground (arith, level_le m fs)
level_le m (false ∷ fs) = ground (arith, level_le m fs)

-- The counter after `n` frames of one kind, that follow the frames `fs`.
abbrev pub held_for : Bool → ℕ → List Bool → List Bool
held_for pressed zero fs = fs
held_for pressed (suc n) fs = pressed ∷ held_for pressed n fs

level_pressed : (m n k : ℕ) (fs : List Bool) → k ≤ n → k ≤ m * 2 → k ≤ level m (held_for true n fs)
level_pressed m zero k fs h b = ground arith
level_pressed m (suc n) k fs h b = ground (arith, level_pressed m n (k - 1) fs)

level_released : (m n : ℕ) (fs : List Bool) → level m (held_for false n fs) ≤ m * 2 - n
level_released m zero fs = ground (arith, level_le m fs)
level_released m (suc n) fs = ground (arith, level_released m n fs)

module _ (np : Clip) where
  pressed_step :
      (pressed : Bool) (m l : ℕ)
      → l ≤ m * 2
      → (update_steering_pressed np pressed m (pos l)).0 ≡ pos (count pressed m l)
  unfolding update_steering_pressed
  pressed_step true m l h =
      rw (clip_lem np (pos l +ℤ pos 1) (pos 0) (pos (m * 2)) (ground arith))
        (ground (arith, +ℤ_parts (pos l) (pos 1)))
  pressed_step false m l h =
      rw (clip_lem np (pos l +ℤ neg (pos 1)) (pos 0) (pos (m * 2)) (ground arith)) (
        ground (
          arith,
          +ℤ_parts (pos l) (neg (pos 1)),
          neg_parts (pos 1),
          eq_of_parts (pos l +ℤ neg (pos 1)) (pos (l - 1)),
        ))

  pressed_frames-level : (m : ℕ) (fs : List Bool) → pressed_frames np m fs ≡ pos (level m fs)
  unfolding pressed_frames
  pressed_frames-level m [] = refl
  pressed_frames-level m (p ∷ fs) =
      rw (pressed_frames-level m fs) (pressed_step p m (level m fs) (level_le m fs))

  second :
      (p : Bool) (m l : ℕ)
      → l ≤ m * 2
      → (update_steering_pressed np p m (pos l)).1 ≡ ltb m (count p m l)
  unfolding update_steering_pressed
  second p m l h = rw (pressed_step p m l h) (ground arith)

  output :
      (p : Bool) (m : ℕ) (fs : List Bool)
      → (update_steering_pressed np p m (pressed_frames np m fs)).1 ≡ ltb m (level m (p ∷ fs))
  output p m fs = rw (pressed_frames-level m fs) (second p m (level m fs) (level_le m fs))

  -- Whatever the frames before, the wheel counts as pressed from the frame on with which the torque
  -- has been there for more than `steering_pressed_min_count` frames in a row (which is not 0), and as
  -- released from the frame on with which it has been away for that many.
  pub update_steering_pressed_debounce :
      (m n : ℕ) (fs : List Bool)
      → 0 < m
      → m ≤ n
      → ((update_steering_pressed np true m (pressed_frames np m (held_for true n fs))).1 ≡ true)
        × ((update_steering_pressed np false m (pressed_frames np m (held_for false (n - 1) fs))).1
            ≡ false)
  update_steering_pressed_debounce m n fs p h = (
    output true m (held_for true n fs) ∙ ground (arith, level_pressed m (n + 1) (m + 1) fs),
    output false m (held_for false (n - 1) fs) ∙ ground (arith, level_released m (n - 1) fs),
  )
