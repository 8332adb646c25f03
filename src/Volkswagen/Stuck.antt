-- ===== src/Volkswagen/Stuck.antt =====
-- The steering of selfdrive/car/volkswagen/carcontroller.py over the steering frames of a drive.
use openpilot9xxcivic.Prelude.{
  ℕ, ℤ, pos, neg, abs, milli, int_round, ◌*ℤ◌, ◌-ℤ◌, ◌≤ℤ◌, ltb_ℤ, ltb, ◌+◌, ◌*◌, ◌≤◌, ◌≡◌, refl,
  ◌⊎◌, ◌∙◌, Bool, true, false, ◌&&◌, if◌then◌else◌, List, [], ◌∷◌, arith, Bool-cases, inl, inr,
  -ℤ_parts, +ℤ_parts, neg_parts,
}
use openpilot9xxcivic.Clip.{Clip}
use openpilot9xxcivic.Limits.Bounds.{IsWithin, lower, upper}
use openpilot9xxcivic.Limits.Driver.{apply_driver_steer_torque_limits_bounds}
use openpilot9xxcivic.Volkswagen.Controller.{
  params, Hca, SteerInput, init_hca, int_eq, toward_zero, avoid_stuck, limited_torque,
  steering_frame, steer_step, stuck_frames, alert_frames,
}

module _ (np : Clip) (pq : Bool) where
  -- The fields after the steering frames of a drive, the last one first.
  unfoldable pub after : List SteerInput → Hca
  unfolding init_hca steering_frame
  after [] = init_hca
  after (c ∷ earlier) = (steering_frame np pq c (after earlier)).0

  abbrev pub command : List SteerInput → ℤ
  command frames = (after frames).apply_steer_last

  -- The last frames in a row with lateral control on and one command.
  abbrev pub same_run : List SteerInput → ℕ
  same_run [] = 0
  same_run (c ∷ cs) =
      if c.lat_active
      then (if int_eq (command cs) (command (c ∷ cs)) then same_run cs + 1 else 1)
      else 0

  -- The last frames in a row in which the rack was to steer.
  abbrev pub steering_run : List SteerInput → ℕ
  steering_run [] = 0
  steering_run (c ∷ cs) =
      if c.lat_active && ltb 0 (abs (command (c ∷ cs))) then steering_run cs + 1 else 0

zero-IsWithin : IsWithin (pos 300) (pos 0)
unfolding neg
zero-IsWithin = ground arith

-- The stuck torque is moved, and by one.
moved_ne : (x y : ℤ) → int_eq x y ≡ true → int_eq x (y -ℤ toward_zero y) ≡ false
moved_ne x y h = ground (arith, -ℤ_parts y (toward_zero y), neg_parts (pos 1))

avoid_stuck_lem :
    (limited : ℤ) (s : Hca)
    → s.hca_frame_same_torque ≤ stuck_frames
    → let out = avoid_stuck limited s in
      (out.1 ≤ stuck_frames)
      × (int_eq s.apply_steer_last out.0 ≡ true → s.hca_frame_same_torque + 2 ≤ out.1)
unfolding avoid_stuck
avoid_stuck_lem limited s h = elim (Bool-cases (int_eq s.apply_steer_last limited)) [
  | inl same ↦ elim (Bool-cases (ltb stuck_frames (s.hca_frame_same_torque + steer_step))) [
    | inl stuck ↦
        rw (same, stuck)
          (omega arith, λ e. absurd (ground (arith, e, moved_ne s.apply_steer_last limited same)))
    | inr free ↦ rw (same, free) (ground arith, λ e. omega arith)
  ]
  | inr new ↦ rw new (omega arith, λ e. absurd (ground arith))
]

double : (b : Bool) (n m : ℕ) → n ≡ m * 2 → (if b then n + 2 else 0) ≡ (if b then m + 1 else 0) * 2
double b n m h = ground arith

-- A command within the rate stays so when it is moved.
moved_rate :
    (last x up : ℤ)
    → int_eq last x ≡ true
    → pos 1 ≤ℤ up
    → IsWithin (pos 300) x
    → let y = x -ℤ toward_zero x in
      IsWithin (pos 300) y × (lower last up (pos 10) ≤ℤ y) × (y ≤ℤ upper last up (pos 10))
moved_rate last x up e u b = elim (Bool-cases (ltb_ℤ x (pos 0))) [
  | inl low ↦ rw low (
      ground (
        arith,
        -ℤ_parts x (neg (pos 1)),
        neg_parts (pos 1),
        neg_parts (pos 300),
        neg_parts up,
        -ℤ_parts last up,
        -ℤ_parts last (pos 10),
        +ℤ_parts last up,
        +ℤ_parts last (pos 10),
      ))
  | inr high ↦ rw high (
      ground (
        arith,
        -ℤ_parts x (pos 1),
        neg_parts (pos 300),
        neg_parts up,
        -ℤ_parts last up,
        -ℤ_parts last (pos 10),
        +ℤ_parts last up,
        +ℤ_parts last (pos 10),
      ))
]

-- The run of frames with one command against the counter of the source.
count_lem :
    (on eq : Bool) (run same next : ℕ)
    → run * 2 ≤ same + 2
    → (on ≡ true → eq ≡ true → same + 2 ≤ next)
    → (if on then (if eq then run + 1 else 1) else 0) * 2 ≤ next + 2
count_lem true true run same next h k = omega (arith, k refl refl)
count_lem true false run same next h k = omega arith
count_lem false eq run same next h k = omega arith

module _ (np : Clip) (pq : Bool) where
  step_lem :
      (c : SteerInput) (s : Hca)
      → s.hca_frame_same_torque ≤ stuck_frames
      → let next = (steering_frame np pq c s).0 in
        (next.hca_frame_same_torque ≤ stuck_frames)
        × (c.lat_active ≡ true
            → int_eq s.apply_steer_last next.apply_steer_last ≡ true
            → s.hca_frame_same_torque + 2 ≤ next.hca_frame_same_torque)
  unfolding steering_frame
  step_lem c s h =
      let m = avoid_stuck_lem (limited_torque np pq c s) s h in
      elim (Bool-cases c.lat_active) [
        | inl on ↦ rw on (m.0, λ a e. m.1 e)
        | inr off ↦ rw off (h, λ a e. absurd (ground arith))
      ]

  run_lem :
      (frames : List SteerInput)
      → ((after np pq frames).hca_frame_same_torque ≤ stuck_frames)
        × (same_run np pq frames * 2 ≤ (after np pq frames).hca_frame_same_torque + 2)
  unfolding after init_hca
  run_lem [] = (omega arith, omega arith)
  run_lem (c ∷ cs) =
      let r = run_lem cs in
      let st = step_lem c (after np pq cs) r.0 in
      (
        st.0,
        count_lem c.lat_active (int_eq (command np pq cs) (command np pq (c ∷ cs)))
            (same_run np pq cs) (after np pq cs).hca_frame_same_torque
            (after np pq (c ∷ cs)).hca_frame_same_torque r.1 st.1,
      )

  -- In no run of steering frames with lateral control on is one torque commanded in more than 96 frames
  -- in a row, which are 1.92 s at 50 Hz.
  pub same_run-le : (frames : List SteerInput) → same_run np pq frames ≤ 96
  same_run-le frames = omega (arith, run_lem frames)

  timer_lem :
      (frames : List SteerInput)
      → (after np pq frames).hca_frame_timer_running ≡ steering_run np pq frames * 2
  unfolding after init_hca steering_frame
  timer_lem [] = refl
  timer_lem (c ∷ cs) =
      double (c.lat_active && ltb 0 (abs (command np pq (c ∷ cs))))
        (after np pq cs).hca_frame_timer_running (steering_run np pq cs) (timer_lem cs)

  alert_eq :
      (c : SteerInput) (cs : List SteerInput)
      → (after np pq (c ∷ cs)).eps_timer_soft_disable_alert
        ≡ ltb alert_frames (after np pq (c ∷ cs)).hca_frame_timer_running
  unfolding after steering_frame
  alert_eq c cs = refl

  alert_lem :
      (c : SteerInput) (cs : List SteerInput)
      → (after np pq (c ∷ cs)).eps_timer_soft_disable_alert
        ≡ ltb 17500 (steering_run np pq (c ∷ cs))
  alert_lem c cs = alert_eq c cs ∙ half (steering_run np pq (c ∷ cs)) _ (timer_lem (c ∷ cs))
    where
      half : (n t : ℕ) → t ≡ n * 2 → ltb alert_frames t ≡ ltb 17500 n
      half n t h = ground arith

  avoid_rate :
      (limited : ℤ) (s : Hca) (up : ℤ)
      → pos 1 ≤ℤ up
      → IsWithin (pos 300) limited
      → (lower s.apply_steer_last up (pos 10) ≤ℤ limited)
        × (limited ≤ℤ upper s.apply_steer_last up (pos 10))
      → IsWithin (pos 300) (avoid_stuck limited s).0
        × (lower s.apply_steer_last up (pos 10) ≤ℤ (avoid_stuck limited s).0)
        × ((avoid_stuck limited s).0 ≤ℤ upper s.apply_steer_last up (pos 10))
  unfolding avoid_stuck
  avoid_rate limited s up u b r = elim (Bool-cases (int_eq s.apply_steer_last limited)) [
    | inl same ↦ elim (Bool-cases (ltb stuck_frames (s.hca_frame_same_torque + steer_step))) [
      | inl stuck ↦ rw (same, stuck) (moved_rate s.apply_steer_last limited up same u b)
      | inr free ↦ rw (same, free) (b, r.0, r.1)
    ]
    | inr new ↦ rw new (b, r.0, r.1)
  ]

  frame_lem :
      (c : SteerInput) (s : Hca)
      → IsWithin (pos 300) s.apply_steer_last
      → let next = (steering_frame np pq c s).0.apply_steer_last in
        let up : ℤ = pos (if pq then 6 else 4) in
        IsWithin (pos 300) next
        × ((c.lat_active ≡ false) × (next ≡ pos 0)
            ⊎ (c.lat_active ≡ true)
              × (lower s.apply_steer_last up (pos 10) ≤ℤ next)
              × (next ≤ℤ upper s.apply_steer_last up (pos 10)))
  unfolding steering_frame limited_torque params
  frame_lem c s h = elim (Bool-cases c.lat_active) [
    | inl on ↦
        let b =
          apply_driver_steer_torque_limits_bounds np
            (milli (int_round (c.steer *ℤ pos (params pq).steer_max))) s.apply_steer_last
            c.steering_torque (params pq) h in
        let m =
          avoid_rate (limited_torque np pq c s) s (pos (if pq then 6 else 4)) (ground arith) b.0
            (b.1, b.2) in
        rw on (m.0, inr (refl, m.1, m.2))
    | inr off ↦ rw off (zero-IsWithin, inl (refl, refl))
  ]

  command-IsWithin : (frames : List SteerInput) → IsWithin (pos 300) (command np pq frames)
  unfolding after init_hca
  command-IsWithin [] = zero-IsWithin
  command-IsWithin (c ∷ cs) = (frame_lem c (after np pq cs) (command-IsWithin cs)).0

  -- In each steering frame of a drive the command is within 300 of 0, and 0 while lateral control is
  -- off; while it is on the command rises in magnitude by 4 at most (by 6 on a PQ network) and falls by
  -- 10 at most from one frame to the next. The alert of the rack's timer is on exactly if the rack was
  -- to steer in more than 17500 frames in a row up to this one, which are 350 s.
  pub steering_frame_lem :
      (c : SteerInput) (earlier : List SteerInput)
      → let s = after np pq earlier in
        let next = (steering_frame np pq c s).0 in
        let up : ℤ = pos (if pq then 6 else 4) in
        (IsWithin (pos 300) next.apply_steer_last)
        × ((c.lat_active ≡ false) × (next.apply_steer_last ≡ pos 0)
            ⊎ (c.lat_active ≡ true)
              × (lower s.apply_steer_last up (pos 10) ≤ℤ next.apply_steer_last)
              × (next.apply_steer_last ≤ℤ upper s.apply_steer_last up (pos 10)))
        × (next.eps_timer_soft_disable_alert ≡ ltb 17500 (steering_run np pq (c ∷ earlier)))
  unfolding after
  steering_frame_lem c earlier =
      let f = frame_lem c (after np pq earlier) (command-IsWithin earlier) in
      (f.0, f.1, alert_lem c earlier)
