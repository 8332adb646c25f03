-- ===== src/Interfaces/Faults.antt =====
-- The warnings of `create_common_events` of selfdrive/car/interfaces.py about a temporary steering
-- fault, over the frames of a drive.
use openpilot9xxcivic.Prelude.{
  ℕ, zero, suc, ◌+◌, ◌≡◌, refl, sym, ap, ◌∙◌, Bool, true, false, not, ◌&&◌, ◌||◌, ltb,
  if◌then◌else◌, List, [], ◌∷◌, all, arith,
}
use openpilot9xxcivic.Interfaces.Events.{
  Warnings, recent_frames, steer_fault_events, steer_temp_unavailable,
  steer_temp_unavailable_silent,
}

-- What the warnings depend on in a frame.
pub record Frame : Type 0 where
  pub fault : Bool
  pub pressed : Bool
  pub standstill : Bool

abbrev pub last_fault : List Frame → Bool
last_fault [] = false
last_fault (f ∷ fs) = f.fault

-- The fields that `CarInterfaceBase.__init__` sets.
unfoldable pub init : Warnings
init = record { steering_unpressed = 0; no_steer_warning = false; silent_steer_warning = true }

-- The frames of a drive, the last one first: `update` leaves its frame in `self.CS.out` for the next.
unfoldable pub after : List Frame → Warnings
unfolding init steer_fault_events
after [] = init
after (f ∷ fs) = (steer_fault_events f.fault f.pressed f.standstill (last_fault fs) (after fs)).0

-- The frames of the fault that lasts up to the last frame.
abbrev pub episode : List Frame → List Frame
episode [] = []
episode (f ∷ fs) = if f.fault then f ∷ episode fs else []

abbrev pub is_pressed : Frame → Bool
is_pressed f = f.pressed

-- The driver has held the wheel since the fault began.
abbrev pub is_held : List Frame → Bool
is_held fs = all is_pressed (episode fs)

-- The last `n` frames were there, and none had the wheel pressed.
abbrev pub is_calm : ℕ → List Frame → Bool
is_calm zero fs = true
is_calm (suc n) [] = false
is_calm (suc n) (f ∷ fs) = not f.pressed && is_calm n fs

-- In the fault up to the last frame there was a frame with a warning at standstill, or less than
-- `recent_frames` frames after the driver pressed the wheel; or the fault is there since the start.
abbrev pub is_softened : List Frame → Bool
is_softened [] = true
is_softened (f ∷ fs) =
    f.fault
    && (is_softened fs
        || not (is_held (f ∷ fs)) && (f.standstill || not (is_calm recent_frames (f ∷ fs))))

-- One call, by what it leaves and what it adds.
abbrev pub holds : (pressed last : Bool) → Warnings → Bool
holds pressed last w = pressed && (not last || w.no_steer_warning)

abbrev pub softens : (pressed standstill last : Bool) → Warnings → Bool
softens pressed standstill last w =
    w.silent_steer_warning
    || not (holds pressed last w)
      && (standstill || ltb (if pressed then 0 else w.steering_unpressed + 1) recent_frames)

step_lem :
    (fault pressed standstill last : Bool) (w : Warnings)
    → let out = steer_fault_events fault pressed standstill last w in
      (out.0.steering_unpressed ≡ (if pressed then 0 else w.steering_unpressed + 1))
      × (out.0.no_steer_warning ≡ (fault && holds pressed last w))
      × (out.0.silent_steer_warning ≡ (fault && softens pressed standstill last w))
      × (out.1 ≡ (
          if fault && not (holds pressed last w)
          then (if softens pressed standstill last w
              then steer_temp_unavailable_silent
              else steer_temp_unavailable)
            ∷ []
          else []))
unfolding steer_fault_events
step_lem true true standstill last w = ground arith
step_lem true false standstill last w = ground arith
step_lem false pressed standstill last w = ground arith

unpressed-calm :
    (n : ℕ) (fs : List Frame) → ltb (after fs).steering_unpressed n ≡ not (is_calm n fs)
unfolding after init
unpressed-calm zero fs = ground arith
unpressed-calm (suc n) [] = ground arith
unpressed-calm (suc n) (f ∷ fs) =
    ground (
      arith,
      step_lem f.fault f.pressed f.standstill (last_fault fs) (after fs),
      unpressed-calm n fs,
    )

recent-calm :
    (f : Frame) (fs : List Frame)
    → ltb (if f.pressed then 0 else (after fs).steering_unpressed + 1) recent_frames
      ≡ not (is_calm recent_frames (f ∷ fs))
unfolding after
recent-calm f fs =
    ap (λ n. ltb n recent_frames)
      (sym (step_lem f.fault f.pressed f.standstill (last_fault fs) (after fs)).0)
    ∙ unpressed-calm recent_frames (f ∷ fs)

held_step :
    (f : Frame) (fs : List Frame) (w : Warnings)
    → w.no_steer_warning ≡ (last_fault fs && is_held fs)
    → (f.fault && holds f.pressed (last_fault fs) w) ≡ (f.fault && is_held (f ∷ fs))
held_step f [] w h = ground arith
held_step f (g ∷ fs) w h = ground arith

-- The same condition under a fault, with its parts read off the history.
softened_step :
    (fault h h' s s' still r c : Bool)
    → (fault && h) ≡ (fault && h')
    → s ≡ s'
    → r ≡ not c
    → (fault && (s || not h && (still || r))) ≡ (fault && (s' || not h' && (still || not c)))
softened_step true h h' s s' still r c p q e = rw (p, q, e) refl
softened_step false h h' s s' still r c p q e = refl

flags_step :
    (f : Frame) (fs : List Frame)
    → (after fs).no_steer_warning ≡ (last_fault fs && is_held fs)
    → (after fs).silent_steer_warning ≡ is_softened fs
    → ((f.fault && holds f.pressed (last_fault fs) (after fs)) ≡ (f.fault && is_held (f ∷ fs)))
      × ((f.fault && softens f.pressed f.standstill (last_fault fs) (after fs))
          ≡ is_softened (f ∷ fs))
flags_step f fs h s =
    let held = held_step f fs (after fs) h in
    (held, softened_step f.fault _ _ _ _ f.standstill _ _ held s (recent-calm f fs))

flags :
    (fs : List Frame)
    → ((after fs).no_steer_warning ≡ (last_fault fs && is_held fs))
      × ((after fs).silent_steer_warning ≡ is_softened fs)
unfolding after init
flags [] = (refl, refl)
flags (f ∷ fs) =
    let st = step_lem f.fault f.pressed f.standstill (last_fault fs) (after fs) in
    let next = flags_step f fs (flags fs).0 (flags fs).1 in (st.1 ∙ next.0, st.2 ∙ next.1)

-- A frame of a temporary steering fault warns, unless the driver has held the wheel since the fault
-- began. The warning is the silent one exactly if the fault is there since the first frame of the
-- drive, or some warning of this fault so far, this one included, came at standstill or with less than
-- 150 frames in a row up to it in which the wheel was not pressed.
pub steer_fault_events_lem :
    (f : Frame) (fs : List Frame)
    → (steer_fault_events f.fault f.pressed f.standstill (last_fault fs) (after fs)).1 ≡ (
        if f.fault && not (is_held (f ∷ fs))
        then (if is_softened (f ∷ fs)
            then steer_temp_unavailable_silent
            else steer_temp_unavailable)
          ∷ []
        else [])
steer_fault_events_lem f fs =
    let st = step_lem f.fault f.pressed f.standstill (last_fault fs) (after fs) in
    let next = flags_step f fs (flags fs).0 (flags fs).1 in
    st.3 ∙ same f.fault _ _ _ _ next.0 next.1
  where
    same :
        (fault h h' s s' : Bool)
        → (fault && h) ≡ (fault && h')
        → (fault && s) ≡ s'
        → (if fault && not h
            then (if s then steer_temp_unavailable_silent else steer_temp_unavailable) ∷ []
            else [])
          ≡ (if fault && not h'
              then (if s' then steer_temp_unavailable_silent else steer_temp_unavailable) ∷ []
              else [])
    same true h h' s s' p q = rw (p, q) refl
    same false h h' s s' p q = refl
