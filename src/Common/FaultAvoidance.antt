-- ===== src/Common/FaultAvoidance.antt =====
-- `common_fault_avoidance` of selfdrive/car/__init__.py.
use native.Mathlib.Nat.{mod-add-mod, mod-lt, mod_self, mod-eq_of_lt}
use openpilot9xxcivic.Prelude.{
  ℕ, zero, suc, ◌+◌, ◌%◌, ◌≤◌, ◌<◌, ◌≡◌, refl, ap, Bool, true, false, ◌&&◌, ltb, leb, if◌then◌else◌,
  List, [], ◌∷◌, arith,
}

-- The new counter, and whether the request bit is sent. `max_frames` and `mismatching` are the two
-- limits of the source, `max_above_limit_frames` and `max_mismatching_frames`.
unfoldable pub common_fault_avoidance :
    (fault_condition request : Bool) (above_limit_frames max_frames mismatching : ℕ) → ℕ × Bool
common_fault_avoidance fault_condition request above_limit_frames max_frames mismatching =
    let counter = if request && fault_condition then above_limit_frames + 1 else 0 in
    let sent = if ltb max_frames counter then false else request in
    (if leb (max_frames + mismatching) counter then 0 else counter, sent)

-- The control loop: one call a frame, each with the counter that the last one left.
unfoldable pub sent_bits : (max_frames mismatching counter : ℕ) → List (Bool × Bool) → List Bool
sent_bits max_frames mismatching counter [] = []
sent_bits max_frames mismatching counter ((fault, request) ∷ frames) =
    let (counter', sent) = common_fault_avoidance fault request counter max_frames mismatching in
    sent ∷ sent_bits max_frames mismatching counter' frames

-- In no run of frames longer than `limit` is the fault condition met with the bit sent: `streak`
-- such frames have just passed.
abbrev pub AvoidsFault : (limit streak : ℕ) → List (Bool × Bool) → List Bool → Type 0
AvoidsFault limit streak ((fault, request) ∷ frames) (sent ∷ bits) =
    let streak' : ℕ = if fault && sent then streak + 1 else 0 in
    (streak' ≤ limit) × AvoidsFault limit streak' frames bits
AvoidsFault limit streak _ _ = Unit

step_streak :
    (fault request : Bool) (m k c streak : ℕ)
    → 0 < k
    → streak ≤ c
    → let (c', sent) = common_fault_avoidance fault request c m k in
      let streak' : ℕ = if fault && sent then streak + 1 else 0 in (streak' ≤ m) × (streak' ≤ c')
unfolding common_fault_avoidance
step_streak fault request m k c streak h s = ground arith

avoids_from :
    (m k c streak : ℕ) (frames : List (Bool × Bool))
    → 0 < k
    → streak ≤ c
    → AvoidsFault m streak frames (sent_bits m k c frames)
unfolding sent_bits
avoids_from m k c streak [] h s = tt
avoids_from m k c streak ((fault, request) ∷ frames) h s =
    let (c', sent) = common_fault_avoidance fault request c m k in
    let st = step_streak fault request m k c streak h s in
    (st.0, avoids_from m k c' (if fault && sent then streak + 1 else 0) frames h st.1)

-- Whatever the frames, the request bit is never sent with the fault condition met for more than
-- `max_frames` frames in a row, if the cut lasts for at least one frame.
pub sent_bits-AvoidsFault :
    (max_frames mismatching : ℕ) (frames : List (Bool × Bool))
    → 0 < mismatching
    → AvoidsFault max_frames 0 frames (sent_bits max_frames mismatching 0 frames)
sent_bits-AvoidsFault m k frames h = avoids_from m k 0 0 frames h (omega arith)

-- The frames `i`, `i + 1`, … with the request and the fault condition met throughout.
abbrev pub faulty : ℕ → List (Bool × Bool)
faulty zero = []
faulty (suc n) = (true, true) ∷ faulty n

-- The bits of `n` frames from frame `i` on: `max_frames` of them set, then `mismatching` cleared.
abbrev pub pattern_bits : (max_frames mismatching i n : ℕ) → List Bool
pattern_bits m k i zero = []
pattern_bits m k i (suc n) = ltb (i % (m + k)) m ∷ pattern_bits m k (i + 1) n

mod_step : (i n : ℕ) → 0 < n → (i + 1) % n ≡ (if leb n (i % n + 1) then 0 else i % n + 1)
mod_step i n h = rw (← mod-add-mod i n 1) (last_round (i % n) n (mod-lt i h))
  where
    last_round : (r n : ℕ) → r < n → (r + 1) % n ≡ (if leb n (r + 1) then 0 else r + 1)
    last_round r n h = grind (arith, mod_self, mod-eq_of_lt)

step_faulty :
    (m k i : ℕ)
    → 0 < k
    → common_fault_avoidance true true (i % (m + k)) m k ≡ ((i + 1) % (m + k), ltb (i % (m + k)) m)
unfolding common_fault_avoidance
step_faulty m k i h = ground (arith, mod_step i (m + k))

-- Under a steady fault condition and request the bit is set for exactly `max_frames` frames and
-- cleared for exactly `mismatching`, in turn.
pub sent_bits-faulty :
    (max_frames mismatching i n : ℕ)
    → 0 < mismatching
    → sent_bits max_frames mismatching (i % (max_frames + mismatching)) (faulty n)
      ≡ pattern_bits max_frames mismatching i n
unfolding sent_bits
sent_bits-faulty m k i zero h = refl
sent_bits-faulty m k i (suc n) h =
    rw (step_faulty m k i h) (ap (λ l. ltb (i % (m + k)) m ∷ l) (sent_bits-faulty m k (i + 1) n h))

-- A frame with no request, or with no fault condition, clears the counter and sends what was asked.
pub common_fault_avoidance_clear :
    (fault request : Bool) (c m k : ℕ)
    → (request && fault) ≡ false
    → 0 < m + k
    → common_fault_avoidance fault request c m k ≡ (0, request)
unfolding common_fault_avoidance
common_fault_avoidance_clear fault request c m k h p = ground arith
