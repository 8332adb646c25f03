-- ===== src/Interfaces/Cluster.antt =====
-- `CarInterfaceBase.update` of selfdrive/car/interfaces.py, and `RadarInterfaceBase.update`.
use openpilot9xxcivic.Prelude.{
  ℕ, ℤ, pos, abs, ◌≡◌, refl, Bool, true, false, not, ◌&&◌, ◌||◌, ltb, nat_beq, if◌then◌else◌, List,
  [], ◌∷◌, all, any, ◌+ℤ◌, ◌-ℤ◌, ◌≤ℤ◌, arith, Option, none, some,
}
use openpilot9xxcivic.Limits.{apply_hysteresis}
use openpilot9xxcivic.Limits.Fixpoints.{apply_hysteresis_lem}

-- What the method reads of a `CANParser` after `update_strings`.
pub record Parser : Type 0 where
  pub can_valid : Bool
  pub bus_timeout : Bool

-- The fields of the state that `_update` returns, with speeds in thousandths.
pub record CarState : Type 0 where
  pub v_ego : ℤ
  pub v_ego_cluster : ℤ
  pub speed : ℤ
  pub speed_cluster : ℤ
  pub can_valid : Bool
  pub can_timeout : Bool

-- `self.v_ego_cluster_seen`, and of `self.CS` the constants and the state of the last frame.
pub record Interface : Type 0 where
  pub v_ego_cluster_seen : Bool
  pub cluster_speed_hyst_gap : ℕ
  pub cluster_min_speed : ℕ
  pub out : CarState

abbrev pub is_zero : ℤ → Bool
is_zero x = nat_beq (abs x) 0

-- `[cp for cp in self.can_parsers if cp is not None]`
unfoldable pub present : List (Option Parser) → List Parser
present [] = []
present (none ∷ rest) = present rest
present (some cp ∷ rest) = cp ∷ present rest

abbrev pub valid : Parser → Bool
valid cp = cp.can_valid

abbrev pub timed_out : Parser → Bool
timed_out cp = cp.bus_timeout

-- The cluster's speed of the frame before the filter, and the new flag.
unfoldable pub raw_cluster : Bool → CarState → ℤ × Bool
raw_cluster v_ego_cluster_seen ret =
    if is_zero ret.v_ego_cluster && not v_ego_cluster_seen
    then (ret.v_ego, v_ego_cluster_seen)
    else (ret.v_ego_cluster, true)

-- The speed that is shown: the hysteresis, and 0 below the smallest speed.
unfoldable pub filtered : Interface → CarState → ℤ → ℤ
filtered s ret raw =
    if ltb (abs ret.v_ego) s.cluster_min_speed
    then pos 0
    else apply_hysteresis raw s.out.v_ego_cluster (pos s.cluster_speed_hyst_gap)

-- The interface after the call, for a port that has a `CarState`; the call returns its field `out`.
-- `ret` is what `_update` returns.
unfoldable pub update : List (Option Parser) → CarState → Interface → Interface
unfolding present raw_cluster filtered
update can_parsers ret s =
    let raw = raw_cluster s.v_ego_cluster_seen ret in
    record s {
      v_ego_cluster_seen = raw.1;
      out = record ret {
        v_ego_cluster = filtered s ret raw.0;
        speed_cluster = if is_zero ret.speed_cluster then ret.speed else ret.speed_cluster;
        can_valid = all valid (present can_parsers);
        can_timeout = any timed_out (present can_parsers);
      };
    }

-- The frames of a drive, the last one first.
unfoldable pub frames : Interface → List (List (Option Parser) × CarState) → Interface
unfolding update
frames s [] = s
frames s ((parsers, ret) ∷ earlier) = update parsers ret (frames s earlier)

abbrev pub has_cluster : List (Option Parser) × CarState → Bool
has_cluster (parsers, ret) = not (is_zero ret.v_ego_cluster)

constants :
    (s : Interface) (fs : List (List (Option Parser) × CarState))
    → ((frames s fs).cluster_speed_hyst_gap ≡ s.cluster_speed_hyst_gap)
      × ((frames s fs).cluster_min_speed ≡ s.cluster_min_speed)
      × ((frames s fs).v_ego_cluster_seen ≡ (s.v_ego_cluster_seen || any has_cluster fs))
unfolding frames update raw_cluster
constants s [] = ground arith
constants s ((parsers, ret) ∷ fs) = ground (arith, constants s fs)

-- The speed that a frame is to show: the car's, until the cluster has ever sent one.
abbrev pub shown : CarState → List (List (Option Parser) × CarState) → ℤ
shown ret fs =
    if is_zero ret.v_ego_cluster && not (any has_cluster fs) then ret.v_ego else ret.v_ego_cluster

raw_shown :
    (s : Interface) (ret : CarState) (fs : List (List (Option Parser) × CarState))
    → s.v_ego_cluster_seen ≡ false
    → (raw_cluster (frames s fs).v_ego_cluster_seen ret).0 ≡ shown ret fs
unfolding raw_cluster
raw_shown s ret fs h =
    rw ((constants s fs).2, h)
      (choose (is_zero ret.v_ego_cluster && not (any has_cluster fs)) ret.v_ego ret.v_ego_cluster)
  where
    choose :
        (b : Bool) (x y : ℤ)
        → (if◌then◌else◌ {A = ℤ × Bool} b (x, any has_cluster fs) (y, true)).0
          ≡ (if b then x else y)
    choose true x y = refl
    choose false x y = refl

-- The cluster's speed of a state below the smallest speed, and else.
abbrev pub IsShown : (below : Bool) (gap : ℕ) (raw shown : ℤ) → Type 0
IsShown true gap raw shown = shown ≡ pos 0
IsShown false gap raw shown = (shown ≤ℤ raw +ℤ pos gap) × (raw -ℤ pos gap ≤ℤ shown)

filtered_lem :
    (below : Bool) (gap : ℕ) (raw steady : ℤ)
    → IsShown below gap raw (if below then pos 0 else apply_hysteresis raw steady (pos gap))
filtered_lem true gap raw steady = refl
filtered_lem false gap raw steady =
    let h = apply_hysteresis_lem raw steady (pos gap) (ground arith) in (h.0, h.1)

-- From a start where no cluster speed has been seen: the state of a frame has 0 for the cluster's
-- speed below the smallest speed, and else a speed within the gap of the hysteresis of the cluster's
-- speed, for which the car's stands in as long as the cluster has sent none but 0.
pub update_cluster :
    (s : Interface) (parsers : List (Option Parser)) (ret : CarState)
    (fs : List (List (Option Parser) × CarState))
    → s.v_ego_cluster_seen ≡ false
    → let out = (frames s ((parsers, ret) ∷ fs)).out in
      IsShown
        (ltb (abs ret.v_ego) s.cluster_min_speed)
        s.cluster_speed_hyst_gap
        (shown ret fs)
        out.v_ego_cluster
unfolding frames update filtered
update_cluster s parsers ret fs h = rw (raw_shown s ret fs h) (
    rw ((constants s fs).0, (constants s fs).1)
      (filtered_lem (ltb (abs ret.v_ego) s.cluster_min_speed) s.cluster_speed_hyst_gap
        (shown ret fs) (frames s fs).out.v_ego_cluster))
