-- ===== src/Interfaces/Events.antt =====
-- `CarInterfaceBase.create_common_events` of selfdrive/car/interfaces.py.
use openpilot9xxcivic.Prelude.{
  ℕ, ◌+◌, Bool, true, false, not, ◌&&◌, ◌||◌, ltb, if◌then◌else◌, List, [], ◌∷◌, ◌++◌, contains, ℤ,
  ltb_ℤ, Comparable, ◌==◌, Option, none, some,
}
use openpilot9xxcivic.Common.Buttons.{ButtonEvent}

-- The names of cereal's `CarEvent` that the method adds, in its order.
pub data EventName : Type 0 where
  door_open : EventName
  seatbelt_not_latched : EventName
  wrong_gear : EventName
  reverse_gear : EventName
  wrong_car_mode : EventName
  esp_disabled : EventName
  esp_active : EventName
  stock_fcw : EventName
  stock_aeb : EventName
  speed_too_high : EventName
  wrong_cruise_mode : EventName
  brake_hold : EventName
  park_brake : EventName
  acc_faulted : EventName
  steer_override : EventName
  pre_enable_standstill : EventName
  gas_pressed_override : EventName
  button_enable : EventName
  button_cancel : EventName
  steer_temp_unavailable_silent : EventName
  steer_temp_unavailable : EventName
  steer_unavailable : EventName
  pcm_enable : EventName
  pcm_disable : EventName

-- The fields of cereal's `CarState` that the method reads; speeds in thousandths.
pub record CarState (Gear ButtonType : Type 0) : Type 0 where
  pub door_open : Bool
  pub seatbelt_unlatched : Bool
  pub gear_shifter : Gear
  pub cruise_available : Bool
  pub cruise_enabled : Bool
  pub cruise_non_adaptive : Bool
  pub esp_disabled : Bool
  pub esp_active : Bool
  pub stock_fcw : Bool
  pub stock_aeb : Bool
  pub v_ego : ℤ
  pub standstill : Bool
  pub brake_hold_active : Bool
  pub parking_brake : Bool
  pub acc_faulted : Bool
  pub steering_pressed : Bool
  pub brake_pressed : Bool
  pub gas_pressed : Bool
  pub button_events : List (ButtonEvent ButtonType)
  pub steer_fault_temporary : Bool
  pub steer_fault_permanent : Bool

-- The fields of `CarInterfaceBase` that the method writes.
pub record Warnings : Type 0 where
  pub steering_unpressed : ℕ
  pub no_steer_warning : Bool
  pub silent_steer_warning : Bool

-- The fields of `CarParams` and the arguments of the method.
pub record Options (Gear ButtonType : Type 0) : Type 0 where
  pub openpilot_longitudinal_control : Bool
  pub pcm_cruise : Bool
  pub extra_gears : Option (List Gear)
  pub pcm_enable : Bool
  pub allow_enable : Bool
  pub enable_buttons : List ButtonType

-- `if c: events.add(e)`
abbrev pub when : Bool → EventName → List EventName
when c e = if c then e ∷ [] else []

-- A sequence of such statements.
abbrev pub collect : List (Bool × EventName) → List EventName
collect [] = []
collect ((c, e) ∷ rest) = when c e ++ collect rest

-- `int(1.5 / DT_CTRL)`
abbrev pub recent_frames : ℕ
recent_frames = 150

-- The state machine of the steering faults: the new fields, and the events. `last_fault` is
-- `self.CS.out.steerFaultTemporary`.
unfoldable pub steer_fault_events :
    (steer_fault_temporary steering_pressed standstill last_fault : Bool)
    → Warnings
    → Warnings × List EventName
steer_fault_events steer_fault_temporary steering_pressed standstill last_fault w =
    let steering_unpressed : ℕ = if steering_pressed then 0 else w.steering_unpressed + 1 in
    let silent = w.silent_steer_warning || standstill || ltb steering_unpressed recent_frames in
    if steer_fault_temporary
    then (if steering_pressed && (not last_fault || w.no_steer_warning)
        then (record w { steering_unpressed = steering_unpressed; no_steer_warning = true }, [])
        else if silent
        then (
          record {
            steering_unpressed = steering_unpressed;
            no_steer_warning = false;
            silent_steer_warning = true;
          },
          steer_temp_unavailable_silent ∷ [],
        )
        else (
          record w { steering_unpressed = steering_unpressed; no_steer_warning = false },
          steer_temp_unavailable ∷ [],
        ))
    else (
      record {
        steering_unpressed = steering_unpressed;
        no_steer_warning = false;
        silent_steer_warning = false;
      },
      [],
    )

module _ {Gear ButtonType : Type 0} ⦃gears : Comparable Gear⦄ ⦃buttons : Comparable ButtonType⦄
    (drive reverse : Gear) (cancel : ButtonType) (max_ctrl_speed : ℤ) where
  -- `extra_gears is None or gear not in extra_gears`
  unfoldable pub is_extra : Option (List Gear) → Gear → Bool
  is_extra none gear = false
  is_extra (some extra_gears) gear = contains extra_gears gear

  -- The loop over the button presses.
  unfoldable pub button_presses :
      Options Gear ButtonType → List (ButtonEvent ButtonType) → List EventName
  button_presses o [] = []
  button_presses o (b ∷ bs) =
      collect (
        (not o.pcm_cruise && contains o.enable_buttons b.type && not b.pressed, button_enable)
        ∷ (b.type == cancel, button_cancel)
        ∷ [])
      ++ button_presses o bs

  -- The events up to the steering's.
  unfoldable pub state_events : Options Gear ButtonType → CarState Gear ButtonType → List EventName
  unfolding is_extra
  state_events o cs = collect (
      (cs.door_open, door_open)
      ∷ (cs.seatbelt_unlatched, seatbelt_not_latched)
      ∷ (not (cs.gear_shifter == drive) && not (is_extra o.extra_gears cs.gear_shifter), wrong_gear)
      ∷ (cs.gear_shifter == reverse, reverse_gear)
      ∷ (not cs.cruise_available, wrong_car_mode)
      ∷ (cs.esp_disabled, esp_disabled)
      ∷ (cs.esp_active, esp_active)
      ∷ (cs.stock_fcw, stock_fcw)
      ∷ (cs.stock_aeb, stock_aeb)
      ∷ (ltb_ℤ max_ctrl_speed cs.v_ego, speed_too_high)
      ∷ (cs.cruise_non_adaptive, wrong_cruise_mode)
      ∷ (cs.brake_hold_active && o.openpilot_longitudinal_control, brake_hold)
      ∷ (cs.parking_brake, park_brake)
      ∷ (cs.acc_faulted, acc_faulted)
      ∷ (cs.steering_pressed, steer_override)
      ∷ (cs.brake_pressed && cs.standstill, pre_enable_standstill)
      ∷ (cs.gas_pressed, gas_pressed_override)
      ∷ [])

  unfoldable pub pcm_events :
      Options Gear ButtonType → (enabled last_enabled : Bool) → List EventName
  pcm_events o enabled last_enabled =
      if o.pcm_enable
      then (if enabled && not last_enabled && o.allow_enable
          then pcm_enable ∷ []
          else when (not enabled) pcm_disable)
      else []

  -- The new fields, and the events; `last` is `self.CS.out`.
  unfoldable pub create_common_events :
      Options Gear ButtonType
      → (cs_out last : CarState Gear ButtonType) → Warnings
      → Warnings × List EventName
  unfolding state_events button_presses steer_fault_events pcm_events
  create_common_events o cs_out last w =
      let (w', faults) =
        steer_fault_events cs_out.steer_fault_temporary cs_out.steering_pressed cs_out.standstill
          last.steer_fault_temporary w in
      (
        w',
        state_events o cs_out
            ++ button_presses o cs_out.button_events
            ++ faults
            ++ when cs_out.steer_fault_permanent steer_unavailable
            ++ pcm_events o cs_out.cruise_enabled last.cruise_enabled,
      )
