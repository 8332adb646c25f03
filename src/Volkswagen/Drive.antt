-- ===== src/Volkswagen/Drive.antt =====
-- The calls of `CarController.update` of selfdrive/car/volkswagen/carcontroller.py in a drive.
use mathlib.Core.Option
use openpilot9xxcivic.Prelude.{
  ℕ, suc, ℤ, ◌+◌, ◌||◌, is_empty, ◌≡◌, refl, ap, ◌∙◌, Bool, true, false, not, ◌&&◌, if◌then◌else◌,
  Option, none, some, is_some, List, [], ◌∷◌, length, arith, Bool-cases, Option-cases, inl, inr,
}
use openpilot9xxcivic.Clip.{Clip}
use openpilot9xxcivic.Volkswagen.Messages.{Messages}
use openpilot9xxcivic.Volkswagen.Controller.{
  Car, CarController, Controls, SteerInput, Hca, init, steering_frame, steering_messages, can_sends,
  at_step, steer_step, steered, update,
}
use openpilot9xxcivic.Volkswagen.Stuck.{after}

state_only :
    {A B C D : Type 0} (x : A) (y : B) (f : C → D) (o : Option C)
    → Option.map {A = A × B × D} {B = A} (λ r. r.0) (Option.map (λ m. (x, y, m)) (Option.map f o))
      ≡ (if is_some o then some x else none)
state_only x y f none = refl
state_only x y f (some c) = refl

module _ (np : Clip) (ms_to_kph : ℤ → ℤ) (car : Car) (ccs : Messages) where
  abbrev pub next_of : Option CarController → Controls → Option CarController
  next_of none c = none
  next_of (some s) c = Option.map (λ r. r.0) (update np ms_to_kph car ccs s c)

  -- The object after the calls of a drive, the last one first; `none` is an exception in one of them.
  unfoldable pub drive : List Controls → Option CarController
  unfolding init update
  drive [] = some init
  drive (c ∷ earlier) = next_of (drive earlier) c

  -- The inputs of the steering frames: the calls at even frame numbers.
  abbrev pub steering_inputs : List Controls → List SteerInput
  steering_inputs [] = []
  steering_inputs (c ∷ cs) =
      if at_step np ms_to_kph car ccs (length cs) steer_step
      then c.steer_input ∷ steering_inputs cs
      else steering_inputs cs

  -- The module has the message for the rack where the car needs it.
  abbrev pub has_messages : Bool
  has_messages = not (car.stock_hca_present && not (is_some ccs.create_eps_update))

  messages_return :
      (h : Hca) (e : Bool) (c : Controls)
      → is_some (steering_messages np ms_to_kph car ccs h e c) ≡ has_messages
  unfolding steering_messages
  messages_return h e c = elim (Bool-cases car.stock_hca_present) [
    | inl stock ↦ elim (Option-cases ccs.create_eps_update) [
      | inl missing ↦ rw (stock, missing) refl
      | inr (create, found) ↦ rw (stock, found) refl
    ]
    | inr plain ↦ rw plain refl
  ]

  abbrev state_after : CarController → Controls → CarController
  state_after s c = record {
    hca = (steered np ms_to_kph car ccs s c).0;
    gra_acc_counter_last = some c.gra_counter;
    frame = s.frame + 1;
  }

  -- A call returns if it is not a steering frame, or the module has the messages.
  update_returns :
      (s : CarController) (c : Controls)
      → Option.map (λ r. r.0) (update np ms_to_kph car ccs s c) ≡ (
          if not (at_step np ms_to_kph car ccs s.frame steer_step) || has_messages
          then some (state_after s c)
          else none)
  unfolding update can_sends
  update_returns s c =
      state_only _ (steered np ms_to_kph car ccs s c).0.apply_steer_last _ _
      ∙ ap (λ b. if b then some (state_after s c) else none)
          (steering_returns (at_step np ms_to_kph car ccs s.frame steer_step))
    where
      steering_returns :
          (b : Bool)
          → is_some (
              if b
              then steering_messages np ms_to_kph car ccs
                  (steered np ms_to_kph car ccs s c).0
                  (steered np ms_to_kph car ccs s c).1
                  c
              else some [])
            ≡ (not b || has_messages)
      steering_returns true =
          messages_return (steered np ms_to_kph car ccs s c).0 (steered np ms_to_kph car ccs s c).1
            c
      steering_returns false = refl

  hca_step :
      (b : Bool) (c : Controls) (ins : List SteerInput)
      → (if b
          then steering_frame np car.pq c.steer_input (after np car.pq ins)
          else (after np car.pq ins, false)).0
        ≡ after np car.pq (if b then c.steer_input ∷ ins else ins)
  unfolding after
  hca_step true c ins = refl
  hca_step false c ins = refl

  abbrev pub last_counter : List Controls → Option ℕ
  last_counter [] = none
  last_counter (c ∷ cs) = some c.gra_counter

  -- The object of a drive, from what the calls read.
  abbrev pub history : List Controls → CarController
  history calls = record {
    hca = after np car.pq (steering_inputs calls);
    gra_acc_counter_last = last_counter calls;
    frame = length calls;
  }

  next-history : (c : Controls) (cs : List Controls) → state_after (history cs) c ≡ history (c ∷ cs)
  next-history c cs =
      ap (λ h. record { hca = h; gra_acc_counter_last = some c.gra_counter; frame = length cs + 1 })
        (hca_step (at_step np ms_to_kph car ccs (length cs) steer_step) c (steering_inputs cs))
      ∙ ap
          (λ n. record {
            hca = after np car.pq (steering_inputs (c ∷ cs));
            gra_acc_counter_last = some c.gra_counter;
            frame = n;
          })
          (one_more (length cs))
    where
      one_more : (n : ℕ) → n + 1 ≡ suc n
      one_more n = omega arith

  drive_empty : drive [] ≡ some (history [])
  unfolding drive init after
  drive_empty = refl

  drive_returns : (calls : List Controls) → has_messages ≡ true → drive calls ≡ some (history calls)
  unfolding drive init after
  drive_returns [] p = refl
  drive_returns (c ∷ cs) p =
      ap (λ o. next_of o c) (drive_returns cs p)
      ∙ update_returns (history cs) c
      ∙ returned (at_step np ms_to_kph car ccs (length cs) steer_step) has_messages
          (state_after (history cs) c) p
      ∙ ap some (next-history c cs)
    where
      returned :
          (at have : Bool) (s : CarController)
          → have ≡ true
          → (if not at || have then some s else none) ≡ some s
      returned at have s h = ground arith

  drive_raises : (c : Controls) (cs : List Controls) → has_messages ≡ false → drive (c ∷ cs) ≡ none
  unfolding drive init
  drive_raises c [] p = update_returns init c ∙ rw p refl
  drive_raises c (d ∷ ds) p = ap (λ o. next_of o c) (drive_raises d ds p)

  -- Where the car has stock lane keeping and the module of messages lacks create_eps_update, the first call
  -- of a drive raises the AttributeError; else no call does, and the object is the one that the history
  -- gives: the steering state of the calls at even frame numbers, the counter of the last call's buttons
  -- and the number of calls.
  pub drive_lem :
      (calls : List Controls)
      → drive calls ≡ (if is_empty calls || has_messages then some (history calls) else none)
  drive_lem [] = drive_empty
  drive_lem (c ∷ cs) = elim (Bool-cases has_messages) [
    | inl there ↦ rw there (drive_returns (c ∷ cs) there)
    | inr missing ↦ rw missing (drive_raises c cs missing)
  ]
