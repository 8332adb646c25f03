-- ===== src/Subaru/Drive.antt =====
-- The request bits in the messages of selfdrive/car/subaru/carcontroller.py over a drive.
use mathlib.Core.List.{append-nil}
use openpilot9xxcivic.Prelude.{
  ℕ, ℤ, ◌+◌, ◌≡◌, refl, ap, ◌∙◌, Bool, true, false, not, ◌&&◌, if◌then◌else◌, List, [], ◌∷◌, ◌++◌,
  map, lookup, arith, Bool-cases, inl, inr, Every-append,
}
use openpilot9xxcivic.Can.{
  CanMessage, Packer, Reader, flag, is_set, is_set-flag, read_all, read_onto, read_all-append,
  IsSilent, when-IsSilent, if-IsSilent, IsSilent-read_all,
}
use openpilot9xxcivic.Clip.{Clip}
use openpilot9xxcivic.Common.FaultAvoidance.{
  common_fault_avoidance, sent_bits, AvoidsFault, sent_bits-AvoidsFault,
}
use openpilot9xxcivic.Subaru.Messages.{
  no_cruise, create_steering_control, create_es_distance, create_es_lkas_state,
  create_es_dashstatus, create_es_brake, create_es_status, create_es_infotainment,
  create_es_highbeamassist, create_es_static_1, create_es_static_2,
}
use openpilot9xxcivic.Subaru.Controller.{
  Car, CarController, Controls, init, is_fast, steer_request, every, steer_step,
  max_steer_rate_frames, steered, steering_messages, alert_messages, long_messages, cancel_messages,
  eyesight_messages, global_messages, update,
}

abbrev tester_present : CanMessage
tester_present = record { address = 0x787; dat = 2 ∷ 62 ∷ 128 ∷ 0 ∷ 0 ∷ 0 ∷ 0 ∷ 0 ∷ []; bus = 2 }

-- A global platform sends one steering message in a steering frame, with the request bit.
module _ (np : Clip) (interp : ℤ → List ℤ → List ℤ → ℤ) (packer : Packer) (car : Car)
    (r : Reader packer "ES_LKAS" "LKAS_Request" 1) where
  alert-IsSilent :
      (frame : ℕ) (c : Controls) → IsSilent r.read (alert_messages np interp packer car frame c)
  unfolding alert_messages create_es_dashstatus create_es_lkas_state create_es_infotainment
  alert-IsSilent frame c = (
    r.read_other _ _ _ refl,
    (
      r.read_other _ _ _ refl,
      when-IsSilent r.read car.send_infotainment _ (r.read_other _ _ _ refl, tt),
    ),
  )

  long-IsSilent :
      (frame : ℕ) (c : Controls) → IsSilent r.read (long_messages np interp packer car frame c)
  unfolding long_messages create_es_status create_es_brake create_es_distance
  long-IsSilent frame c =
      (r.read_other _ _ _ refl, (r.read_other _ _ _ refl, (r.read_other _ _ _ refl, tt)))

  cancel-IsSilent : (c : Controls) → IsSilent r.read (cancel_messages np interp packer car c)
  unfolding cancel_messages create_es_distance
  cancel-IsSilent c =
      when-IsSilent r.read (c.cancel && not car.hybrid)
        (create_es_distance packer (c.es_distance_counter + 1) c.es_distance_msg
            (if car.global_gen2 then 1 else 0) c.cancel no_cruise
          ∷ [])
        (r.read_other _ _ _ refl, tt)

  eyesight-IsSilent : (frame : ℕ) → IsSilent r.read (eyesight_messages np interp packer car frame)
  unfolding eyesight_messages create_es_highbeamassist create_es_static_1 create_es_static_2
  eyesight-IsSilent frame =
      Every-append _ _ _
        (Every-append _ _ _
          (Every-append _ _ _
            (when-IsSilent r.read (every 100 frame) (tester_present ∷ [])
              (r.read_diagnostic _ refl, tt))
            (when-IsSilent r.read (every 5 frame) (create_es_highbeamassist packer ∷ [])
              (r.read_other _ _ _ refl, tt)))
          (when-IsSilent r.read (every 10 frame) (create_es_static_1 packer ∷ [])
            (r.read_other _ _ _ refl, tt)))
        (when-IsSilent r.read (every 2 frame) (create_es_static_2 packer ∷ [])
          (r.read_other _ _ _ refl, tt))

  global-IsSilent :
      (frame : ℕ) (c : Controls) → IsSilent r.read (global_messages np interp packer car frame c)
  unfolding global_messages
  global-IsSilent frame c =
      Every-append _ _ _
        (Every-append _ _ _ (when-IsSilent r.read (every 10 frame) _ (alert-IsSilent frame c)) (
          if-IsSilent r.read car.openpilot_longitudinal_control _ _
            (when-IsSilent r.read (every 5 frame) _ (long-IsSilent frame c)) (cancel-IsSilent c)))
        (when-IsSilent r.read car.disable_eyesight _ (eyesight-IsSilent frame))

  steering_messages_read :
      (s : CarController) (c : Controls)
      → car.preglobal ≡ false
      → read_all r.read (steering_messages np interp packer car s c) ≡ (
          if every steer_step s.frame
          then flag (steer_request car c s.steer_rate_counter).1 ∷ []
          else [])
  unfolding steering_messages create_steering_control lookup
  steering_messages_read s c p = elim (Bool-cases (every steer_step s.frame)) [
    | inl now ↦
        rw (now, p)
          (ap (λ o. read_onto o [])
            (r.read_packed _ (flag (steer_request car c s.steer_rate_counter).1) _ refl
              (ground arith)))
    | inr later ↦ rw later refl
  ]

  update_read :
      (s : CarController) (c : Controls)
      → car.preglobal ≡ false
      → read_all r.read (update np interp packer car s c).1 ≡ (
          if every steer_step s.frame
          then flag (steer_request car c s.steer_rate_counter).1 ∷ []
          else [])
  unfolding update
  update_read s c p =
      read_all-append r.read (steering_messages np interp packer car s c) _
      ∙ ap (λ ns. read_all r.read (steering_messages np interp packer car s c) ++ ns)
          (rw p (
            IsSilent-read_all r.read (global_messages np interp packer car s.frame c)
              (global-IsSilent s.frame c)))
      ∙ append-nil _
      ∙ steering_messages_read s c p

-- The calls in which the steering is commanded: whether the wheel is fast, and lateral control.
abbrev pub steering_inputs : (frame : ℕ) → List Controls → List (Bool × Bool)
steering_inputs frame [] = []
steering_inputs frame (c ∷ cs) =
    let rest = steering_inputs (frame + 1) cs in
    if every steer_step frame then (is_fast c, c.lat_active) ∷ rest else rest

module _ (np : Clip) (interp : ℤ → List ℤ → List ℤ → ℤ) (packer : Packer) (car : Car)
    (r : Reader packer "ES_LKAS" "LKAS_Request" 1) where
  abbrev pub next : CarController → Controls → CarController
  next s c = (update np interp packer car s c).0

  -- The request bits that a receiver reads of the messages of a drive, in their order.
  unfoldable pub request_bits : CarController → List Controls → List Bool
  unfolding update
  request_bits s [] = []
  request_bits s (c ∷ cs) =
      map is_set (read_all r.read (update np interp packer car s c).1) ++ request_bits (next s c) cs

  next_counter :
      (s : CarController) (c : Controls)
      → car.steer_rate_limited ≡ true
      → car.preglobal ≡ false
      → (next s c).steer_rate_counter ≡ (
          if every steer_step s.frame
          then (common_fault_avoidance
              (is_fast c)
              c.lat_active
              s.steer_rate_counter
              max_steer_rate_frames
              1).0
          else s.steer_rate_counter)
  unfolding update steered steer_request
  next_counter s c l g = elim (Bool-cases (every steer_step s.frame)) [
    | inl now ↦ rw (now, g, l) refl
    | inr later ↦ rw later refl
  ]

  next_frame : (s : CarController) (c : Controls) → (next s c).frame ≡ s.frame + 1
  unfolding update
  next_frame s c = refl

  steer_request_lem :
      (c : Controls) (k : ℕ)
      → car.steer_rate_limited ≡ true
      → steer_request car c k
        ≡ common_fault_avoidance (is_fast c) c.lat_active k max_steer_rate_frames 1
  unfolding steer_request
  steer_request_lem c k l = rw l refl

  request_bits_lem :
      (s : CarController) (calls : List Controls)
      → car.steer_rate_limited ≡ true
      → car.preglobal ≡ false
      → request_bits s calls
        ≡ sent_bits max_steer_rate_frames 1 s.steer_rate_counter (steering_inputs s.frame calls)
  unfolding request_bits sent_bits
  request_bits_lem s [] l g = refl
  request_bits_lem s (c ∷ cs) l g =
      ap (λ ns. map is_set ns ++ request_bits (next s c) cs)
        (update_read np interp packer car r s c g)
      ∙ add_bit (every steer_step s.frame) (steer_request car c s.steer_rate_counter).1
          (request_bits (next s c) cs) (steering_inputs (s.frame + 1) cs)
          (next s c).steer_rate_counter (next_counter s c l g)
          (ap (λ r. r.1) (steer_request_lem c s.steer_rate_counter l))
          (request_bits_lem (next s c) cs l g
            ∙ ap
                (λ n.
                  sent_bits max_steer_rate_frames 1 (next s c).steer_rate_counter
                    (steering_inputs n cs))
                (next_frame s c))
    where
      avoided : ℕ × Bool
      avoided =
          common_fault_avoidance (is_fast c) c.lat_active s.steer_rate_counter max_steer_rate_frames
            1

      add_bit :
          (b sent : Bool) (rest : List Bool) (ins : List (Bool × Bool)) (k : ℕ)
          → k ≡ (if b then avoided.0 else s.steer_rate_counter)
          → sent ≡ avoided.1
          → rest ≡ sent_bits max_steer_rate_frames 1 k ins
          → (map is_set (if b then flag sent ∷ [] else []) ++ rest)
            ≡ sent_bits max_steer_rate_frames 1 s.steer_rate_counter
                (if b then (is_fast c, c.lat_active) ∷ ins else ins)
      add_bit true sent rest ins k e q h =
          ap (λ x. x ∷ rest) (is_set-flag sent ∙ q)
          ∙ ap (λ l. avoided.1 ∷ l) (h ∙ ap (λ k. sent_bits max_steer_rate_frames 1 k ins) e)
      add_bit false sent rest ins k e q h = h ∙ ap (λ k. sent_bits max_steer_rate_frames 1 k ins) e

  -- Over any calls of a drive, the request bits that a receiver reads of the messages of a car that faults at
  -- a fast wheel and is on a global platform are not set with the wheel turning faster than 25 degrees per
  -- second for more than 7 steering messages in a row, and they are the ones that common_fault_avoidance
  -- gives for the calls at even frame numbers.
  pub request_bits-AvoidsFault :
      (calls : List Controls)
      → car.steer_rate_limited ≡ true
      → car.preglobal ≡ false
      → AvoidsFault 7 0 (steering_inputs 0 calls) (request_bits init calls)
        × (request_bits init calls ≡ sent_bits 7 1 0 (steering_inputs 0 calls))
  unfolding init
  request_bits-AvoidsFault calls l g =
      rw (request_bits_lem init calls l g)
        (sent_bits-AvoidsFault 7 1 (steering_inputs 0 calls) (omega arith), refl)
