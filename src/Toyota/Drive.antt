-- ===== src/Toyota/Drive.antt =====
-- The request bits and the alert of selfdrive/car/toyota/carcontroller.py over a drive.
use openpilot9xxcivic.Prelude.{
  ◌≡◌, refl, ap, ◌∙◌, Bool, true, false, not, ◌&&◌, ◌||◌, if◌then◌else◌, List, [], ◌∷◌, ◌++◌, map,
  take, lookup, arith,
}
use openpilot9xxcivic.Can.{Packer, Reader, flag, is_set, is_set-flag, read_all, read_onto}
use openpilot9xxcivic.Clip.{Clip}
use openpilot9xxcivic.Limits.Angle.{Interp}
use openpilot9xxcivic.Common.FaultAvoidance.{sent_bits, AvoidsFault, sent_bits-AvoidsFault}
use openpilot9xxcivic.Toyota.{create_steer_command}
use openpilot9xxcivic.Toyota.Controller.{
  Car, CarController, Controls, StaticMessage, init, is_fast, is_active, steer_request, avoided,
  has_alert, max_steer_rate_frames, can_sends, update,
}

-- The calls of a drive: whether the wheel is fast, and whether the steering is active.
abbrev pub steering_inputs : List Controls → List (Bool × Bool)
steering_inputs [] = []
steering_inputs (c ∷ cs) = (is_fast c, is_active c) ∷ steering_inputs cs

module _ (np : Clip) (ip : Interp) (packer : Packer) (static_dsu_msgs : List StaticMessage)
    (car : Car) (r : Reader packer "STEERING_LKA" "STEER_REQUEST" 1) where
  abbrev pub next : CarController → Controls → CarController
  next s c = (update np ip packer static_dsu_msgs car s c).0

  -- The request bits that a receiver reads of the first message of each call.
  unfoldable pub request_bits : CarController → List Controls → List Bool
  unfolding update
  request_bits s [] = []
  request_bits s (c ∷ cs) =
      map is_set (read_all r.read (take 1 (update np ip packer static_dsu_msgs car s c).1))
      ++ request_bits (next s c) cs

  first_read :
      (s : CarController) (c : Controls)
      → map is_set (read_all r.read (take 1 (update np ip packer static_dsu_msgs car s c).1))
        ≡ steer_request car s c ∷ []
  unfolding update can_sends create_steer_command lookup
  first_read s c =
      ap (λ o. map is_set (read_onto o []))
        (r.read_packed _ (flag (steer_request car s c)) _ refl (ground arith))
      ∙ ap (λ b. b ∷ []) (is_set-flag (steer_request car s c))

  next_counter :
      (s : CarController) (c : Controls) → (next s c).steer_rate_counter ≡ (avoided s c).0
  unfolding update
  next_counter s c = refl

  steer_request_lem :
      (s : CarController) (c : Controls)
      → car.is_angle ≡ false
      → steer_request car s c ≡ (avoided s c).1
  unfolding steer_request
  steer_request_lem s c p = rw p refl

  request_bits_lem :
      (s : CarController) (calls : List Controls)
      → car.is_angle ≡ false
      → request_bits s calls
        ≡ sent_bits max_steer_rate_frames 1 s.steer_rate_counter (steering_inputs calls)
  unfolding request_bits sent_bits
  request_bits_lem s [] p = refl
  request_bits_lem s (c ∷ cs) p =
      ap (λ l. l ++ request_bits (next s c) cs) (first_read s c)
      ∙ ap (λ b. b ∷ request_bits (next s c) cs) (steer_request_lem s c p)
      ∙ ap (λ l. (avoided s c).1 ∷ l)
          (request_bits_lem (next s c) cs p
            ∙ ap (λ k. sent_bits max_steer_rate_frames 1 k (steering_inputs cs)) (next_counter s c))

  -- Over any calls of a drive of a Toyota that is steered by torque, the request bits that a receiver reads of
  -- the first messages of the calls are not set with the wheel turning at 100 degrees per second or faster
  -- for more than 18 calls in a row.
  pub request_bits-AvoidsFault_toyota :
      (calls : List Controls)
      → car.is_angle ≡ false
      → AvoidsFault 18 0 (steering_inputs calls) (request_bits init calls)
  unfolding init
  request_bits-AvoidsFault_toyota calls p =
      rw (request_bits_lem init calls p)
        (sent_bits-AvoidsFault 18 1 (steering_inputs calls) (omega arith))

  -- After a call the object knows of an alert exactly if the call had one, whatever it knew before, on
  -- any car but the Prius v.
  pub alert_active_lem :
      (s : CarController) (c : Controls)
      → car.is_prius_v ≡ false
      → (next s c).alert_active ≡ has_alert c
  unfolding update
  alert_active_lem s c p = rw p (followed (has_alert c) s.alert_active)
    where
      followed :
          (now was : Bool) → (if now && not was || not now && was then not was else was) ≡ now
      followed true true = refl
      followed true false = refl
      followed false true = refl
      followed false false = refl
