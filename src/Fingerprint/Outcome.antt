-- ===== src/Fingerprint/Outcome.antt =====
-- `can_fingerprint` against a description of its outcome by the messages that it read.
use native.Mathlib.Numerals.{add-one}
use openpilot9xxcivic.Prelude.{
  ℕ, zero, suc, ◌+◌, ◌≤◌, ◌<◌, ◌≡◌, refl, sym, ap, inl, inr, Bool, true, false, not, ◌&&◌, ◌||◌,
  ltb, List, [], ◌∷◌, ◌++◌, Option, none, some, String, tests, select, all, arith, Bool-cases,
}
use openpilot9xxcivic.Common.Buses.{Finger, gen_empty_fingerprint}
use openpilot9xxcivic.Fingerprint.{
  CanData, Database, Search, frame_fingerprint, record_message, is_considered, could_have_sent,
  eliminate_incompatible_cars, eliminate_on, process_packet, choose, conclude, is_done, search_loop,
  new_search, can_fingerprint,
}

-- The messages of the first `n` packets.
abbrev pub received : (ℕ → List CanData) → ℕ → List CanData
received next_can zero = []
received next_can (suc n) = received next_can n ++ next_can n

-- Every message that counts on bus `b` could have come from the car.
abbrev pub is_consistent : Database → ℕ → List CanData → String → Bool
is_consistent db b ms car = all (λ m. not (is_considered b m) || could_have_sent db m car) ms

abbrev pub consistent_cars : Database → ℕ → List CanData → List String
consistent_cars db b ms = select (is_consistent db b ms) db.all_legacy_fingerprint_cars

-- What was seen on each bus: the length of the last message of each address.
abbrev pub seen : List CanData → Finger → Finger
seen [] finger = finger
seen (m ∷ ms) finger = seen ms (record_message m finger)

-- The one car left on bus 1, else the one left on bus 0.
abbrev pub verdict : List String → List String → Option String
verdict cars_0 (car ∷ []) = some car
verdict (car ∷ []) _ = some car
verdict _ _ = none

seen-append : (xs ys : List CanData) (f : Finger) → seen (xs ++ ys) f ≡ seen ys (seen xs f)
seen-append [] ys f = refl
seen-append (x ∷ xs) ys f = seen-append xs ys (record_message x f)

select-select {ℓ} :
    {A : Type ℓ} (p q r : A → Bool) (xs : List A)
    → ((x : A) → r x ≡ (p x && q x))
    → select q (select p xs) ≡ select r xs
select-select p q r [] h = refl
select-select p q r (x ∷ xs) h = ground (arith, h x, select-select p q r xs h)

all-append {ℓ} :
    {A : Type ℓ} (p : A → Bool) (xs ys : List A) → all p (xs ++ ys) ≡ (all p xs && all p ys)
all-append p [] ys = refl
all-append p (x ∷ xs) ys = ground (arith, all-append p xs ys)

select_all {ℓ} : {A : Type ℓ} (xs : List A) → select (λ x. true) xs ≡ xs
select_all [] = refl
select_all (x ∷ xs) = ap (λ l. x ∷ l) (select_all xs)

module _ (db : Database) where
  -- The candidates of bus `b` after the messages of one packet.
  narrowed : ℕ → List CanData → List String → List String
  narrowed b [] cars = cars
  narrowed b (m ∷ ms) cars = narrowed b ms (eliminate_on db b m cars)

  eliminate_on-eq-select :
      (b : ℕ) (m : CanData) (cars : List String)
      → eliminate_on db b m cars
        ≡ select (λ car. not (is_considered b m) || could_have_sent db m car) cars
  unfolding eliminate_on eliminate_incompatible_cars
  eliminate_on-eq-select b m cars = elim (Bool-cases (is_considered b m)) [
    | inl yes' ↦ rw yes' refl
    | inr no' ↦ rw no' (sym (select_all cars))
  ]

  narrowed-eq-select :
      (b : ℕ) (ms : List CanData) (cars : List String)
      → narrowed b ms cars ≡ select (is_consistent db b ms) cars
  unfolding narrowed
  narrowed-eq-select b [] cars = sym (select_all cars)
  narrowed-eq-select b (m ∷ ms) cars =
      rw (narrowed-eq-select b ms (eliminate_on db b m cars), eliminate_on-eq-select)
        (select-select (λ car. not (is_considered b m) || could_have_sent db m car)
          (is_consistent db b ms) (is_consistent db b (m ∷ ms)) cars (λ x. refl))

  process_packet_lem :
      (ms : List CanData) (s : Search)
      → process_packet db ms s ≡ record s {
        finger = seen ms s.finger;
        candidate_cars_0 = narrowed 0 ms s.candidate_cars_0;
        candidate_cars_1 = narrowed 1 ms s.candidate_cars_1;
      }
  unfolding process_packet narrowed
  process_packet_lem [] s = refl
  process_packet_lem (m ∷ ms) s = process_packet_lem ms _

  narrowed_consistent :
      (b : ℕ) (xs ys : List CanData)
      → narrowed b ys (consistent_cars db b xs) ≡ consistent_cars db b (xs ++ ys)
  narrowed_consistent b xs ys = rw (narrowed-eq-select b ys (consistent_cars db b xs)) (
      select-select (is_consistent db b xs) (is_consistent db b ys) (is_consistent db b (xs ++ ys))
        db.all_legacy_fingerprint_cars
        (λ car. all-append (λ m. not (is_considered b m) || could_have_sent db m car) xs ys))

choose-verdict : (c0 c1 : List String) → choose true c1 (choose true c0 none) ≡ verdict c0 c1
choose-verdict c0 (x ∷ []) = refl
choose-verdict [] [] = refl
choose-verdict (x ∷ []) [] = refl
choose-verdict (x ∷ y ∷ r) [] = refl
choose-verdict [] (x ∷ y ∷ r) = refl
choose-verdict (z ∷ []) (x ∷ y ∷ r) = refl
choose-verdict (z ∷ w ∷ q) (x ∷ y ∷ r) = refl

choose_early : (c0 c1 : List String) → choose false c1 (choose false c0 none) ≡ none
choose_early c0 [] = ground arith
choose_early c0 (x ∷ []) = ground arith
choose_early c0 (x ∷ y ∷ r) = ground arith

module _ (db : Database) (next_can : ℕ → List CanData) where
  -- The state at the head of the loop after `n` packets.
  abbrev state_at : ℕ → Search
  state_at n = record {
    finger = seen (received next_can n) gen_empty_fingerprint;
    candidate_cars_0 = consistent_cars db 0 (received next_can n);
    candidate_cars_1 = consistent_cars db 1 (received next_can n);
    car_fingerprint = none;
    frame = n;
  }

  abbrev found_at : ℕ → Option String
  found_at n =
      let late = ltb frame_fingerprint n in
      choose late (consistent_cars db 1 (received next_can (suc n)))
        (choose late (consistent_cars db 0 (received next_can (suc n))) none)

  round_lem :
      (n : ℕ)
      → conclude (process_packet db (next_can n) (state_at n))
        ≡ record (state_at (suc n)) { car_fingerprint = found_at n; frame = n }
  round_lem n =
      rw
        (
          process_packet_lem db (next_can n) (state_at n),
          narrowed_consistent db 0 (received next_can n) (next_can n),
          narrowed_consistent db 1 (received next_can n) (next_can n),
          ← seen-append (received next_can n) (next_can n) gen_empty_fingerprint,
        )
        (unfold conclude in refl)

  abbrev round_done : ℕ → Bool
  round_done n = is_done (record (state_at (suc n)) { car_fingerprint = found_at n; frame = n })

  done_late :
      (n : ℕ)
      → round_done n ≡ true
      → (100 < n)
        × (found_at n
            ≡ verdict
                (consistent_cars db 0 (received next_can (suc n)))
                (consistent_cars db 1 (received next_can (suc n))))
  unfolding is_done
  done_late n h = elim (Bool-cases (ltb 100 n)) [
    | inl late ↦ (omega tests, rw late (choose-verdict _ _))
    | inr early ↦ absurd (
        ground (
          arith,
          choose_early (consistent_cars db 0 (received next_can (suc n)))
              (consistent_cars db 1 (received next_can (suc n))),
        ))
  ]

  go_on : (n : ℕ) → round_done n ≡ false → (n ≤ 200) × (found_at n ≡ none)
  unfolding is_done
  go_on n h = ground arith

  search_loop_lem :
      (fuel n : ℕ)
      → n + fuel ≡ 202
      → n ≤ 201
      → (k : ℕ) × (100 < k)
        × (k ≤ 201)
        × (search_loop db next_can fuel (state_at n)
            ≡ some (
              verdict
                  (consistent_cars db 0 (received next_can (suc k)))
                  (consistent_cars db 1 (received next_can (suc k))),
              seen (received next_can (suc k)) gen_empty_fingerprint,
            ))
  unfolding search_loop
  search_loop_lem zero n e h = absurd (omega arith)
  search_loop_lem (suc fuel) n e h = rw round_lem (elim (Bool-cases (round_done n)) [
    | inl done ↦ (n, (done_late n done).0, h, rw (done, (done_late n done).1) refl)
    | inr more ↦
        let r = search_loop_lem fuel (suc n) (omega arith) (omega (arith, (go_on n more).0)) in
        (r.0, r.1, r.2, rw (more, (go_on n more).1, add-one n) r.3)
  ])

  start_lem : new_search db next_can ≡ state_at 0
  start_lem = simp select_all

  -- The search ends by itself: after the packet with some number k, 100 < k ≤ 201, it returns the one
  -- car of the database that could have sent all the messages of bus 1 read so far, else the one that
  -- could have sent those of bus 0, else nothing, and what was seen on each bus in all packets read.
  pub can_fingerprint_lem :
      (k : ℕ) × (100 < k)
      × (k ≤ 201)
      × (can_fingerprint db next_can
          ≡ some (
            verdict
                (consistent_cars db 0 (received next_can (suc k)))
                (consistent_cars db 1 (received next_can (suc k))),
            seen (received next_can (suc k)) gen_empty_fingerprint,
          ))
  unfolding can_fingerprint
  can_fingerprint_lem = rw start_lem (search_loop_lem 202 0 (omega arith) (omega arith))
