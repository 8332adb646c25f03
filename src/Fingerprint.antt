-- ===== src/Fingerprint.antt =====
-- CAN fingerprinting: selfdrive/car/fingerprints.py and `can_fingerprint` of
-- selfdrive/car/car_helpers.py.
mod Outcome
pub mod Startup
mod Origin
mod Tests
use openpilot9xxcivic.Prelude.{
  ℕ, zero, suc, ◌+◌, Bool, true, false, not, ◌&&◌, ◌||◌, ◌==◌, nat_comparable, ltb, leb,
  if◌then◌else◌, List, [], ◌∷◌, ◌++◌, Option, none, some, String, Dict, lookup, lookup_or, insert,
  length, select, any, is_some, is_empty,
}
use openpilot9xxcivic.Common.Buses.{Finger, gen_empty_fingerprint}

-- `CanData` of cereal.
pub record CanData : Type 0 where
  pub address : ℕ
  pub dat : List ℕ
  pub src : ℕ

-- The database `_FINGERPRINTS`: its keys, and its value at a key. The candidates are keys.
pub record Database : Type 0 where
  pub all_legacy_fingerprint_cars : List String
  pub fingerprints_of : String → List (Dict ℕ ℕ)

-- `_DEBUG_ADDRESS`, added to a fingerprint.
unfoldable pub with_debug_address : Dict ℕ ℕ → Dict ℕ ℕ
with_debug_address = insert 1880 8

unfoldable pub is_valid_for_fingerprint : CanData → Dict ℕ ℕ → Bool
is_valid_for_fingerprint msg car_fingerprint =
    (elim (lookup msg.address car_fingerprint) [ none ↦ false | some n ↦ n == length msg.dat ])
    || leb 0x800 msg.address

-- `frame` counts the calls of `next_can` made before this one.
pub record Search : Type 0 where
  pub finger : Finger
  pub candidate_cars_0 : List String
  pub candidate_cars_1 : List String
  pub car_fingerprint : Option String
  pub frame : ℕ

abbrev pub frame_fingerprint : ℕ
frame_fingerprint = 100

-- `finger[can.src][can.address] = len(can.dat)`, with the entry of the bus made if it is missing.
unfoldable pub record_message : CanData → Finger → Finger
record_message can finger =
    if ltb can.src 128
    then insert can.src (insert can.address (length can.dat) (lookup_or [] can.src finger)) finger
    else finger

-- Extended messages and the VIN query's response are ignored.
unfoldable pub is_considered : ℕ → CanData → Bool
is_considered b can =
    can.src == b
    && ltb can.address 0x800
    && not (can.address == 0x7df || can.address == 0x7e0 || can.address == 0x7e8)

module _ (db : Database) where
  unfoldable pub could_have_sent : CanData → String → Bool
  unfolding is_valid_for_fingerprint with_debug_address
  could_have_sent msg car_name =
      any (λ fingerprint. is_valid_for_fingerprint msg (with_debug_address fingerprint))
        (db.fingerprints_of car_name)

  unfoldable pub eliminate_incompatible_cars : CanData → List String → List String
  eliminate_incompatible_cars msg candidate_cars = select (could_have_sent msg) candidate_cars

  unfoldable pub eliminate_on : ℕ → CanData → List String → List String
  eliminate_on b can candidate_cars =
      if is_considered b can then eliminate_incompatible_cars can candidate_cars else candidate_cars

  -- The loop over the messages of one packet.
  unfoldable pub process_packet : List CanData → Search → Search
  process_packet [] s = s
  process_packet (can ∷ rest) s = process_packet rest (record s {
    finger = record_message can s.finger;
    candidate_cars_0 = eliminate_on 0 can s.candidate_cars_0;
    candidate_cars_1 = eliminate_on 1 can s.candidate_cars_1;
  })

-- One bus of the loop that looks for a bus with one candidate left.
abbrev pub choose : Bool → List String → Option String → Option String
choose late (car ∷ []) found = if late then some car else found
choose late _ found = found

unfoldable pub conclude : Search → Search
conclude s =
    let late = ltb frame_fingerprint s.frame in
    record s {
      car_fingerprint =
          choose late s.candidate_cars_1 (choose late s.candidate_cars_0 s.car_fingerprint);
    }

unfoldable pub is_done : Search → Bool
is_done s =
    let failed =
      (is_empty s.candidate_cars_0 && is_empty s.candidate_cars_1 && ltb frame_fingerprint s.frame)
      || ltb 200 s.frame in
    let succeeded = is_some s.car_fingerprint in failed || succeeded

module _ (db : Database) (next_can : ℕ → List CanData) where
  -- The `while` loop; `none` means that the fuel ran out.
  unfoldable pub search_loop : ℕ → Search → Option (Option String × Finger)
  search_loop zero s = none
  search_loop (suc fuel) s =
      let s' = conclude (process_packet db (next_can s.frame) s) in
      let rest = search_loop fuel (record s' { frame = s'.frame + 1 }) in
      if is_done s' then some (s'.car_fingerprint, s'.finger) else rest

  abbrev pub new_search : Search
  new_search = record {
    finger = gen_empty_fingerprint;
    candidate_cars_0 = db.all_legacy_fingerprint_cars;
    candidate_cars_1 = db.all_legacy_fingerprint_cars;
    car_fingerprint = none;
    frame = 0;
  }

  unfoldable pub can_fingerprint : Option (Option String × Finger)
  can_fingerprint = search_loop 202 new_search
