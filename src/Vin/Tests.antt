-- ===== src/Vin/Tests.antt =====
-- VINs as cars send them.
use openpilot9xxcivic.Prelude.{
  ℕ, ◌≡◌, refl, true, false, List, [], ◌∷◌, ◌++◌, replicate, some, none, Option, lookup, contains,
  nat_comparable, Dict,
}
use openpilot9xxcivic.Vin.{codes, is_valid_vin, clean_vin}
use openpilot9xxcivic.Vin.Query.{
  VinQuery, VinFound, VinRequest, get_vin, run_buses, run_queries, run_query, clean_vin_lem,
}
use openpilot9xxcivic.Vin.Sound.{IsAnswer, get_vin_sound}

good : is_valid_vin "1HGFE2F5XNA000001" ≡ true
unfolding is_valid_vin
good = refl

letter_o : is_valid_vin "1HGFE2F5XNA00000O" ≡ false
unfolding is_valid_vin
letter_o = refl

abbrev tail_of_vin : List ℕ
tail_of_vin = codes "HGFE2F5XNA000001"

clean_vin_lem_example :
    (clean_vin (49 ∷ tail_of_vin) ≡ 49 ∷ tail_of_vin)
    × (clean_vin ((49 ∷ tail_of_vin) ++ replicate 2 0) ≡ 49 ∷ tail_of_vin)
    × (clean_vin ((49 ∷ tail_of_vin) ++ replicate 7 0) ≡ 49 ∷ tail_of_vin)
    × (clean_vin (0x11 ∷ 49 ∷ tail_of_vin) ≡ 49 ∷ tail_of_vin)
clean_vin_lem_example = clean_vin_lem 49 tail_of_vin refl refl refl

-- The engine answers the second kind of request, on bus 1.
abbrev answers : ℕ → ℕ → VinQuery → Option (Dict ℕ (List ℕ))
answers round bus q = elim q.request [
  | VinRequest.obd_vin ↦ some ((0x7e0, 49 ∷ tail_of_vin) ∷ [])
  | _ ↦ none
]

abbrev found : VinFound
found = record { addr = 0x7e0; rx_offset = 0x8; bus = 1; vin = 49 ∷ tail_of_vin }

get_vin_sound_example : IsAnswer (λ b. true) answers 0 2 (1 ∷ []) found
unfolding get_vin run_buses run_queries run_query clean_vin contains lookup
get_vin_sound_example = get_vin_sound (λ b. true) answers 2 0 (1 ∷ []) found refl
