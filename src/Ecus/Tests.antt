-- ===== src/Ecus/Tests.antt =====
-- A scan of two ECUs, and an ECU that answers at the second attempt.
use openpilot9xxcivic.Prelude.{
  ◌≡◌, refl, true, false, none, some, List, [], ◌∷◌, any, contains, add, nat_comparable,
  option_comparable, pair_comparable,
}
use openpilot9xxcivic.Ecus.{
  Ecu, CanMessage, get_ecu_addrs, collect_ecus, is_response, sender, is_tester_present_response,
  silent, answered, disable_ecu,
}
use openpilot9xxcivic.Ecus.Scan.{is_ordered, succeeds, disable_ecu_lem}

abbrev expected : List Ecu
expected = ((2024, none), 0) ∷ ((1872, some 15), 0) ∷ []

abbrev messages : List CanMessage
messages =
    record { address = 2024; dat = 2 ∷ 126 ∷ 0 ∷ 0 ∷ 0 ∷ 0 ∷ 0 ∷ 0 ∷ []; src = 0 }
    ∷ record { address = 1872; dat = 15 ∷ 3 ∷ 127 ∷ 62 ∷ 17 ∷ 0 ∷ 0 ∷ 0 ∷ []; src = 0 }
    ∷ record { address = 1872; dat = []; src = 0 }
    ∷ []

both_found : contains (get_ecu_addrs expected messages) ((1872, some 15), 0) ≡ true
unfolding get_ecu_addrs collect_ecus is_response sender is_tester_present_response contains add
both_found = refl

disable_ecu_lem_example :
    ((disable_ecu (silent ∷ answered false ∷ silent ∷ [])).0
      ≡ any succeeds (silent ∷ answered false ∷ silent ∷ []))
    × (is_ordered (disable_ecu (silent ∷ answered false ∷ silent ∷ [])).1 ≡ true)
disable_ecu_lem_example = disable_ecu_lem (silent ∷ answered false ∷ silent ∷ [])
