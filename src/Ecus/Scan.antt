-- ===== src/Ecus/Scan.antt =====
-- What the scan of selfdrive/car/ecu_addrs.py finds, and what `disable_ecu` sends.
use openpilot9xxcivic.Prelude.{
  ◌≡◌, refl, ◌∙◌, Bool, true, false, ◌&&◌, ◌||◌, ◌==◌, if◌then◌else◌, List, [], ◌∷◌, any, contains,
  add, contains-add, nat_comparable, option_comparable, pair_comparable, arith, Bool-cases, inl,
  inr,
}
use openpilot9xxcivic.Ecus.{
  Ecu, CanMessage, sender, is_response, collect_ecus, get_ecu_addrs, Attempt, raised, silent,
  answered, Sent, ext_diag, com_cont, disable_ecu,
}

-- Some message is a response of the ECU.
abbrev pub answers : List Ecu → Ecu → CanMessage → Bool
answers responses ecu msg = is_response responses msg && (sender responses msg == ecu)

collect_step :
    (found : List Ecu) (responses : List Ecu) (msg : CanMessage) (ecu : Ecu)
    → contains (if is_response responses msg then add found (sender responses msg) else found) ecu
      ≡ (contains found ecu || answers responses ecu msg)
collect_step found responses msg ecu = elim (Bool-cases (is_response responses msg)) [
  | inl hit ↦ rw hit (contains-add found (sender responses msg) ecu)
  | inr miss ↦ rw miss (ground arith)
]

collect_lem :
    (responses : List Ecu) (msgs : List CanMessage) (found : List Ecu) (ecu : Ecu)
    → contains (collect_ecus responses msgs found) ecu
      ≡ (contains found ecu || any (answers responses ecu) msgs)
unfolding collect_ecus
collect_lem responses [] found ecu = ground arith
collect_lem responses (msg ∷ msgs) found ecu =
    collect_lem responses msgs
      (if is_response responses msg then add found (sender responses msg) else found) ecu
    ∙ rw (collect_step found responses msg ecu) (
        or_assoc (contains found ecu) (answers responses ecu msg)
          (any (answers responses ecu) msgs))
  where
    or_assoc : (a b c : Bool) → (a || b || c) ≡ (a || (b || c))
    or_assoc true b c = refl
    or_assoc false b c = refl

-- The scan finds exactly the expected ECUs of which some message that was read is a response to tester
-- present.
pub get_ecu_addrs_lem :
    (responses : List Ecu) (msgs : List CanMessage) (ecu : Ecu)
    → contains (get_ecu_addrs responses msgs) ecu ≡ any (answers responses ecu) msgs
unfolding get_ecu_addrs contains
get_ecu_addrs_lem responses msgs ecu = collect_lem responses msgs [] ecu

-- The two requests of an attempt stand in order: each control request follows a diagnostic request.
abbrev pub is_ordered : List Sent → Bool
is_ordered [] = true
is_ordered (com_cont ∷ rest) = false
is_ordered (ext_diag ∷ []) = true
is_ordered (ext_diag ∷ com_cont ∷ rest) = is_ordered rest
is_ordered (ext_diag ∷ ext_diag ∷ rest) = is_ordered (ext_diag ∷ rest)

abbrev pub succeeds : Attempt → Bool
succeeds (answered false) = true
succeeds _ = false

ordered_cons : (sent : List Sent) → is_ordered sent ≡ true → is_ordered (ext_diag ∷ sent) ≡ true
ordered_cons [] h = refl
ordered_cons (ext_diag ∷ rest) h = h
ordered_cons (com_cont ∷ rest) h = ground arith

-- An ECU counts as disabled exactly if some attempt got an answer and raised no exception; and no
-- control request is sent without the diagnostic request right before it.
pub disable_ecu_lem :
    (attempts : List Attempt)
    → ((disable_ecu attempts).0 ≡ any succeeds attempts)
      × (is_ordered (disable_ecu attempts).1 ≡ true)
unfolding disable_ecu
disable_ecu_lem [] = (refl, refl)
disable_ecu_lem (raised ∷ attempts) =
    let (d, s) = disable_ecu_lem attempts in (d, ordered_cons (disable_ecu attempts).1 s)
disable_ecu_lem (silent ∷ attempts) =
    let (d, s) = disable_ecu_lem attempts in (d, ordered_cons (disable_ecu attempts).1 s)
disable_ecu_lem (answered false ∷ attempts) = (refl, refl)
disable_ecu_lem (answered true ∷ attempts) = disable_ecu_lem attempts
