-- ===== src/Ecus.antt =====
-- The scan for ECUs by tester-present requests, selfdrive/car/ecu_addrs.py, and the silencing of one,
-- selfdrive/car/disable_ecu.py. The messages read before the time is over and the outcomes of the
-- queries are the input.
pub mod Scan
mod Tests
use openpilot9xxcivic.Prelude.{
  ℕ, zero, suc, ◌+◌, ◌-◌, Bool, true, false, not, ◌&&◌, ◌||◌, leb, nat_beq, if◌then◌else◌, Option,
  none, some, List, [], ◌∷◌, ◌++◌, is_some, length, replicate, get_elem?, contains, add,
  nat_comparable, option_comparable, pair_comparable,
}

-- `EcuAddrBusType`: the address with the sub-address, and the bus.
abbrev pub Ecu : Type 0
Ecu = (ℕ × Option ℕ) × ℕ

pub record CanMessage : Type 0 where
  pub address : ℕ
  pub dat : List ℕ
  pub src : ℕ

-- `dat[i]`, for data that is long enough.
abbrev pub byte : List ℕ → ℕ → ℕ
byte [] i = 0
byte (b ∷ bs) zero = b
byte (b ∷ bs) (suc i) = byte bs i

-- The service TESTER_PRESENT of panda's uds is 0x3E.
abbrev pub tester_present : ℕ
tester_present = 62

abbrev pub prefixed : Option ℕ → List ℕ → List ℕ
prefixed none dat = dat
prefixed (some subaddr) dat = subaddr ∷ dat

unfoldable pub make_tester_present_msg : (addr bus : ℕ) (subaddr : Option ℕ) → CanMessage
make_tester_present_msg addr bus subaddr =
    let dat = prefixed subaddr (2 ∷ tester_present ∷ 0 ∷ []) in
    record { address = addr; dat = dat ++ replicate (8 - length dat) 0; src = bus }

unfoldable pub is_tester_present_response : CanMessage → (subaddr : Option ℕ) → Bool
is_tester_present_response msg subaddr =
    let dat_offset : ℕ = if is_some subaddr then 1 else 0 in
    nat_beq (length msg.dat) 8
    && leb 1 (byte msg.dat dat_offset)
    && leb (byte msg.dat dat_offset) 7
    && (nat_beq (byte msg.dat (dat_offset + 1)) (tester_present + 64)
        || nat_beq (byte msg.dat (dat_offset + 1)) 127
          && nat_beq (byte msg.dat (dat_offset + 2)) tester_present)

-- The ECU that a message is from, as far as the expected responses tell.
unfoldable pub sender : List Ecu → CanMessage → Ecu
sender responses msg =
    let subaddr : Option ℕ =
      if contains responses ((msg.address, none), msg.src) then none else some (byte msg.dat 0) in
    ((msg.address, subaddr), msg.src)

unfoldable pub is_response : List Ecu → CanMessage → Bool
unfolding sender is_tester_present_response
is_response responses msg =
    not (nat_beq (length msg.dat) 0)
    && contains responses (sender responses msg)
    && is_tester_present_response msg (sender responses msg).0.1

-- The loop of `get_ecu_addrs` over the messages.
unfoldable pub collect_ecus : List Ecu → List CanMessage → (ecu_responses : List Ecu) → List Ecu
unfolding is_response
collect_ecus responses [] ecu_responses = ecu_responses
collect_ecus responses (msg ∷ rest) ecu_responses =
    collect_ecus responses rest (
      if is_response responses msg then add ecu_responses (sender responses msg) else ecu_responses)

unfoldable pub get_ecu_addrs : List Ecu → List CanMessage → List Ecu
unfolding collect_ecus
get_ecu_addrs responses msgs = collect_ecus responses msgs []

-- What an attempt of `disable_ecu` meets: an exception of the first query, no answer to it, or an answer
-- and then an exception of the second query or none.
pub data Attempt : Type 0 where
  raised silent : Attempt
  answered : (second_raised : Bool) → Attempt

-- The two requests, in the order in which they are sent.
pub data Sent : Type 0 where
  ext_diag com_cont : Sent

-- The attempts that are left, one after the other: what is returned, and what was sent.
unfoldable pub disable_ecu : List Attempt → Bool × List Sent
disable_ecu [] = (false, [])
disable_ecu (answered false ∷ attempts) = (true, ext_diag ∷ com_cont ∷ [])
disable_ecu (answered true ∷ attempts) =
    let (disabled, sent) = disable_ecu attempts in (disabled, ext_diag ∷ com_cont ∷ sent)
disable_ecu (_ ∷ attempts) =
    let (disabled, sent) = disable_ecu attempts in (disabled, ext_diag ∷ sent)
