-- ===== src/IsoTp.antt =====
-- `IsoTpParallelQuery.get_data` of selfdrive/car/isotp_parallel_query.py: UDS requests to several
-- addresses at once. What `IsoTpMessage.recv` of panda reports, and the clock, are the input: for each
-- pass of the loop and each address one report with the time at which it came. The clock is an integer.
mod Answers
mod Rounds
mod Tests
use mathlib.Core.Option
use openpilot9xxcivic.Prelude.{
  ℕ, zero, suc, ◌+◌, ◌-◌, ◌*◌, Bool, true, false, not, ◌&&◌, ◌||◌, ltb, nat_beq, if◌then◌else◌,
  Option, none, some, List, [], ◌∷◌, ◌++◌, get_elem?, length, is_empty, all, take, drop, ◌==◌,
  Comparable, nat_comparable,
}

abbrev pub Bytes : Type 0
Bytes = List ℕ

-- The arguments of the query that `get_data` uses; times in milliseconds.
pub record Query : Type 0 where
  pub request : List Bytes
  pub response : List Bytes
  pub timeout : ℕ
  pub response_pending_timeout : ℕ
  pub total_timeout : ℕ

-- What `msg.recv()` does: it raises, or it returns `(dat, rx_in_progress)`.
pub data Report : Type 0 where
  raised : Report
  received : Option Bytes → Bool → Report

-- What `get_data` keeps for an address: the entries of `request_counter`, `request_done`,
-- `response_timeouts` and `results`, and the requests handed to its `IsoTpMessage` so far.
pub record Exchange : Type 0 where
  pub request_counter : ℕ
  pub request_done : Bool
  pub response_timeout : ℕ
  pub result : Option Bytes
  pub sent : List Bytes

-- `dat.startswith(prefix)` with what follows the prefix.
unfoldable pub after_prefix : (prefix dat : Bytes) → Option Bytes
after_prefix [] dat = some dat
after_prefix (b ∷ bs) [] = none
after_prefix (b ∷ bs) (c ∷ cs) = if nat_beq b c then after_prefix bs cs else none

-- `dat[2] if len(dat) > 2 else -1`, where only the value 0x78 matters.
unfoldable pub is_pending : Bytes → Bool
is_pending (a ∷ b ∷ c ∷ rest) = nat_beq c 120
is_pending _ = false

unfoldable pub first_request : Query → List Bytes
first_request q = take 1 q.request

-- Before the loop: the first request is sent, or set up after the functional addresses got it.
unfoldable pub start_exchange : Query → (start_time : ℕ) → Exchange
unfolding first_request
start_exchange q start_time = record {
  request_counter = 0;
  request_done = false;
  response_timeout = start_time + q.timeout;
  result = none;
  sent = first_request q;
}

-- A response that starts as expected; `rest` is what follows.
unfoldable pub on_valid : Query → (now : ℕ) (rest : Bytes) → Exchange → Exchange
on_valid q now rest x =
    if ltb (x.request_counter + 1) (length q.request)
    then record x {
      response_timeout = now + q.timeout;
      sent = x.sent ++ take 1 (drop (x.request_counter + 1) q.request);
      request_counter = x.request_counter + 1;
    }
    else record x { result = some rest; request_done = true }

unfoldable pub on_bad : Query → (now : ℕ) (dat : Bytes) → Exchange → Exchange
unfolding is_pending
on_bad q now dat x =
    if is_pending dat
    then record x { response_timeout = now + q.response_pending_timeout }
    else record x { request_done = true }

unfoldable pub judge : Query → (now : ℕ) (dat : Bytes) → Option Bytes → Exchange → Exchange
unfolding on_valid on_bad
judge q now dat (some rest) x = on_valid q now rest x
judge q now dat none x = on_bad q now dat x

-- The response against the expected one; `none` is the `IndexError` where there is none.
unfoldable pub compare_response :
    Query
    → (now : ℕ) (dat : Bytes) → (expected_response : Option Bytes) → Exchange
    → Option Exchange
unfolding judge after_prefix
compare_response q now dat none x = none
compare_response q now dat (some expected_response) x =
    some (judge q now dat (after_prefix expected_response dat) x)

unfoldable pub read_dat : Query → (now : ℕ) → Option Bytes → Exchange → Option Exchange
unfolding compare_response
read_dat q now none x = some x
read_dat q now (some []) x = some (record x { request_done = true })
read_dat q now (some (b ∷ bs)) x =
    compare_response q now (b ∷ bs) (get_elem? q.response x.request_counter) x

-- One round of `for tx_addr, msg in msgs.items()`.
unfoldable pub receive : Query → (now : ℕ) → Report → Exchange → Option Exchange
unfolding read_dat
receive q now raised x = some (record x { request_done = true })
receive q now (received dat rx_in_progress) x =
    read_dat q now dat
      (if rx_in_progress then record x { response_timeout = now + q.timeout } else x)

-- An address whose time is over is done.
unfoldable pub expire : (cur_time : ℕ) → Exchange → Exchange
expire cur_time x = if ltb x.response_timeout cur_time then record x { request_done = true } else x

-- The input of a pass: per address the report and its time, and the time after the reports.
pub record Pass : Type 0 where
  pub report : ℕ → Report
  pub now : ℕ → ℕ
  pub cur_time : ℕ

-- The part of a pass that concerns an address.
unfoldable pub pass_at : Query → Pass → ℕ → Exchange → Option Exchange
unfolding receive expire
pass_at q p addr x = Option.map (expire p.cur_time) (receive q (p.now addr) (p.report addr) x)

unfoldable pub cons_both :
    ℕ → Option Exchange → Option (List (ℕ × Exchange)) → Option (List (ℕ × Exchange))
cons_both addr (some x) (some rest) = some ((addr, x) ∷ rest)
cons_both addr _ _ = none

-- The loops over the addresses in a pass; an exception in one of them ends the call.
unfoldable pub pass_all : Query → Pass → List (ℕ × Exchange) → Option (List (ℕ × Exchange))
unfolding pass_at cons_both
pass_all q p [] = some []
pass_all q p ((addr, x) ∷ rest) = cons_both addr (pass_at q p addr x) (pass_all q p rest)

abbrev pub is_finished : ℕ × Exchange → Bool
is_finished (addr, x) = x.request_done

-- What the call has come to: it returned, it raised, or the passes given are over before.
pub data Outcome : Type 0 where
  returned : List (ℕ × Exchange) → Outcome
  index_error : Outcome
  running : Outcome

-- `while True`
unfoldable pub loop : Query → (start_time : ℕ) → List Pass → List (ℕ × Exchange) → Outcome
unfolding pass_all
loop q start_time [] xs = running
loop q start_time (p ∷ ps) xs = elim (pass_all q p xs) [
  | none ↦ index_error
  | some ys ↦
      if all is_finished ys || ltb q.total_timeout (p.cur_time - start_time)
      then returned ys
      else loop q start_time ps ys
]

unfoldable pub start_all : Query → (start_time : ℕ) → List ℕ → List (ℕ × Exchange)
unfolding start_exchange
start_all q start_time [] = []
start_all q start_time (addr ∷ addrs) =
    (addr, start_exchange q start_time) ∷ start_all q start_time addrs

-- The call for the addresses `addrs`; the source returns their fields `result` as a dictionary.
unfoldable pub get_data : Query → (start_time : ℕ) → List ℕ → List Pass → Outcome
unfolding loop start_all
get_data q start_time addrs passes = loop q start_time passes (start_all q start_time addrs)
