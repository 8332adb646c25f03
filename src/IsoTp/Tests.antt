-- ===== src/IsoTp/Tests.antt =====
-- A query of two addresses, and the theorem at it.
use openpilot9xxcivic.Prelude.{
  ℕ, ◌≤◌, ◌≡◌, refl, true, false, Option, none, some, List, [], ◌∷◌, take, map, nat_beq,
  if◌then◌else◌, arith,
}
use openpilot9xxcivic.IsoTp.{
  Bytes, Query, received, Exchange, Pass, Outcome, returned, get_data, loop, start_all, pass_all,
  pass_at, cons_both, receive, read_dat, compare_response, judge, on_valid, on_bad, after_prefix,
  expire, start_exchange, first_request, is_pending,
}
use openpilot9xxcivic.IsoTp.Answers.{progress}
use openpilot9xxcivic.IsoTp.Rounds.{reports, answer, get_data_lem}

-- Tester present, then the software version.
abbrev version_query : Query
version_query = record {
  request = (62 ∷ 0 ∷ []) ∷ (34 ∷ 241 ∷ 129 ∷ []) ∷ [];
  response = (126 ∷ 0 ∷ []) ∷ (98 ∷ 241 ∷ 129 ∷ []) ∷ [];
  timeout = 100;
  response_pending_timeout = 10000;
  total_timeout = 60000;
}

-- The first address answers, the second one does not.
abbrev answered : Bytes → (cur_time : ℕ) → Pass
answered dat cur_time = record {
  report = λ addr. if nat_beq addr 2016 then received (some dat) true else received none false;
  now = λ addr. cur_time;
  cur_time = cur_time;
}

abbrev passes : List Pass
passes =
    answered (126 ∷ 0 ∷ []) 10
    ∷ answered (98 ∷ 241 ∷ 129 ∷ 65 ∷ 66 ∷ []) 20
    ∷ answered [] 150
    ∷ answered [] 70000
    ∷ []

abbrev answers_of : Outcome → List (ℕ × Option Bytes)
answers_of (returned xs) = map answer xs
answers_of _ = []

-- One answer, in the third pass, after which both are done.
two_addresses :
    answers_of (get_data version_query 0 (2016 ∷ 2018 ∷ []) passes)
    ≡ (2016, some (65 ∷ 66 ∷ [])) ∷ (2018, none) ∷ []
unfolding get_data loop start_all pass_all pass_at cons_both receive read_dat compare_response judge
    on_valid on_bad after_prefix expire start_exchange first_request is_pending
two_addresses = refl

get_data_lem_example :
    (k : ℕ) × (ys : List (ℕ × Exchange)) × (k ≤ 4)
    × (get_data version_query 0 (2016 ∷ 2018 ∷ []) passes ≡ returned ys)
    × (map answer ys
        ≡ map
            (λ addr.
              (addr, (progress (version_query.response, none) (reports addr (take k passes))).1))
            (2016 ∷ 2018 ∷ []))
get_data_lem_example =
    get_data_lem version_query 0 (2016 ∷ 2018 ∷ []) passes (omega arith) refl refl
