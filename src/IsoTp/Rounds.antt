-- ===== src/IsoTp/Rounds.antt =====
-- The answers that `get_data` of selfdrive/car/isotp_parallel_query.py returns, and its end.
use openpilot9xxcivic.Prelude.{
  ℕ, suc, ◌-◌, ◌≤◌, ◌<◌, ◌≡◌, refl, ap, ◌∙◌, inl, inr, Bool, true, ◌||◌, ltb, Option, none, some,
  List, [], ◌∷◌, length, all, any, take, map, arith, Bool-cases,
}
use openpilot9xxcivic.IsoTp.{
  Bytes, Query, Report, Exchange, start_exchange, expire, Pass, pass_at, cons_both, pass_all,
  is_finished, returned, loop, start_all, get_data,
}
use openpilot9xxcivic.IsoTp.Answers.{Progress, progress, Follows, receive_lem, expire_lem}

-- What a pass reports for an address.
abbrev pub reports : ℕ → List Pass → List Report
reports addr [] = []
reports addr (p ∷ ps) = p.report addr ∷ reports addr ps

pass_at_lem :
    (q : Query) (p : Pass) (addr : ℕ) (x : Exchange) (st : Progress)
    → Follows q x st
    → (y : Exchange) × (pass_at q p addr x ≡ some y)
      × Follows q y (progress st (p.report addr ∷ []))
unfolding pass_at
pass_at_lem q p addr x st (h, e) =
    let (y, r, f) = receive_lem q (p.now addr) (p.report addr) x h in
    (
      expire p.cur_time y,
      rw r refl,
      expire_lem q p.cur_time y _ (f.0, f.1 ∙ ap (λ t. progress t (p.report addr ∷ [])) e),
    )

-- Each address has come as far as `at` says.
abbrev Tracks : Query → (at : ℕ → Progress) → List (ℕ × Exchange) → Type 0
Tracks q at [] = Unit
Tracks q at ((addr, x) ∷ rest) = Follows q x (at addr) × Tracks q at rest

abbrev pub address : ℕ × Exchange → ℕ
address (addr, x) = addr

pass_all_lem :
    (q : Query) (p : Pass) (xs : List (ℕ × Exchange)) (at : ℕ → Progress)
    → Tracks q at xs
    → (ys : List (ℕ × Exchange)) × (pass_all q p xs ≡ some ys)
      × Tracks q (λ addr. progress (at addr) (p.report addr ∷ [])) ys
      × (map address ys ≡ map address xs)
unfolding pass_all cons_both
pass_all_lem q p [] at t = ([], refl, tt, refl)
pass_all_lem q p ((addr, x) ∷ xs) at t =
    let (y, e, f) = pass_at_lem q p addr x (at addr) t.0 in
    let (ys, es, ts, ks) = pass_all_lem q p xs at t.1 in
    ((addr, y) ∷ ys, rw (e, es) refl, (f, ts), ap (λ l. addr ∷ l) ks)

-- A pass that ends after the total time.
abbrev pub is_late : Query → (start_time : ℕ) → Pass → Bool
is_late q start_time p = ltb q.total_timeout (p.cur_time - start_time)

loop_lem :
    (q : Query) (start_time : ℕ) (ps : List Pass) (xs : List (ℕ × Exchange)) (at : ℕ → Progress)
    → Tracks q at xs
    → any (is_late q start_time) ps ≡ true
    → (k : ℕ) × (ys : List (ℕ × Exchange)) × (k ≤ length ps)
      × (loop q start_time ps xs ≡ returned ys)
      × Tracks q (λ addr. progress (at addr) (reports addr (take k ps))) ys
      × (map address ys ≡ map address xs)
unfolding loop
loop_lem q start_time [] xs at t h = absurd (ground arith)
loop_lem q start_time (p ∷ ps) xs at t h =
    let (ys, e, ts, ks) = pass_all_lem q p xs at t in
    elim (Bool-cases (all is_finished ys || is_late q start_time p)) [
      | inl stop ↦ (1, ys, omega arith, rw (loop, e, stop) refl, ts, ks)
      | inr go ↦
          let (k, zs, l, r, us, js) =
            loop_lem q start_time ps ys (λ addr. progress (at addr) (p.report addr ∷ [])) ts
              (ground arith) in
          (suc k, zs, omega arith, rw (loop, e, go) r, us, js ∙ ks)
    ]

start_lem :
    (q : Query) (start_time : ℕ) (addrs : List ℕ)
    → 0 < length q.request
    → length q.request ≡ length q.response
    → Tracks q (λ addr. (q.response, none)) (start_all q start_time addrs)
      × (map address (start_all q start_time addrs) ≡ addrs)
unfolding start_all start_exchange
start_lem q start_time [] h e = (tt, refl)
start_lem q start_time (addr ∷ addrs) h e =
    let (t, k) = start_lem q start_time addrs h e in ((((h, e), refl), t), ap (λ l. addr ∷ l) k)

abbrev pub answer : ℕ × Exchange → ℕ × Option Bytes
answer (addr, x) = (addr, x.result)

answers :
    (q : Query) (at : ℕ → Progress) (ys : List (ℕ × Exchange))
    → Tracks q at ys
    → map answer ys ≡ map (λ addr. (addr, (at addr).1)) (map address ys)
answers q at [] t = refl
answers q at ((addr, x) ∷ ys) t =
    ap (λ r. (addr, r) ∷ map answer ys) (ap (λ s. s.1) t.0.1)
    ∙ ap (λ l. (addr, (at addr).1) ∷ l) (answers q at ys t.1)

-- If there are as many expected responses as requests, and one at least, and some pass ends after the
-- total time, then `get_data` returns, after some number of passes. Its answer for an address is what
-- follows the last expected response in the last report that has it in the place of the last one:
-- the reports of those passes are read in order, and each response is expected once the one before it
-- has come.
pub get_data_lem :
    (q : Query) (start_time : ℕ) (addrs : List ℕ) (passes : List Pass)
    → 0 < length q.request
    → length q.request ≡ length q.response
    → any (is_late q start_time) passes ≡ true
    → (k : ℕ) × (ys : List (ℕ × Exchange)) × (k ≤ length passes)
      × (get_data q start_time addrs passes ≡ returned ys)
      × (map answer ys
          ≡ map
              (λ addr. (addr, (progress (q.response, none) (reports addr (take k passes))).1))
              addrs)
unfolding get_data
get_data_lem q start_time addrs passes h e late =
    let (t, names) = start_lem q start_time addrs h e in
    let (k, ys, l, r, ts, ks) =
      loop_lem q start_time passes (start_all q start_time addrs) (λ addr. (q.response, none)) t
        late in
    (k, ys, l, r, answers q _ ys ts ∙ ap (map _) (ks ∙ names))
