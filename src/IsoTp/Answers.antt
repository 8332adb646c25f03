-- ===== src/IsoTp/Answers.antt =====
-- What a report does to an exchange of `get_data` in selfdrive/car/isotp_parallel_query.py.
use openpilot9xxcivic.Prelude.{
  ℕ, zero, suc, ◌+◌, ◌≤◌, ◌<◌, ◌≡◌, refl, sym, ap, ◌∙◌, inl, inr, true, false, ltb, Option, none,
  some, List, [], ◌∷◌, get_elem?, length, drop, arith, Bool-cases,
}
use openpilot9xxcivic.IsoTp.{
  is_pending, Bytes, Query, Report, raised, received, Exchange, after_prefix, on_valid, on_bad,
  judge, compare_response, read_dat, receive, expire,
}

-- The responses still to come, the last of them for good, and the answer so far.
abbrev pub Progress : Type 0
Progress = List Bytes × Option Bytes

-- What a report brings to compare.
abbrev pub payload : Report → Option Bytes
payload raised = none
payload (received none b) = none
payload (received (some []) b) = none
payload (received (some (b ∷ bs)) c) = some (b ∷ bs)

-- A response that starts as the next one expected is taken; the last one gives the answer, and a
-- further one in its place replaces it.
abbrev pub advance : List Bytes → Option Bytes → (rest : Option Bytes) → Progress
advance rs answer none = (rs, answer)
advance [] answer (some rest) = ([], answer)
advance (r ∷ []) answer (some rest) = (r ∷ [], some rest)
advance (r ∷ s ∷ rs) answer (some rest) = (s ∷ rs, answer)

abbrev pub matched : List Bytes → Option Bytes → Option Bytes
matched [] dat = none
matched (r ∷ rs) none = none
matched (r ∷ rs) (some dat) = after_prefix r dat

-- The reports of an address, read from the first one on.
abbrev pub progress : Progress → List Report → Progress
progress (rs, answer) [] = (rs, answer)
progress (rs, answer) (report ∷ reports) =
    progress (advance rs answer (matched rs (payload report))) reports

abbrev pub progress_of : Query → Exchange → Progress
progress_of q x = (drop x.request_counter q.response, x.result)

abbrev pub IsReady : Query → Exchange → Type 0
IsReady q x = (x.request_counter < length q.request) × (length q.request ≡ length q.response)

drop_get :
    (xs : List Bytes) (i : ℕ)
    → i < length xs
    → (r : Bytes) × (get_elem? xs i ≡ some r) × (drop i xs ≡ r ∷ drop (i + 1) xs)
drop_get [] i h = absurd (omega arith)
drop_get (x ∷ xs) zero h = (x, refl, refl)
drop_get (x ∷ xs) (suc i) h =
    let (r, g, d) = drop_get xs i (omega arith) in
    (r, g, d ∙ ap (λ n. r ∷ drop n (x ∷ xs)) (next i))
  where
    next : (i : ℕ) → suc (i + 1) ≡ suc i + 1
    next i = omega arith

drop_all : (xs : List Bytes) (i : ℕ) → length xs ≤ i → drop i xs ≡ []
drop_all [] zero h = refl
drop_all [] (suc i) h = refl
drop_all (x ∷ xs) zero h = absurd (omega arith)
drop_all (x ∷ xs) (suc i) h = drop_all xs i (omega arith)

matched_nothing : (rs : List Bytes) → matched rs none ≡ none
matched_nothing [] = refl
matched_nothing (r ∷ rs) = refl

progress_nothing :
    (rs : List Bytes) (answer : Option Bytes) → advance rs answer (matched rs none) ≡ (rs, answer)
progress_nothing rs answer = rw (matched_nothing rs) refl

-- A step of the code and of the description.
abbrev pub Follows : Query → Exchange → Progress → Type 0
Follows q y p = IsReady q y × (progress_of q y ≡ p)

valid_lem :
    (q : Query) (now : ℕ) (rest : Bytes) (x : Exchange)
    → IsReady q x
    → Follows q
        (on_valid q now rest x)
        (advance (drop x.request_counter q.response) x.result (some rest))
unfolding on_valid
valid_lem q now rest x (h, e) =
    let (r, g, d) = drop_get q.response x.request_counter (omega arith) in
    elim (Bool-cases (ltb (x.request_counter + 1) (length q.request))) [
      | inl more ↦
          let (s, g', d') = drop_get q.response (x.request_counter + 1) (ground arith) in
          rw more ((ground arith, e), rw (d, d') refl)
      | inr last ↦
          rw last ((h, e), rw (d, drop_all q.response (x.request_counter + 1) (ground arith)) refl)
    ]

bad_lem :
    (q : Query) (now : ℕ) (dat : Bytes) (x : Exchange)
    → IsReady q x
    → Follows q (on_bad q now dat x) (progress_of q x)
unfolding on_bad
bad_lem q now dat x h = elim (Bool-cases (is_pending dat)) [
  | inl p ↦ rw p (h, refl)
  | inr p ↦ rw p (h, refl)
]

judge_lem :
    (q : Query) (now : ℕ) (dat : Bytes) (rest : Option Bytes) (x : Exchange)
    → IsReady q x
    → Follows q (judge q now dat rest x) (advance (drop x.request_counter q.response) x.result rest)
unfolding judge
judge_lem q now dat (some rest) x h = valid_lem q now rest x h
judge_lem q now dat none x h = bad_lem q now dat x h

compare_lem :
    (q : Query) (now : ℕ) (b : ℕ) (bs : Bytes) (x : Exchange)
    → IsReady q x
    → (y : Exchange) × (compare_response q now (b ∷ bs) (get_elem? q.response x.request_counter) x
        ≡ some y)
      × Follows q y (
          advance
            (drop x.request_counter q.response)
            x.result
            (matched (drop x.request_counter q.response) (some (b ∷ bs))))
unfolding compare_response
compare_lem q now b bs x (h, e) =
    let (r, g, d) = drop_get q.response x.request_counter (omega arith) in
    let j = judge_lem q now (b ∷ bs) (after_prefix r (b ∷ bs)) x (h, e) in
    (
      judge q now (b ∷ bs) (after_prefix r (b ∷ bs)) x,
      rw g refl,
      (
        j.0,
        j.1
            ∙ ap (advance (drop x.request_counter q.response) x.result)
                (ap (λ l. matched l (some (b ∷ bs))) (sym d)),
      ),
    )

-- A report changes the time out at most before it is compared.
pub receive_lem :
    (q : Query) (now : ℕ) (report : Report) (x : Exchange)
    → IsReady q x
    → (y : Exchange) × (receive q now report x ≡ some y)
      × Follows q y (
          advance
            (drop x.request_counter q.response)
            x.result
            (matched (drop x.request_counter q.response) (payload report)))
unfolding receive read_dat
receive_lem q now raised x h =
    (record x { request_done = true }, refl, (h, sym (progress_nothing _ x.result)))
receive_lem q now (received none true) x h =
    (record x { response_timeout = now + q.timeout }, refl, (h, sym (progress_nothing _ x.result)))
receive_lem q now (received none false) x h = (x, refl, (h, sym (progress_nothing _ x.result)))
receive_lem q now (received (some []) true) x h = (
  record x { response_timeout = now + q.timeout; request_done = true },
  refl,
  (h, sym (progress_nothing _ x.result)),
)
receive_lem q now (received (some []) false) x h =
    (record x { request_done = true }, refl, (h, sym (progress_nothing _ x.result)))
receive_lem q now (received (some (c ∷ cs)) true) x h =
    compare_lem q now c cs (record x { response_timeout = now + q.timeout }) h
receive_lem q now (received (some (c ∷ cs)) false) x h = compare_lem q now c cs x h

pub expire_lem :
    (q : Query) (cur_time : ℕ) (y : Exchange) (p : Progress)
    → Follows q y p
    → Follows q (expire cur_time y) p
unfolding expire
expire_lem q cur_time y p h = elim (Bool-cases (ltb y.response_timeout cur_time)) [
  | inl late ↦ rw late h
  | inr early ↦ rw early h
]
