-- ===== src/Poll/Served.antt =====
-- What a round of PollDemo/pollDemo.c does for the clients that are ready.
pub mod Rounds
pub mod Echoes
pub mod Session
use unix_net.Common.{
  ℕ, zero, suc, ◌+◌, ◌-◌, ◌≤◌, ◌<◌, ◌≡◌, refl, ap, ◌∙◌, append_assoc, Bool, true, false, Option,
  none, some, List, [], ◌∷◌, ◌++◌, Bytes, map, arith, if◌then◌else◌, length, leb, Bool-cases, inl,
  inr,
}
use unix_net.Sys.{Answer, fail, ret, bytes, Action, Log, ok, econnreset, ◌>>=◌, pure, Cmd}
use unix_net.CString.{to_upper}
use unix_net.Wrap.{read, write, close}
use unix_net.Poll.{Slots, maxline, after_read, serve_client, serve_clients, decrement, none_left}

-- What a ready client does: it sends something, goes away, or resets its connection.
pub data Conduct : Type 0 where
  sends : ℕ → Bytes → Conduct
  leaves resets : Conduct

-- The answers to the calls for it, where a write takes all.
abbrev pub answers_to : Conduct → List Answer
answers_to (sends b bs) = bytes (b ∷ bs) ∷ ret (length (b ∷ bs)) ∷ []
answers_to leaves = bytes [] ∷ ret 0 ∷ []
answers_to resets = fail econnreset ∷ ret 0 ∷ []

abbrev pub calls_for : ℕ → Conduct → Log → Log
calls_for fd (sends b bs) log =
    Action.write fd (map to_upper (b ∷ bs)) ∷ Action.read fd maxline ∷ log
calls_for fd leaves log = Action.close fd ∷ Action.read fd maxline ∷ log
calls_for fd resets log = Action.close fd ∷ Action.read fd maxline ∷ log

abbrev pub slot_after : ℕ → Conduct → Option ℕ
slot_after fd (sends b bs) = some fd
slot_after fd _ = none

serve_one :
    (fd : ℕ) (c : Conduct) (w : List Answer) (log : Log)
    → serve_client fd (answers_to c ++ w) log ≡ ok (slot_after fd c) w (calls_for fd c log)
unfolding serve_client read write close
serve_one fd (sends b bs) w log = refl
serve_one fd leaves w log = refl
serve_one fd resets w log = refl

-- Where one ready descriptor is counted, the count without it is one less; and where nothing is
-- left of it, no other was ready.
pub decrement-suc : (nready : ℕ) → 1 ≤ nready → nready < 2147483648 → decrement nready ≡ nready - 1
unfolding decrement
decrement-suc nready h small = omega (arith, h, small)

pub decrement_fits :
    (count nready : ℕ)
    → nready < 2147483648
    → suc count ≤ nready
    → (count ≤ decrement nready) × (decrement nready < 2147483648)
decrement_fits count nready small h =
    let e = decrement-suc nready (omega (arith, h)) small in
    (omega (arith, e, h), omega (arith, e, h, small))

none_left-zero :
    (count nready : ℕ)
    → nready < 2147483648
    → suc count ≤ nready
    → none_left (decrement nready) ≡ true
    → count ≡ 0
unfolding none_left
none_left-zero count nready small h p =
    let e = decrement-suc nready (omega (arith, h)) small in ground (arith, rw e at p, h, small)

-- All of it for the ready ones of the `n` slots from index `i` on, with no early end.
module _ (revents : ℕ → Bool) (conduct : ℕ → Conduct) where
  abbrev pub ready_count : ℕ → ℕ → Slots → ℕ
  ready_count zero i slots = 0
  ready_count (suc n) i [] = 0
  ready_count (suc n) i (none ∷ slots) = ready_count n (i + 1) slots
  ready_count (suc n) i (some fd ∷ slots) =
      if revents i then suc (ready_count n (i + 1) slots) else ready_count n (i + 1) slots

  abbrev pub all_answers : ℕ → ℕ → Slots → List Answer
  all_answers zero i slots = []
  all_answers (suc n) i [] = []
  all_answers (suc n) i (none ∷ slots) = all_answers n (i + 1) slots
  all_answers (suc n) i (some fd ∷ slots) =
      (if revents i then answers_to (conduct i) else []) ++ all_answers n (i + 1) slots

  abbrev pub all_calls : ℕ → ℕ → Slots → Log → Log
  all_calls zero i slots log = log
  all_calls (suc n) i [] log = log
  all_calls (suc n) i (none ∷ slots) log = all_calls n (i + 1) slots log
  all_calls (suc n) i (some fd ∷ slots) log =
      all_calls n (i + 1) slots (if revents i then calls_for fd (conduct i) log else log)

  abbrev pub all_slots : ℕ → ℕ → Slots → Slots
  all_slots zero i slots = slots
  all_slots (suc n) i [] = []
  all_slots (suc n) i (none ∷ slots) = none ∷ all_slots n (i + 1) slots
  all_slots (suc n) i (some fd ∷ slots) =
      (if revents i then slot_after fd (conduct i) else some fd) ∷ all_slots n (i + 1) slots

  -- Where no client is ready there is nothing to do.
  none_ready :
      (n i : ℕ) (slots : Slots) (log : Log)
      → ready_count n i slots ≡ 0
      → (all_answers n i slots ≡ [])
        × (all_calls n i slots log ≡ log)
        × (all_slots n i slots ≡ slots)
  none_ready zero i slots log h = (refl, refl, refl)
  none_ready (suc n) i [] log h = (refl, refl, refl)
  none_ready (suc n) i (none ∷ slots) log h =
      let (a, c, s) = none_ready n (i + 1) slots log h in (a, c, ap (◌∷◌ none) s)
  none_ready (suc n) i (some fd ∷ slots) log h = elim (Bool-cases (revents i)) [
    | inl p ↦ absurd (omega (arith, rw p at h))
    | inr p ↦
        let (a, c, s) = none_ready n (i + 1) slots log (rw p at h) in
        rw p (a, c, ap (◌∷◌ (some fd)) s)
  ]

  -- Where at most `nready` of these clients are ready, as `poll` reports, the loop, which stops
  -- when it has seen so many, serves exactly the ready ones and comes to its end.
  pub serve_clients_all :
      (n i nready : ℕ) (slots : Slots) (w : List Answer) (log : Log)
      → ready_count n i slots ≤ nready
      → nready < 2147483648
      → serve_clients revents n i nready slots (all_answers n i slots ++ w) log
        ≡ ok (all_slots n i slots) w (all_calls n i slots log)
  unfolding serve_clients
  serve_clients_all zero i nready slots w log h small = refl
  serve_clients_all (suc n) i nready [] w log h small = refl
  serve_clients_all (suc n) i nready (none ∷ slots) w log h small =
      rw (serve_clients_all n (i + 1) nready slots w log h small) refl
  serve_clients_all (suc n) i nready (some fd ∷ slots) w log h small =
      elim (Bool-cases (revents i)) [
        | inr p ↦ rw (p, serve_clients_all n (i + 1) nready slots w log (rw p at h) small) refl
        | inl p ↦
            let c = conduct i in
            let left = all_answers n (i + 1) slots ++ w in
            let regroup = append_assoc (answers_to c) (all_answers n (i + 1) slots) w in
            let log₁ = calls_for fd c log in
            let fits : suc (ready_count n (i + 1) slots) ≤ nready = rw p at h in
            rw (p, regroup, serve_one fd c left log)
              (elim (Bool-cases (none_left (decrement nready))) [
                | inl q ↦
                    let (a, calls, same) =
                      none_ready n (i + 1) slots log₁
                        (none_left-zero (ready_count n (i + 1) slots) nready small fits q) in
                    rw (q, a, calls, same) refl
                | inr q ↦
                    rw
                      (
                        q,
                        serve_clients_all n (i + 1) (decrement nready) slots w log₁
                            (decrement_fits (ready_count n (i + 1) slots) nready small fits).0
                            (decrement_fits (ready_count n (i + 1) slots) nready small fits).1,
                      )
                      refl
              ])
      ]
