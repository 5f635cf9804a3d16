-- ===== src/Poll/Clients.antt =====
-- The client table of PollDemo/pollDemo.c over the rounds of its outer loop.
use unix_net.Common.{
  ℕ, zero, suc, ◌+◌, ◌==◌, ◌≤◌, ◌≢◌, ◌≡◌, refl, ◌∙◌, Bool, true, false, Bool-cases, Option, none,
  some, List, [], ◌∷◌, arith, ltb, tests, length, get_elem?, replicate, drop, All, inl, inr,
}
use unix_net.Sys.{Answer, Log, Run, ok, exited, blocked, crashed}
use unix_net.Sys.Ensures.{Ensures, Ensures-and_then, Ensures-mono, closes}
use unix_net.Wrap.{accept, perr_exit}
use unix_net.Poll.{
  Slots, Table, initial, place, with_slot, add_client, serve_clients, serve_table, round, Report,
  rounds_of, decrement,
}
use unix_net.Poll.Calls.{held, count, accept-Same}
use unix_net.Poll.Place.{Free, Placed, place-Placed, place_full}
use unix_net.Poll.Balance.{serve_clients_balance}

-- A table as `main` keeps it: 1023 slots, and behind `maxi`, which is the index of one, all free.
abbrev pub IsTable : Table → Type 0
IsTable t = (length t.slots ≡ 1023) × (t.maxi ≤ 1023) × All Free (drop t.maxi t.slots)

pub initial-IsTable : IsTable initial
unfolding initial
initial-IsTable = (refl, omega arith, free 1023)
  where
    free : (n : ℕ) → All Free (replicate n none)
    free zero = tt
    free (suc n) = (tt, free n)

-- The descriptor that a round takes in: none where the listening one is not ready, else the one
-- that `Accept` returns.
abbrev pub Arrives : (ℕ → Bool) → ℕ → List Answer → Log → Option ℕ → Type 0
Arrives revents listenfd w log none = revents 0 ≡ false
Arrives revents listenfd w log (some fd) =
    (revents 0 ≡ true)
    × ((w' : List Answer) × (log' : Log) × (accept listenfd w log ≡ ok fd w' log'))

module _ (x : ℕ) where
  -- What a step that takes in `new` does to the table.
  abbrev pub Step : Option ℕ → Table → Log → Table → Log → Type 0
  Step new t log t' log' =
      IsTable t' × (count x t'.slots + closes x log' ≡ held x new + count x t.slots + closes x log)

  serve_table-Step :
      (revents : ℕ → Bool) (nready : ℕ) (t : Table) (w : List Answer) (log : Log)
      → IsTable t
      → Ensures (Step none t log) (serve_table revents nready t w log)
  serve_table-Step revents nready t w log h =
      Ensures-and_then _ _ (serve_clients revents t.maxi 1 nready t.slots w log) _
        (serve_clients_balance x revents t.maxi 1 nready t.slots w log)
        λ slots w' log' k. ((k.1 ∙ h.0, h.1, k.2 t.maxi h.2), omega (arith, k.0))

  with_slot-Step :
      (fd : ℕ) (t : Table) (o : Option (Slots × ℕ)) (w : List Answer) (start log : Log)
      → IsTable t
      → Placed fd 1 t.slots o
      → closes x log ≡ closes x start
      → Ensures (Step (some fd) t start) (with_slot t o w log)
  unfolding perr_exit
  with_slot-Step fd t none w start log h k same = tt
  with_slot-Step fd t (some (slots, j)) w start log h k same = elim (Bool-cases (ltb t.maxi j)) [
    | inl p ↦ rw p (
      (k.0 ∙ h.0, omega (arith, k.2, h.0), k.3 t.maxi j (grind tests) (omega arith) h.2),
      omega (arith, k.1 x),
    )
    | inr p ↦
        rw p (
          (k.0 ∙ h.0, h.1, k.3 t.maxi t.maxi (omega arith) (grind tests) h.2),
          omega (arith, k.1 x),
        )
  ]

  add_client-Step :
      (listenfd fd : ℕ) (t : Table) (w : List Answer) (log : Log) (w' : List Answer) (log' : Log)
      → IsTable t
      → accept listenfd w log ≡ ok fd w' log'
      → Ensures (Step (some fd) t log) (add_client listenfd t w log)
  unfolding add_client
  add_client-Step listenfd fd t w log w' log' h p =
      let same = accept-Same x listenfd w log in
      rw p (
        with_slot-Step fd t (place fd 1 t.slots) w' log log' h (place-Placed fd 1 t.slots)
          (rw p at same))

  -- Both halves of a round, one behind the other.
  Step-trans :
      (new : Option ℕ) (t t' : Table) (log log' : Log) (r : Run Table)
      → Step new t log t' log'
      → Ensures (Step none t' log') r
      → Ensures (Step new t log) r
  Step-trans new t t' log log' (ok t'' w log'') h k = (k.0, omega (arith, h.1, k.1))
  Step-trans new t t' log log' (exited c l) h k = tt
  Step-trans new t t' log log' (blocked l) h k = tt
  Step-trans new t t' log log' (crashed l) h k = tt

  -- A round on a valid table, if it comes to its end, leaves a valid one: 1023 slots, `maxi` the
  -- index of one, and every slot behind it free. A descriptor is then in the table as often as
  -- before, plus once if it was taken in by this round's `Accept`, less as often as it was closed;
  -- and this whatever `poll` returns, its failure included, and whatever it leaves in the array.
  pub round-Step :
      (listenfd nready : ℕ) (revents : ℕ → Bool) (t : Table) (w : List Answer) (log : Log)
      (new : Option ℕ)
      → IsTable t
      → Arrives revents listenfd w log new
      → Ensures (Step new t log) (round listenfd nready revents t w log)
  unfolding round
  round-Step listenfd nready revents t w log none h p =
      rw p (serve_table-Step revents nready t w log h)
  round-Step listenfd nready revents t w log (some fd) h (p, (w', log', q)) = rw p (
      Ensures-and_then _ _ (add_client listenfd t w log) _
        (add_client-Step listenfd fd t w log w' log' h q)
        λ t' w'' log'' k. elim (Bool-cases (decrement nready == 0)) [
          | inl b ↦ rw b k
          | inr b ↦ rw b (
              Step-trans (some fd) t t' log log''
                (serve_table revents (decrement nready) t' w'' log'') k
                (serve_table-Step revents (decrement nready) t' w'' log'' k.0))
        ])

-- The listening descriptor's part of a round, for an `Accept` that may end in any way.
add_client-IsTable :
    (listenfd : ℕ) (t : Table) (w : List Answer) (log : Log)
    → IsTable t
    → Ensures (λ t' _. IsTable t') (add_client listenfd t w log)
unfolding add_client
add_client-IsTable listenfd t w log h =
    Ensures-and_then _ _ (accept listenfd w log) _ (accept-Same 0 listenfd w log) λ fd w' log' same.
      Ensures-mono _ _ (with_slot t (place fd 1 t.slots) w' log') (λ t' log'' k. k.0)
        (with_slot-Step 0 fd t (place fd 1 t.slots) w' log log' h (place-Placed fd 1 t.slots) same)

serve_table-IsTable :
    (revents : ℕ → Bool) (nready : ℕ) (t : Table) (w : List Answer) (log : Log)
    → IsTable t
    → Ensures (λ t' _. IsTable t') (serve_table revents nready t w log)
serve_table-IsTable revents nready t w log h =
    Ensures-mono _ _ (serve_table revents nready t w log) (λ t' log' k. k.0)
      (serve_table-Step 0 revents nready t w log h)

round-IsTable :
    (listenfd nready : ℕ) (revents : ℕ → Bool) (t : Table) (w : List Answer) (log : Log)
    → IsTable t
    → Ensures (λ t' _. IsTable t') (round listenfd nready revents t w log)
unfolding round
round-IsTable listenfd nready revents t w log h = elim (Bool-cases (revents 0)) [
  | inl p ↦ rw p (
      Ensures-and_then _ _ (add_client listenfd t w log) _ (add_client-IsTable listenfd t w log h)
        λ t' w' log' k. elim (Bool-cases (decrement nready == 0)) [
          | inl q ↦ rw q k
          | inr q ↦ rw q (serve_table-IsTable revents (decrement nready) t' w' log' k)
        ])
  | inr p ↦ rw p (serve_table-IsTable revents nready t w log h)
]

-- From a table as `main` keeps it, every sequence of reports of `poll`, and every answer to the
-- calls, leads to such a table, if the rounds come to their end.
pub rounds_of-IsTable :
    (listenfd : ℕ) (reports : List Report) (t : Table) (w : List Answer) (log : Log)
    → IsTable t
    → Ensures (λ t' _. IsTable t') (rounds_of listenfd reports t w log)
unfolding rounds_of
rounds_of-IsTable listenfd [] t w log h = h
rounds_of-IsTable listenfd (r ∷ reports) t w log h =
    Ensures-and_then _ _ (round listenfd r.nready r.revents t w log) _
      (round-IsTable listenfd r.nready r.revents t w log h) (rounds_of-IsTable listenfd reports)

-- When every slot is taken, a client that `Accept` returns ends the whole server with status 255,
-- and nothing is closed or sent first.
pub add_client_full :
    (listenfd fd : ℕ) (t : Table) (w w' : List Answer) (log log' : Log)
    → accept listenfd w log ≡ ok fd w' log'
    → ((s : ℕ) → get_elem? t.slots s ≢ some none)
    → add_client listenfd t w log ≡ exited 255 log'
unfolding add_client perr_exit
add_client_full listenfd fd t w w' log log' p full = rw (p, place_full fd 1 t.slots full) refl
