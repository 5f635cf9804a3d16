-- ===== src/Poll/Served/Rounds.antt =====
-- A whole run of PollDemo/pollDemo.c over what `poll` reports.
use unix_net.Common.{
  ℕ, zero, suc, ◌+◌, ◌≤◌, ◌<◌, ◌==◌, ◌≡◌, refl, ap, Bool, true, false, Option, none, some, List, [],
  ◌∷◌, ◌++◌, arith, if◌then◌else◌, ltb, Bool-cases, inl, inr,
}
use unix_net.Sys.{Answer, ret, Action, Log, ok}
use unix_net.Wrap.{accept}
use unix_net.Poll.{
  Slots, decrement, Table, place, add_client, with_slot, serve_table, round, Report,
}
use unix_net.Poll.Served.{
  Conduct, ready_count, all_answers, all_calls, all_slots, none_ready, serve_clients_all,
  decrement_fits,
}

-- One return of `poll`: perhaps a new client with its descriptor; the slots that can be read, with
-- what their clients do; and the number that is reported.
pub record Visit : Type 0 where
  pub newcomer : Option ℕ
  pub ready : ℕ → Bool
  pub conduct : ℕ → Conduct
  pub nready : ℕ

abbrev pub comes : Option ℕ → Bool
comes none = false
comes (some fd) = true

-- What `poll` says of an index: the first is that of the listening descriptor.
abbrev pub revents_of : Visit → ℕ → Bool
revents_of v zero = comes v.newcomer
revents_of v (suc i) = v.ready (suc i)

abbrev pub report_of : Visit → Report
report_of v = record { nready = v.nready; revents = revents_of v }

abbrev pub with_place : Table → Option (Slots × ℕ) → Option Table
with_place t none = none
with_place t (some (slots, i)) =
    some (record { slots = slots; maxi = if ltb t.maxi i then i else t.maxi })

-- The table with the new client in it, if there is one and a slot is free.
abbrev pub joined : Option ℕ → Table → Option Table
joined none t = some t
joined (some fd) t = with_place t (place fd 1 t.slots)

abbrev pub newcomers : Option ℕ → ℕ
newcomers none = 0
newcomers (some fd) = 1

module _ (v : Visit) where
  abbrev pub served_slots : Table → Slots
  served_slots t = all_slots (revents_of v) v.conduct t.maxi 1 t.slots

  -- The number that is reported counts the new client and the ready ones in the table, and is
  -- positive as an `int`.
  abbrev pub IsCounted : Table → Type 0
  IsCounted t =
      (newcomers v.newcomer + ready_count (revents_of v) v.conduct t.maxi 1 t.slots ≤ v.nready)
      × (v.nready < 2147483648)

  abbrev pub client_answers : Table → List Answer
  client_answers t = all_answers (revents_of v) v.conduct t.maxi 1 t.slots

abbrev pub newcomer_answers : Option ℕ → List Answer
newcomer_answers none = []
newcomer_answers (some fd) = ret fd ∷ []

abbrev pub newcomer_log : ℕ → Option ℕ → Log → Log
newcomer_log listenfd none log = log
newcomer_log listenfd (some fd) log = Action.accept listenfd ∷ log

abbrev pub after_visit : Visit → Table → Table
after_visit v t = record t { slots = served_slots v t }

tail_lem :
    (v : Visit) (t : Table) (nready : ℕ) (w : List Answer) (log : Log)
    → ready_count (revents_of v) v.conduct t.maxi 1 t.slots ≤ nready
    → nready < 2147483648
    → serve_table (revents_of v) nready t (client_answers v t ++ w) log
      ≡ ok (after_visit v t) w (all_calls (revents_of v) v.conduct t.maxi 1 t.slots log)
tail_lem v t nready w log h small =
    rw (serve_clients_all (revents_of v) v.conduct t.maxi 1 nready t.slots w log h small) refl

none_after :
    (count nready : ℕ) → count ≤ decrement nready → (decrement nready == 0) ≡ true → count ≡ 0
none_after count nready h p = ground (arith, h, p)

module _ (listenfd : ℕ) (ready : ℕ → Bool) (conduct : ℕ → Conduct) (nready : ℕ) where
  abbrev pub visit : Option ℕ → Visit
  visit newcomer = record { newcomer = newcomer; ready = ready; conduct = conduct; nready = nready }

  placed :
      (fd : ℕ) (t t' : Table) (o : Option (Slots × ℕ)) (w : List Answer) (log : Log)
      → with_place t o ≡ some t'
      → with_slot t o w log ≡ ok t' w log
  placed fd t t' none w log h = ground (arith, h)
  placed fd t t' (some (slots, i)) w log h =
      let e : record { slots = slots; maxi = if ltb t.maxi i then i else t.maxi } ≡ t' =
        ground (arith, h) in
      ap (λ u. ok u w log) e

  pub round_lem :
      (newcomer : Option ℕ) (t t' : Table) (w : List Answer) (log : Log)
      → joined newcomer t ≡ some t'
      → IsCounted (visit newcomer) t'
      → let v = visit newcomer in
        round listenfd nready
          (revents_of v)
          t
          (newcomer_answers newcomer ++ (client_answers v t' ++ w))
          log
        ≡ ok (after_visit v t') w (
            all_calls
              (revents_of v)
              conduct
              t'.maxi
              1
              t'.slots
              (newcomer_log listenfd newcomer log))
  unfolding round add_client accept
  round_lem none t t' w log h counted =
      let e : t ≡ t' = ground (arith, h) in
      rw e (tail_lem (visit none) t' nready w log (omega (arith, counted.0)) counted.1)
  round_lem (some fd) t t' w log h counted =
      let v = visit (some fd) in
      let log' = Action.accept listenfd ∷ log in
      let among = ready_count (revents_of v) conduct t'.maxi 1 t'.slots in
      let fits : suc among ≤ nready = omega (arith, counted.0) in
      let below = decrement_fits among nready counted.1 fits in
      let left = λ (p : (decrement nready == 0) ≡ true). none_after among nready below.0 p in
      rw (placed fd t t' (place fd 1 t.slots) (client_answers v t' ++ w) log' h)
        (elim (Bool-cases (decrement nready == 0)) [
          | inl p ↦
              let (a, c, s) = none_ready (revents_of v) conduct t'.maxi 1 t'.slots log' (left p) in
              rw (p, a, c, s) refl
          | inr p ↦ rw p (tail_lem v t' (decrement nready) w log' below.0 below.1)
        ])
