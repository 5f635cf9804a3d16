-- ===== src/Select/Bounded.antt =====
-- The watched set of TcpServerDemo/selectFun.c.
use unix_net.Common.{
  ℕ, zero, suc, ◌+◌, ◌-◌, ◌≤◌, ◌<◌, ◌≡◌, refl, true, false, Bool-cases, inl, inr, List, [], ◌∷◌,
  arith, ◌==◌, ltb, if◌then◌else◌,
}
use unix_net.Sys.{Answer, ret, Action, Log, Run, ok, exited, blocked, crashed}
use unix_net.Sys.Ensures.{Ensures, Ensures-and_then, Ensures-mono}
use unix_net.CString.{unterminated}
use unix_net.Wrap.{ReadResult, got, failed, accept, read, write}
use unix_net.Select.{
  FdSet, set_fd, clear_fd, Watch, Report, failure, ready, watch_client, add_client, after_read,
  serve_ready, serve_watch, round, rounds_of,
}

Ensures-all : {A : Type 0} (r : Run A) → Ensures (λ _ _. Unit) r
Ensures-all (ok a w log) = tt
Ensures-all (exited c log) = tt
Ensures-all (blocked log) = tt
Ensures-all (crashed log) = tt

-- What serving the clients keeps: no descriptor is added, and the listening one stays.
abbrev pub Shrinks : ℕ → FdSet → FdSet → Type 0
Shrinks lfd old new = ((j : ℕ) → new j ≡ true → old j ≡ true) × (old lfd ≡ true → new lfd ≡ true)

Shrinks-clear_fd : (lfd i : ℕ) (old : FdSet) → lfd < i → Shrinks lfd old (clear_fd i old)
Shrinks-clear_fd lfd i old h = ((λ j p. ground (arith, p)), λ p. ground (arith, p, h))

after_read-Shrinks :
    (lfd i : ℕ) (old : FdSet) (n : ReadResult) (w : List Answer) (log : Log)
    → lfd < i
    → Ensures (λ new _. Shrinks lfd old new) (after_read i old n w log)
after_read-Shrinks lfd i old (failed e) w log h = Shrinks-clear_fd lfd i old h
after_read-Shrinks lfd i old (got []) w log h = Shrinks-clear_fd lfd i old h
after_read-Shrinks lfd i old (got (b ∷ bs)) w log h =
    elim (Bool-cases (unterminated 1500 (b ∷ bs))) [
      | inl p ↦ rw p tt
      | inr p ↦ rw p (
          Ensures-and_then _ _ (write i (b ∷ bs) w log) _ (Ensures-all (write i (b ∷ bs) w log))
            λ _ w' log' _. ((λ j q. q), λ q. q))
    ]

serve_ready-Shrinks :
    (lfd : ℕ) (rest : FdSet) (rounds i : ℕ) (start old : FdSet) (w : List Answer) (log : Log)
    → lfd < i
    → Shrinks lfd start old
    → Ensures (λ new _. Shrinks lfd start new) (serve_ready rest rounds i old w log)
unfolding serve_ready
serve_ready-Shrinks lfd rest zero i start old w log h s = s
serve_ready-Shrinks lfd rest (suc rounds) i start old w log h s = elim (Bool-cases (rest i)) [
  | inl p ↦ rw p (
      Ensures-and_then _ _ (read i 1500 w log) _ (Ensures-all (read i 1500 w log)) λ n w' log' _.
        Ensures-and_then _ _ (after_read i old n w' log') _
          (after_read-Shrinks lfd i old n w' log' h)
          λ old' w'' log'' k.
            serve_ready-Shrinks lfd rest rounds (i + 1) start old' w'' log'' (omega (arith, h))
              ((λ j q. s.0 j (k.0 j q)), λ q. k.1 (s.1 q)))
  | inr p ↦ rw p (serve_ready-Shrinks lfd rest rounds (i + 1) start old w log (omega (arith, h)) s)
]

-- The state as `main` keeps it: `max_fd` bounds the watched descriptors, which are below 1024, and
-- the listening one is among them.
abbrev pub IsWatch : ℕ → Watch → Type 0
IsWatch lfd t =
    ((j : ℕ) → t.old_set j ≡ true → (j ≤ t.max_fd) × (j < 1024)) × (t.old_set lfd ≡ true)

serve_watch-IsWatch :
    (lfd : ℕ) (rest : FdSet) (t : Watch) (w : List Answer) (log : Log)
    → IsWatch lfd t
    → Ensures (λ t' _. IsWatch lfd t') (serve_watch lfd rest t w log)
serve_watch-IsWatch lfd rest t w log h =
    Ensures-and_then _ _ (serve_ready rest (t.max_fd - lfd) (lfd + 1) t.old_set w log) _
      (serve_ready-Shrinks lfd rest (t.max_fd - lfd) (lfd + 1) t.old_set t.old_set w log
        (omega arith) ((λ j q. q), λ q. q))
      λ old w' log' s. ((λ j q. h.0 j (s.0 j q)), s.1 h.1)

watch_client-IsWatch :
    (lfd cfd : ℕ) (t : Watch) (w : List Answer) (log : Log)
    → IsWatch lfd t
    → Ensures (λ t' _. IsWatch lfd t') (watch_client t cfd w log)
watch_client-IsWatch lfd cfd t w log h = elim (Bool-cases (ltb cfd 1024)) [
  | inl p ↦ rw p (watched p, rw h.1 (ground arith))
  | inr p ↦ rw p tt
]
  where
    watched :
        ltb cfd 1024 ≡ true
        → (j : ℕ) → set_fd cfd t.old_set j ≡ true
        → (j ≤ (if ltb t.max_fd cfd then cfd else t.max_fd)) × (j < 1024)
    watched p j q = elim (Bool-cases (j == cfd)) [
      | inl e ↦ (ground (arith, e), ground (arith, e, p))
      | inr e ↦ let k = h.0 j (rw e at q) in (ground (arith, k.0), k.1)
    ]

round-IsWatch :
    (lfd n : ℕ) (rest : FdSet) (t : Watch) (w : List Answer) (log : Log)
    → IsWatch lfd t
    → Ensures (λ t' _. IsWatch lfd t') (round lfd n rest t w log)
unfolding round add_client
round-IsWatch lfd n rest t w log h = elim (Bool-cases (rest lfd)) [
  | inl p ↦ rw p (
      Ensures-and_then _ _ (add_client lfd t w log) _
        (Ensures-and_then _ _ (accept lfd w log) (watch_client t) (Ensures-all (accept lfd w log))
          λ cfd w' log' _. watch_client-IsWatch lfd cfd t w' log' h)
        λ t' w' log' k. elim (Bool-cases (n == 1)) [
          | inl q ↦ rw q k
          | inr q ↦ rw q (serve_watch-IsWatch lfd rest t' w' log' k)
        ])
  | inr p ↦ rw p (serve_watch-IsWatch lfd rest t w log h)
]

-- The listening descriptor is ready, and the client gets a descriptor for which there is no room.
large_client_crashes :
    (lfd cfd n : ℕ) (rest : FdSet) (reports : List Report) (t : Watch) (w : List Answer) (log : Log)
    → rest lfd ≡ true
    → 1024 ≤ cfd
    → rounds_of lfd (ready (suc n) rest ∷ reports) t (ret cfd ∷ w) log
      ≡ crashed (Action.accept lfd ∷ log)
unfolding rounds_of round add_client accept
large_client_crashes lfd cfd n rest reports t w log p h =
    let large : ltb cfd 1024 ≡ false = ground (arith, h) in rw (p, large) refl

-- The invariant over every sequence of reports.
keeps_watch :
    (lfd : ℕ) (reports : List Report) (t : Watch) (w : List Answer) (log : Log)
    → IsWatch lfd t
    → Ensures (λ t' _. IsWatch lfd t') (rounds_of lfd reports t w log)
unfolding rounds_of
keeps_watch lfd [] t w log h = h
keeps_watch lfd (failure ∷ reports) t w log h = h
keeps_watch lfd (ready zero rest ∷ reports) t w log h = keeps_watch lfd reports t w log h
keeps_watch lfd (ready (suc n) rest ∷ reports) t w log h =
    Ensures-and_then _ _ (round lfd (suc n) rest t w log) _
      (round-IsWatch lfd (suc n) rest t w log h) (keeps_watch lfd reports)

-- From a state in which `max_fd` bounds the watched descriptors, all are below 1024 and the
-- listening one is watched, every sequence of reports of `select`, and every answer to the calls,
-- leads to such a state, if the loop comes to its end. It does so only while `accept` gives
-- descriptors below 1024, since the server has no check of its own: the first larger one, that of a
-- client in a next report, is put into a set that has no place for it, which is undefined.
pub rounds_of-IsWatch :
    (lfd : ℕ) (reports : List Report) (t : Watch) (w : List Answer) (log : Log) (cfd n : ℕ)
    (rest : FdSet) (more : List Report) (w' : List Answer)
    → IsWatch lfd t
    → rest lfd ≡ true
    → 1024 ≤ cfd
    → Ensures
        (λ t' log'.
          IsWatch lfd t'
          × (rounds_of lfd (ready (suc n) rest ∷ more) t' (ret cfd ∷ w') log'
              ≡ crashed (Action.accept lfd ∷ log')))
        (rounds_of lfd reports t w log)
rounds_of-IsWatch lfd reports t w log cfd n rest more w' h p large =
    Ensures-mono _ _ (rounds_of lfd reports t w log)
      (λ t' log' k. (k, large_client_crashes lfd cfd n rest more t' w' log' p large))
      (keeps_watch lfd reports t w log h)
