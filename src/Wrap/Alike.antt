-- ===== src/Wrap/Alike.antt =====
-- The wrappers of wrap.c, from logs with the same calls.
use unix_net.Common.{ℕ, ◌≡◌, ap, ◌||◌, none, some, List, [], ◌∷◌, Bytes, ◌==◌, Bool-cases, inl, inr}
use unix_net.Sys.{Answer, fail, ret, bytes, Action, Log, ◌>>=◌, call, eintr, econnaborted}
use unix_net.Sys.Alike.{
  calls, Alike, both_ok, both_exited, both_blocked, Simulates, Simulates-bind, Simulates-call,
  Simulates-note, Simulates-pure, Simulates-halt,
}
use unix_net.Wrap.{
  got, failed, accept, bind, listen, read, write, socket, or_exit, address_of, network_order,
  perr_exit, tcp4bind,
}

accept_from :
    (fd : ℕ) (w : List Answer) (log log' : Log)
    → calls log ≡ calls log'
    → Alike (accept fd w log) (accept fd w log')
unfolding accept perr_exit
accept_from fd [] log log' h = both_blocked (ap (◌∷◌ (Action.accept fd)) h)
accept_from fd (fail e ∷ w) log log' h = elim (Bool-cases (e == econnaborted || e == eintr)) [
  | inl p ↦ rw p (
      accept_from fd w (Action.accept fd ∷ log) (Action.accept fd ∷ log')
        (ap (◌∷◌ (Action.accept fd)) h))
  | inr p ↦ rw p (both_exited 255 (ap (◌∷◌ (Action.accept fd)) h))
]
accept_from fd (ret n ∷ w) log log' h = both_ok n w (ap (◌∷◌ (Action.accept fd)) h)
accept_from fd (bytes bs ∷ w) log log' h = both_ok _ w (ap (◌∷◌ (Action.accept fd)) h)

pub accept-Simulates : (fd : ℕ) → Simulates (accept fd) (accept fd)
accept-Simulates fd = record { from = accept_from fd }

read_from :
    (fd n : ℕ) (w : List Answer) (log log' : Log)
    → calls log ≡ calls log'
    → Alike (read fd n w log) (read fd n w log')
unfolding read
read_from fd n [] log log' h = both_blocked (ap (◌∷◌ (Action.read fd n)) h)
read_from fd n (fail e ∷ w) log log' h = elim (Bool-cases (e == eintr)) [
  | inl p ↦ rw p (
      read_from fd n w (Action.read fd n ∷ log) (Action.read fd n ∷ log')
        (ap (◌∷◌ (Action.read fd n)) h))
  | inr p ↦ rw p (both_ok (failed e) w (ap (◌∷◌ (Action.read fd n)) h))
]
read_from fd n (ret m ∷ w) log log' h = both_ok (got []) w (ap (◌∷◌ (Action.read fd n)) h)
read_from fd n (bytes bs ∷ w) log log' h = both_ok (got bs) w (ap (◌∷◌ (Action.read fd n)) h)

pub read-Simulates : (fd n : ℕ) → Simulates (read fd n) (read fd n)
read-Simulates fd n = record { from = read_from fd n }

write_from :
    (fd : ℕ) (bs : Bytes) (w : List Answer) (log log' : Log)
    → calls log ≡ calls log'
    → Alike (write fd bs w log) (write fd bs w log')
unfolding write
write_from fd bs [] log log' h = both_blocked (ap (◌∷◌ (Action.write fd bs)) h)
write_from fd bs (fail e ∷ w) log log' h = elim (Bool-cases (e == eintr)) [
  | inl p ↦ rw p (
      write_from fd bs w (Action.write fd bs ∷ log) (Action.write fd bs ∷ log')
        (ap (◌∷◌ (Action.write fd bs)) h))
  | inr p ↦ rw p (both_ok none w (ap (◌∷◌ (Action.write fd bs)) h))
]
write_from fd bs (ret m ∷ w) log log' h = both_ok (some m) w (ap (◌∷◌ (Action.write fd bs)) h)
write_from fd bs (bytes bs' ∷ w) log log' h = both_ok _ w (ap (◌∷◌ (Action.write fd bs)) h)

pub write-Simulates : (fd : ℕ) (bs : Bytes) → Simulates (write fd bs) (write fd bs)
write-Simulates fd bs = record { from = write_from fd bs }

or_exit-Simulates : (a : Answer) → Simulates (or_exit a) (or_exit a)
unfolding or_exit perr_exit
or_exit-Simulates (fail e) = Simulates-halt 255
or_exit-Simulates (ret n) = Simulates-pure n
or_exit-Simulates (bytes bs) = Simulates-pure _

once : (act : Action) → Simulates (call act >>= or_exit) (call act >>= or_exit)
once act = Simulates-bind (Simulates-call act) or_exit-Simulates

pub listen-Simulates : (fd n : ℕ) → Simulates (listen fd n) (listen fd n)
unfolding listen
listen-Simulates fd n = once (Action.listen fd n)

abbrev any_address : Bytes
any_address = 0 ∷ 0 ∷ 0 ∷ 0 ∷ []

pub tcp4bind-Simulates : (port : ℕ) → Simulates (tcp4bind port none) (tcp4bind port none)
unfolding tcp4bind socket bind address_of
tcp4bind-Simulates port = Simulates-bind (once (Action.socket 2 1 0)) λ lfd.
    Simulates-bind (Simulates-note (Action.reuse_addr lfd)) λ _.
      Simulates-bind (once (Action.bind lfd any_address (network_order port)))
        λ _. Simulates-pure lfd
