-- ===== src/Sys/Alike.antt =====
-- Two programs that make the same calls, but for what they print.
use unix_net.Common.{ℕ, ◌≡◌, ap, Bool, true, false, List, [], ◌∷◌, ◌++◌, if◌then◌else◌, Bytes}
use unix_net.Sys.{
  Answer, Action, Log, Run, ok, exited, blocked, crashed, Cmd, and_then, ◌>>=◌, ◌>>◌, pure, call,
  note, crash, halt,
}

-- A log without what was printed.
abbrev pub unprinted : Action → Log
unprinted (Action.print text) = []
unprinted act = act ∷ []

abbrev pub calls : Log → Log
calls [] = []
calls (act ∷ log) = unprinted act ++ calls log

-- Two runs that end alike, with the same calls.
pub data Alike {A : Type 0} : Run A → Run A → Type 0 where
  both_ok :
      (a : A) (w : List Answer) {log log' : Log}
      → calls log ≡ calls log'
      → Alike (ok a w log) (ok a w log')
  both_exited :
      (c : ℕ) {log log' : Log} → calls log ≡ calls log' → Alike (exited c log) (exited c log')
  both_blocked : {log log' : Log} → calls log ≡ calls log' → Alike (blocked log) (blocked log')
  both_crashed : {log log' : Log} → calls log ≡ calls log' → Alike (crashed log) (crashed log')

-- From logs with the same calls and on the same answers, the commands run alike.
pub record Simulates {A : Type 0} (m k : Cmd A) : Type 0 where
  pub from :
      (w : List Answer) (log log' : Log) → calls log ≡ calls log' → Alike (m w log) (k w log')

module _ {A : Type 0} where
  pub Simulates-pure : (a : A) → Simulates (pure a) (pure a)
  Simulates-pure a = record { from = λ w log log' h. both_ok a w h }

  pub Simulates-if :
      (b : Bool) {m m' k k' : Cmd A}
      → Simulates m m'
      → Simulates k k'
      → Simulates (if b then m else k) (if b then m' else k')
  Simulates-if true left right = left
  Simulates-if false left right = right

  -- What the first prints is not seen.
  pub Simulates-print :
      (text : Bytes) {m k : Cmd A} → Simulates m k → Simulates (note (Action.print text) >> m) k
  Simulates-print text same = record {
    from = λ w log log' h. same.from w (Action.print text ∷ log) log' h;
  }

  pub Simulates-crash : Simulates {A = A} crash crash
  Simulates-crash = record { from = λ w log log' h. both_crashed h }

  pub Simulates-halt : (c : ℕ) → Simulates {A = A} (halt c) (halt c)
  Simulates-halt c = record { from = λ w log log' h. both_exited c h }

pub Simulates-note : (act : Action) → Simulates (note act) (note act)
Simulates-note act = record { from = λ w log log' h. both_ok tt w (ap (◌++◌ (unprinted act)) h) }

call_from :
    (act : Action) (w : List Answer) (log log' : Log)
    → calls log ≡ calls log'
    → Alike (call act w log) (call act w log')
call_from act [] log log' h = both_blocked (ap (◌++◌ (unprinted act)) h)
call_from act (a ∷ w) log log' h = both_ok a w (ap (◌++◌ (unprinted act)) h)

pub Simulates-call : (act : Action) → Simulates (call act) (call act)
Simulates-call act = record { from = call_from act }

module _ {A B : Type 0} where
  after :
      {r s : Run A} (f g : A → Cmd B)
      → Alike r s
      → ((a : A) → Simulates (f a) (g a))
      → Alike (and_then r f) (and_then s g)
  after f g (both_ok a w h) next = (next a).from w _ _ h
  after f g (both_exited c h) next = both_exited c h
  after f g (both_blocked h) next = both_blocked h
  after f g (both_crashed h) next = both_crashed h

  pub Simulates-bind :
      {m k : Cmd A} {f g : A → Cmd B}
      → Simulates m k
      → ((a : A) → Simulates (f a) (g a))
      → Simulates (m >>= f) (k >>= g)
  Simulates-bind {m = m} {k = k} {f = f} {g = g} first next = record {
    from = λ w log log' h. after f g (first.from w log log' h) next;
  }
