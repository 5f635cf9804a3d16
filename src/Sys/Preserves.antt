-- ===== src/Sys/Preserves.antt =====
-- Invariants of the log: what holds of it whichever way a run ends, waiting in a call included.
use unix_net.Common.{Bool, true, false, List, [], ◌∷◌, if◌then◌else◌}
use unix_net.Sys.{
  Answer, Action, Log, Run, ok, exited, blocked, crashed, Cmd, and_then, ◌>>=◌, pure, call, note,
}

abbrev pub AtEnd : {A : Type 0} → (Log → Type 0) → Run A → Type 0
AtEnd P (ok a w log) = P log
AtEnd P (exited c log) = P log
AtEnd P (blocked log) = P log
AtEnd P (crashed log) = P log

-- The same, but what holds at a value is another invariant.
abbrev pub Reaches : {A : Type 0} → (Log → Type 0) → (Log → Type 0) → Run A → Type 0
Reaches P Q (ok a w log) = Q log
Reaches P Q (exited c log) = P log
Reaches P Q (blocked log) = P log
Reaches P Q (crashed log) = P log

pub record Preserves {A : Type 0} (P : Log → Type 0) (m : Cmd A) : Type 0 where
  pub from : (w : List Answer) (log : Log) → P log → AtEnd P (m w log)

-- A command after which more holds than its invariant, if it ends with a value.
pub record Establishes {A : Type 0} (P Q : Log → Type 0) (m : Cmd A) : Type 0 where
  pub from : (w : List Answer) (log : Log) → P log → Reaches P Q (m w log)

-- A call that the invariant allows at any time.
abbrev pub Admits : (Log → Type 0) → Action → Type 0
Admits P act = (log : Log) → P log → P (act ∷ log)

module _ {P : Log → Type 0} where
  pub then-AtEnd :
      {A B : Type 0} (r : Run A) (f : A → Cmd B)
      → AtEnd P r
      → ((a : A) (w : List Answer) (log : Log) → P log → AtEnd P (f a w log))
      → AtEnd P (and_then r f)
  then-AtEnd (ok a w log) f h next = next a w log h
  then-AtEnd (exited c log) f h next = h
  then-AtEnd (blocked log) f h next = h
  then-AtEnd (crashed log) f h next = h

  pub Preserves-bind :
      {A B : Type 0} {m : Cmd A} {f : A → Cmd B}
      → Preserves P m
      → ((a : A) → Preserves P (f a))
      → Preserves P (m >>= f)
  Preserves-bind {m = m} {f = f} first next = record {
    from = λ w log h. then-AtEnd (m w log) f (first.from w log h) λ a. (next a).from;
  }

  pub Preserves-if :
      {A : Type 0} (b : Bool) {m k : Cmd A}
      → Preserves P m
      → Preserves P k
      → Preserves P (if b then m else k)
  Preserves-if true left right = left
  Preserves-if false left right = right

  pub Preserves-pure : {A : Type 0} (a : A) → Preserves P (pure a)
  Preserves-pure a = record { from = λ w log h. h }

  call_from :
      (act : Action)
      → Admits P act
      → (w : List Answer) (log : Log) → P log
      → AtEnd P (call act w log)
  call_from act step [] log h = step log h
  call_from act step (a ∷ w) log h = step log h

  pub Preserves-call : (act : Action) → Admits P act → Preserves P (call act)
  Preserves-call act step = record { from = call_from act step }

  pub Preserves-note : (act : Action) → Admits P act → Preserves P (note act)
  Preserves-note act step = record { from = λ w log h. step log h }

-- A stronger invariant for the rest of a command.
module _ {P Q : Log → Type 0} (weaken : (log : Log) → Q log → P log) where
  weaken_end : {A : Type 0} (r : Run A) → AtEnd Q r → AtEnd P r
  weaken_end (ok a w log) h = weaken log h
  weaken_end (exited c log) h = weaken log h
  weaken_end (blocked log) h = weaken log h
  weaken_end (crashed log) h = weaken log h

  then_stronger :
      {A B : Type 0} (r : Run A) (f : A → Cmd B)
      → Reaches P Q r
      → ((a : A) → Preserves Q (f a))
      → AtEnd P (and_then r f)
  then_stronger (ok a w log) f h next = weaken_end (f a w log) ((next a).from w log h)
  then_stronger (exited c log) f h next = h
  then_stronger (blocked log) f h next = h
  then_stronger (crashed log) f h next = h

  pub Preserves-stronger :
      {A B : Type 0} {m : Cmd A} {f : A → Cmd B}
      → Establishes P Q m
      → ((a : A) → Preserves Q (f a))
      → Preserves P (m >>= f)
  Preserves-stronger {m = m} {f = f} first next = record {
    from = λ w log h. then_stronger (m w log) f (first.from w log h) next;
  }
