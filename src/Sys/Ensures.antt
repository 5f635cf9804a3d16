-- ===== src/Sys/Ensures.antt =====
-- Partial correctness of a run: what holds if it comes to its end.
use unix_net.Common.{ℕ, suc, List, [], ◌∷◌, ◌==◌, if◌then◌else◌}
use unix_net.Sys.{Answer, Action, Log, Run, ok, exited, blocked, crashed, Cmd, and_then}

abbrev pub Ensures : {A : Type 0} → (A → Log → Type 0) → Run A → Type 0
Ensures P (ok a w log) = P a log
Ensures P (exited c log) = Unit
Ensures P (blocked log) = Unit
Ensures P (crashed log) = Unit

pub Ensures-and_then :
    {A B : Type 0} (P : A → Log → Type 0) (Q : B → Log → Type 0) (r : Run A) (f : A → Cmd B)
    → Ensures P r
    → ((a : A) (w : List Answer) (log : Log) → P a log → Ensures Q (f a w log))
    → Ensures Q (and_then r f)
Ensures-and_then P Q (ok a w log) f h next = next a w log h
Ensures-and_then P Q (exited c log) f h next = tt
Ensures-and_then P Q (blocked log) f h next = tt
Ensures-and_then P Q (crashed log) f h next = tt

pub Ensures-mono :
    {A : Type 0} (P Q : A → Log → Type 0) (r : Run A)
    → ((a : A) (log : Log) → P a log → Q a log)
    → Ensures P r
    → Ensures Q r
Ensures-mono P Q (ok a w log) f h = f a log h
Ensures-mono P Q (exited c log) f h = tt
Ensures-mono P Q (blocked log) f h = tt
Ensures-mono P Q (crashed log) f h = tt

-- How often a log closes a descriptor.
abbrev pub closes : ℕ → Log → ℕ
closes x [] = 0
closes x (Action.close fd ∷ log) = if fd == x then suc (closes x log) else closes x log
closes x (_ ∷ log) = closes x log
