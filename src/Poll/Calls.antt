-- ===== src/Poll/Calls.antt =====
-- The log of closed descriptors over one call, for PollDemo/pollDemo.c, and counts in its table.
use unix_net.Common.{
  ℕ, ◌+◌, ◌≡◌, refl, Bool-cases, Option, none, some, List, [], ◌∷◌, arith, Bytes, ◌==◌,
  if◌then◌else◌, ◌||◌, inl, inr,
}
use unix_net.Sys.{Answer, fail, ret, bytes, Action, Log, eintr, econnaborted}
use unix_net.Sys.Ensures.{Ensures, closes}
use unix_net.Wrap.{accept, read, write, close, or_exit, perr_exit}
use unix_net.Poll.{Slots}

-- How often a descriptor stands in the table.
abbrev pub held : ℕ → Option ℕ → ℕ
held x none = 0
held x (some fd) = if fd == x then 1 else 0

abbrev pub count : ℕ → Slots → ℕ
count x [] = 0
count x (s ∷ slots) = held x s + count x slots

module _ (x : ℕ) where
  -- What a call that closes nothing leaves.
  abbrev pub Same : {A : Type 0} → Log → A → Log → Type 0
  Same log a log' = closes x log' ≡ closes x log

  pub read-Same : (fd n : ℕ) (w : List Answer) (log : Log) → Ensures (Same log) (read fd n w log)
  unfolding read
  read-Same fd n [] log = tt
  read-Same fd n (ret m ∷ w) log = refl
  read-Same fd n (bytes bs ∷ w) log = refl
  read-Same fd n (fail e ∷ w) log = elim (Bool-cases (e == eintr)) [
    | inl p ↦ rw p (read-Same fd n w (Action.read fd n ∷ log))
    | inr p ↦ rw p refl
  ]

  pub write-Same :
      (fd : ℕ) (bs : Bytes) (w : List Answer) (log : Log) → Ensures (Same log) (write fd bs w log)
  unfolding write
  write-Same fd bs [] log = tt
  write-Same fd bs (ret m ∷ w) log = refl
  write-Same fd bs (bytes bs' ∷ w) log = refl
  write-Same fd bs (fail e ∷ w) log = elim (Bool-cases (e == eintr)) [
    | inl p ↦ rw p (write-Same fd bs w (Action.write fd bs ∷ log))
    | inr p ↦ rw p refl
  ]

  pub accept-Same : (fd : ℕ) (w : List Answer) (log : Log) → Ensures (Same log) (accept fd w log)
  unfolding accept perr_exit
  accept-Same fd [] log = tt
  accept-Same fd (ret m ∷ w) log = refl
  accept-Same fd (bytes bs' ∷ w) log = refl
  accept-Same fd (fail e ∷ w) log = elim (Bool-cases (e == econnaborted || e == eintr)) [
    | inl p ↦ rw p (accept-Same fd w (Action.accept fd ∷ log))
    | inr p ↦ rw p tt
  ]

  -- A close that comes back was logged.
  pub close_one :
      (fd : ℕ) (w : List Answer) (log : Log)
      → Ensures (λ _ log'. closes x log' ≡ held x (some fd) + closes x log) (close fd w log)
  unfolding close or_exit perr_exit
  close_one fd [] log = tt
  close_one fd (fail e ∷ w) log = tt
  close_one fd (ret m ∷ w) log = ground arith
  close_one fd (bytes m ∷ w) log = ground arith
