-- ===== src/Wrap/Retry.antt =====
-- The wrappers of wrap.c that try again: what they return, and how often they ask.
use unix_net.Common.{
  ℕ, zero, suc, ◌≡◌, refl, ap, ◌∙◌, Bool, true, false, ◌||◌, none, some, List, [], ◌∷◌, ◌++◌, map,
  append-nil, Bytes, ◌==◌, length, replicate, All,
}
use unix_net.Sys.{
  Answer, fail, ret, bytes, Action, Log, Run, ok, exited, blocked, eintr, econnaborted,
}
use unix_net.Wrap.{got, failed, accept, read, write}

-- The log after `n` further calls of one kind.
abbrev pub asked : ℕ → Action → Log → Log
asked n act log = replicate n act ++ log

pub asked-cons :
    (n : ℕ) (act : Action) (log : Log) → asked n act (act ∷ log) ≡ act ∷ asked n act log
asked-cons zero act log = refl
asked-cons (suc n) act log = ap (◌∷◌ act) (asked-cons n act log)

abbrev pub passing : ℕ → Bool
passing e = e == econnaborted || e == eintr

abbrev pub interrupted : ℕ → Bool
interrupted e = e == eintr

-- A command that starts over at each failure that the test lets pass.
module _ {A : Type 0} (f : List Answer → Log → Run A) (test : ℕ → Bool) (act : Action)
    (again : (e : ℕ) (w : List Answer) (log : Log)
      → test e ≡ true
      → f (fail e ∷ w) log ≡ f w (act ∷ log)) where
  retries :
      (es : List ℕ) (w : List Answer) (log : Log)
      → All (λ e. test e ≡ true) es
      → f (map fail es ++ w) log ≡ f w (asked (length es) act log)
  retries [] w log h = refl
  retries (e ∷ es) w log h =
      again e (map fail es ++ w) log h.0
      ∙ retries es w (act ∷ log) h.1
      ∙ ap (f w) (asked-cons (length es) act log)

  retries_end :
      (es : List ℕ) (log : Log)
      → All (λ e. test e ≡ true) es
      → f (map fail es) log ≡ f [] (asked (length es) act log)
  retries_end es log h = rw (append-nil (map fail es)) at at_end
    where
      at_end : f (map fail es ++ []) log ≡ f [] (asked (length es) act log)
      at_end = retries es [] log h

module _ (fd : ℕ) where
  accept_again :
      (e : ℕ) (w : List Answer) (log : Log)
      → passing e ≡ true
      → accept fd (fail e ∷ w) log ≡ accept fd w (Action.accept fd ∷ log)
  unfolding accept
  accept_again e w log h = rw h

  -- `Accept` asks once more after each aborted or interrupted attempt, returns the first
  -- descriptor that it gets, leaves the program with status 255 at any other error, and waits
  -- for as long as nothing else comes.
  pub accept_outcome :
      (es : List ℕ) (w : List Answer) (log : Log)
      → All (λ e. passing e ≡ true) es
      → ((n : ℕ)
          → accept fd (map fail es ++ (ret n ∷ w)) log
            ≡ ok n w (asked (suc (length es)) (Action.accept fd) log))
        × ((e : ℕ)
            → passing e ≡ false
            → accept fd (map fail es ++ (fail e ∷ w)) log
              ≡ exited 255 (asked (suc (length es)) (Action.accept fd) log))
        × (accept fd (map fail es) log ≡ blocked (asked (suc (length es)) (Action.accept fd) log))
  unfolding accept
  accept_outcome es w log h = (
    λ n. retries (accept fd) passing _ accept_again es (ret n ∷ w) log h,
    λ e p. retries (accept fd) passing _ accept_again es (fail e ∷ w) log h ∙ rw p,
    retries_end (accept fd) passing _ accept_again es log h,
  )

module _ (fd n : ℕ) where
  read_again :
      (e : ℕ) (w : List Answer) (log : Log)
      → interrupted e ≡ true
      → read fd n (fail e ∷ w) log ≡ read fd n w (Action.read fd n ∷ log)
  unfolding read
  read_again e w log h = rw h

  -- `Read` asks again after each interrupt, with the same count; the first other answer is its
  -- result: the bytes that came, or -1.
  pub read_outcome :
      (es : List ℕ) (w : List Answer) (log : Log)
      → All (λ e. interrupted e ≡ true) es
      → ((bs : Bytes)
          → read fd n (map fail es ++ (bytes bs ∷ w)) log
            ≡ ok (got bs) w (asked (suc (length es)) (Action.read fd n) log))
        × ((e : ℕ)
            → interrupted e ≡ false
            → read fd n (map fail es ++ (fail e ∷ w)) log
              ≡ ok (failed e) w (asked (suc (length es)) (Action.read fd n) log))
        × (read fd n (map fail es) log ≡ blocked (asked (suc (length es)) (Action.read fd n) log))
  unfolding read
  read_outcome es w log h = (
    λ bs. retries (read fd n) interrupted _ read_again es (bytes bs ∷ w) log h,
    λ e p. retries (read fd n) interrupted _ read_again es (fail e ∷ w) log h ∙ rw p,
    retries_end (read fd n) interrupted _ read_again es log h,
  )

module _ (fd : ℕ) (bs : Bytes) where
  write_again :
      (e : ℕ) (w : List Answer) (log : Log)
      → interrupted e ≡ true
      → write fd bs (fail e ∷ w) log ≡ write fd bs w (Action.write fd bs ∷ log)
  unfolding write
  write_again e w log h = rw h

  -- `Write` sends the same bytes again after each interrupt; the first other answer is its result.
  pub write_outcome :
      (es : List ℕ) (w : List Answer) (log : Log)
      → All (λ e. interrupted e ≡ true) es
      → ((n : ℕ)
          → write fd bs (map fail es ++ (ret n ∷ w)) log
            ≡ ok (some n) w (asked (suc (length es)) (Action.write fd bs) log))
        × ((e : ℕ)
            → interrupted e ≡ false
            → write fd bs (map fail es ++ (fail e ∷ w)) log
              ≡ ok none w (asked (suc (length es)) (Action.write fd bs) log))
        × (write fd bs (map fail es) log
            ≡ blocked (asked (suc (length es)) (Action.write fd bs) log))
  unfolding write
  write_outcome es w log h = (
    λ n. retries (write fd bs) interrupted _ write_again es (ret n ∷ w) log h,
    λ e p. retries (write fd bs) interrupted _ write_again es (fail e ∷ w) log h ∙ rw p,
    retries_end (write fd bs) interrupted _ write_again es log h,
  )
