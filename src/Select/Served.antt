-- ===== src/Select/Served.antt =====
-- What a round of TcpServerDemo/selectFun.c does for the clients that are ready.
use unix_net.Common.{
  ℕ, zero, suc, ◌+◌, ◌≡◌, refl, ◌∙◌, append_assoc, false, List, [], ◌∷◌, ◌++◌, Bytes, ◌==◌,
  if◌then◌else◌, length, Bool-cases, inl, inr,
}
use unix_net.Sys.{Answer, fail, ret, bytes, Action, Log, ok, eintr, Cmd, ◌>>=◌}
use unix_net.CString.{unterminated}
use unix_net.Wrap.{read, write}
use unix_net.Select.{FdSet, clear_fd, after_read, serve_ready}

-- What a ready client does: it sends something, goes away, or its connection breaks.
pub data Conduct : Type 0 where
  sends : ℕ → Bytes → Conduct
  leaves : Conduct
  breaks : ℕ → Conduct

-- The text can be printed, and an error is no interrupt, after which the read is tried again.
abbrev pub IsPlain : Conduct → Type 0
IsPlain (sends b bs) = unterminated 1500 (b ∷ bs) ≡ false
IsPlain leaves = Unit
IsPlain (breaks e) = (e == eintr) ≡ false

-- The answers to the calls for it, where a write takes all.
abbrev pub answers_to : Conduct → List Answer
answers_to (sends b bs) = bytes (b ∷ bs) ∷ ret (length (b ∷ bs)) ∷ []
answers_to leaves = bytes [] ∷ []
answers_to (breaks e) = fail e ∷ []

abbrev pub calls_for : ℕ → Conduct → Log → Log
calls_for i (sends b bs) log = Action.write i (b ∷ bs) ∷ Action.read i 1500 ∷ log
calls_for i leaves log = Action.close i ∷ Action.read i 1500 ∷ log
calls_for i (breaks e) log = Action.close i ∷ Action.read i 1500 ∷ log

abbrev pub watched_after : ℕ → Conduct → FdSet → FdSet
watched_after i (sends b bs) old = old
watched_after i leaves old = clear_fd i old
watched_after i (breaks e) old = clear_fd i old

serve_one :
    (i : ℕ) (c : Conduct) (old : FdSet) (then_do : FdSet → Cmd FdSet) (w : List Answer) (log : Log)
    → IsPlain c
    → (do r ← read i 1500; old' ← after_read i old r; then_do old') (answers_to c ++ w) log
      ≡ then_do (watched_after i c old) w (calls_for i c log)
unfolding read write
serve_one i (sends b bs) old then_do w log h = rw h
serve_one i leaves old then_do w log h = refl
serve_one i (breaks e) old then_do w log h = rw h

-- All of it for the ready ones of `n` descriptors from `i` on.
module _ (rest : FdSet) (conduct : ℕ → Conduct) where
  abbrev pub all_answers : ℕ → ℕ → List Answer
  all_answers zero i = []
  all_answers (suc n) i =
      if rest i then answers_to (conduct i) ++ all_answers n (i + 1) else all_answers n (i + 1)

  abbrev pub all_calls : ℕ → ℕ → Log → Log
  all_calls zero i log = log
  all_calls (suc n) i log =
      all_calls n (i + 1) (if rest i then calls_for i (conduct i) log else log)

  abbrev pub all_watched : ℕ → ℕ → FdSet → FdSet
  all_watched zero i old = old
  all_watched (suc n) i old =
      all_watched n (i + 1) (if rest i then watched_after i (conduct i) old else old)

  -- The loop over the descriptors comes to its end: each ready client that sent something got it
  -- back, each that left or broke was closed once and is no longer watched, and no other client
  -- was touched.
  pub serve_ready_all :
      (n i : ℕ) (old : FdSet) (w : List Answer) (log : Log)
      → ((j : ℕ) → IsPlain (conduct j))
      → serve_ready rest n i old (all_answers n i ++ w) log
        ≡ ok (all_watched n i old) w (all_calls n i log)
  unfolding serve_ready
  serve_ready_all zero i old w log h = refl
  serve_ready_all (suc n) i old w log h = elim (Bool-cases (rest i)) [
    | inl p ↦
        rw (p, append_assoc (answers_to (conduct i)) (all_answers n (i + 1)) w)
          (serve_one i (conduct i) old (serve_ready rest n (i + 1)) (all_answers n (i + 1) ++ w) log
              (h i)
            ∙ serve_ready_all n (i + 1) (watched_after i (conduct i) old) w
                (calls_for i (conduct i) log) h)
    | inr p ↦ rw p (serve_ready_all n (i + 1) old w log h)
  ]
