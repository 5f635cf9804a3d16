-- ===== src/EpollWeb/Drain.antt =====
-- The loop that reads off the rest of what a client sent.
use unix_net.Common.{
  ℕ, zero, suc, ◌+◌, ◌≤◌, ◌<◌, ◌≡◌, refl, sym, ◌∙◌, Option, none, some, List, [], ◌∷◌, ◌++◌, arith,
  Bytes, ◌==◌, if◌then◌else◌, Bool-cases, inl, inr, length,
}
use unix_net.Sys.{
  Answer, fail, ret, bytes, Action, Log, Run, ok, exited, blocked, crashed, Cmd, and_then, eintr,
}
use unix_net.Readline.{
  CharResult, char, end_of_file, failed, my_read, LineResult, newline, line_step, readline_loop,
  readline,
}
use unix_net.EpollWeb.Server.{cost, drain_loop, drain}

-- The answers behind the first failure that is not an interrupt. Bytes, and a stream at its end,
-- are no failure.
unfoldable pub behind_failure : List Answer → Option (List Answer)
behind_failure [] = none
behind_failure (fail e ∷ w) = if e == eintr then behind_failure w else some w
behind_failure (ret n ∷ w) = behind_failure w
behind_failure (bytes bs ∷ w) = behind_failure w

cost-cache : (cache : Bytes) (w : List Answer) → cost cache w ≡ length cache + cost [] w
cost-cache cache [] = omega arith
cost-cache cache (bytes bs ∷ w) = omega (arith, cost-cache cache w)
cost-cache cache (fail e ∷ w) = omega (arith, cost-cache cache w)
cost-cache cache (ret n ∷ w) = omega (arith, cost-cache cache w)

-- What one byte more or less means for the rest.
abbrev CharAfter : Bytes → List Answer → Run (CharResult × Bytes) → Type 0
CharAfter cache w (ok (char c, cache') w' _) =
    (cost cache' w' < cost cache w) × (behind_failure w' ≡ behind_failure w)
CharAfter cache w (ok (end_of_file, cache') w' _) =
    (cost cache' w' < cost cache w) × (behind_failure w' ≡ behind_failure w)
CharAfter cache w (ok (failed, cache') w' _) = (behind_failure w ≡ some w') × (cache' ≡ [])
CharAfter cache w (blocked _) = behind_failure w ≡ none
CharAfter cache w (exited _ _) = ⊥
CharAfter cache w (crashed _) = ⊥

CharAfter-interrupt :
    (e : ℕ) (w : List Answer) (r : Run (CharResult × Bytes))
    → behind_failure (fail e ∷ w) ≡ behind_failure w
    → CharAfter [] w r
    → CharAfter [] (fail e ∷ w) r
CharAfter-interrupt e w (ok (char c, cache) w' log) same h = (omega (arith, h.0), h.1 ∙ sym same)
CharAfter-interrupt e w (ok (end_of_file, cache) w' log) same h =
    (omega (arith, h.0), h.1 ∙ sym same)
CharAfter-interrupt e w (ok (failed, cache) w' log) same h = (same ∙ h.0, h.1)
CharAfter-interrupt e w (blocked log) same h = same ∙ h
CharAfter-interrupt e w (exited c log) same h = h
CharAfter-interrupt e w (crashed log) same h = h

my_read-after :
    (fd : ℕ) (cache : Bytes) (w : List Answer) (log : Log)
    → CharAfter cache w (my_read fd cache w log)
unfolding my_read behind_failure
my_read-after fd (c ∷ cache) w log =
    (omega (arith, cost-cache (c ∷ cache) w, cost-cache cache w), refl)
my_read-after fd [] [] log = refl
my_read-after fd [] (fail e ∷ w) log = elim (Bool-cases (e == eintr)) [
  | inl p ↦ rw p (
      CharAfter-interrupt e w (my_read fd [] w (Action.read fd 100 ∷ log)) (rw p)
        (my_read-after fd [] w (Action.read fd 100 ∷ log)))
  | inr p ↦ rw p (rw p, refl)
]
my_read-after fd [] (ret n ∷ w) log = (omega arith, refl)
my_read-after fd [] (bytes [] ∷ w) log = (omega arith, refl)
my_read-after fd [] (bytes (c ∷ cs) ∷ w) log = (omega (arith, cost-cache cs w), refl)

-- What a call of `Readline` means for the rest: it takes something, or it fails and nothing that
-- can be read is left.
abbrev ResultAfter : ℕ → List Answer → Option ℕ → Bytes → List Answer → Type 0
ResultAfter bound w (some n) cache w' =
    (cost cache w' < bound) × (behind_failure w' ≡ behind_failure w)
ResultAfter bound w none cache w' = (behind_failure w ≡ some w') × (cache ≡ [])

abbrev LineAfter : ℕ → List Answer → Run LineResult → Type 0
LineAfter bound w (ok r w' _) = ResultAfter bound w r.result r.cache w'
LineAfter bound w (blocked _) = behind_failure w ≡ none
LineAfter bound w (exited _ _) = ⊥
LineAfter bound w (crashed _) = ⊥

LineAfter-cast :
    (bound : ℕ) (w w' : List Answer) (r : Run LineResult)
    → behind_failure w' ≡ behind_failure w
    → LineAfter bound w' r
    → LineAfter bound w r
LineAfter-cast bound w w' (ok r u log) e h = result r.result h
  where
    result : (o : Option ℕ) → ResultAfter bound w' o r.cache u → ResultAfter bound w o r.cache u
    result (some n) h = (h.0, h.1 ∙ e)
    result none h = (sym e ∙ h.0, h.1)
LineAfter-cast bound w w' (blocked log) e h = sym e ∙ h
LineAfter-cast bound w w' (exited c log) e h = h
LineAfter-cast bound w w' (crashed log) e h = h

abbrev one : ℕ → ℕ
one zero = 1
one (suc k) = 0

one-le : (k : ℕ) → one k ≤ 1
one-le zero = omega arith
one-le (suc k) = omega arith

line_step-after :
    (bound n : ℕ) (text cache : Bytes) (w : List Answer) (r : Run (CharResult × Bytes))
    (next : Bytes → Bytes → Cmd LineResult)
    → cost cache w ≤ bound
    → ((text' cache' : Bytes) (w' : List Answer) (log : Log)
        → cost cache' w' < bound
        → LineAfter bound w' (next text' cache' w' log))
    → CharAfter cache w r
    → LineAfter bound w (and_then r (λ o. line_step n text o next))
line_step-after bound n text cache w (ok (char c, cache') w' log) next room later h =
    elim (Bool-cases (c == newline)) [
      | inl p ↦ rw p (omega (arith, h.0), h.1)
      | inr p ↦ rw p (
          LineAfter-cast bound w w' (next (text ++ c ∷ []) cache' w' log) h.1
            (later (text ++ c ∷ []) cache' w' log (omega (arith, h.0))))
    ]
line_step-after bound n text cache w (ok (end_of_file, cache') w' log) next room later h =
    (omega (arith, h.0), h.1)
line_step-after bound n text cache w (ok (failed, cache') w' log) next room later h = h
line_step-after bound n text cache w (blocked log) next room later h = h
line_step-after bound n text cache w (exited c log) next room later h = h
line_step-after bound n text cache w (crashed log) next room later h = h

readline_loop-after :
    (fd rounds bound n : ℕ) (text cache : Bytes) (w : List Answer) (log : Log)
    → cost cache w + one rounds ≤ bound
    → LineAfter bound w (readline_loop fd rounds n text cache w log)
unfolding readline_loop
readline_loop-after fd zero bound n text cache w log room = (omega (arith, room), refl)
readline_loop-after fd (suc k) bound n text cache w log room =
    line_step-after bound n text cache w (my_read fd cache w log) _ (omega (arith, room))
      (λ text' cache' w' log' h.
        readline_loop-after fd k bound (n + 1) text' cache' w' log' (omega (arith, h, one-le k)))
      (my_read-after fd cache w log)

-- Where the loop ends: behind the first failure, with an empty buffer.
abbrev pub Drained : Option (List Answer) → Run Bytes → Type 0
Drained none r = (log' : Log) × (r ≡ blocked log')
Drained (some w') r = (log' : Log) × (r ≡ ok [] w' log')

readline-after :
    (fd : ℕ) (cache : Bytes) (w : List Answer) (log : Log)
    → LineAfter (cost cache w) w (readline fd 1500 cache w log)
unfolding readline
readline-after fd cache w log =
    readline_loop-after fd 1499 (cost cache w) 1 [] cache w log (omega arith)

drain_step :
    (bound : ℕ) (w : List Answer) (r : Run LineResult) (next : Bytes → Cmd Bytes)
    → ((cache' : Bytes) (w' : List Answer) (log : Log)
        → cost cache' w' < bound
        → Drained (behind_failure w') (next cache' w' log))
    → LineAfter bound w r
    → Drained (behind_failure w) (
        and_then r
          λ o w' log'. elim o.result [ some n ↦ next o.cache w' log' | none ↦ ok o.cache w' log' ])
drain_step bound w (ok r w' log) next later h = result r.result h
  where
    result :
        (o : Option ℕ)
        → ResultAfter bound w o r.cache w'
        → Drained
            (behind_failure w)
            (elim o [ some n ↦ next r.cache w' log | none ↦ ok r.cache w' log ])
    result (some n) h = rw h.1 at (later r.cache w' log h.0)
    result none h = rw (h.0, h.1) (log, refl)
drain_step bound w (blocked log) next later h = rw h (log, refl)
drain_step bound w (exited c log) next later h = absurd h
drain_step bound w (crashed log) next later h = absurd h

drain_loop-Drained :
    (fuel fd : ℕ) (cache : Bytes) (w : List Answer) (log : Log)
    → cost cache w < fuel
    → Drained (behind_failure w) (drain_loop fuel fd cache w log)
unfolding drain_loop
drain_loop-Drained zero fd cache w log h = elim h [ ]
drain_loop-Drained (suc fuel) fd cache w log h =
    drain_step (cost cache w) w (readline fd 1500 cache w log) (drain_loop fuel fd)
      (λ cache' w' log' h'. drain_loop-Drained fuel fd cache' w' log' (omega (arith, h')))
      (readline-after fd cache w log)

-- The loop that throws away the rest of a request ends exactly at the first failure of a read
-- that is no interrupt, with the buffer empty and the answers behind it left. It does not end at
-- the end of the stream: where the peer has closed a connection that is still open here, each
-- `Readline` returns 0 and the loop goes on.
pub drain_ends :
    (fd : ℕ) (cache : Bytes) (w : List Answer) (log : Log)
    → Drained (behind_failure w) (drain fd cache w log)
unfolding drain
drain_ends fd cache w log = drain_loop-Drained (suc (cost cache w)) fd cache w log (omega arith)
