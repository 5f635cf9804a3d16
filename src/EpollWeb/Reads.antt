-- ===== src/EpollWeb/Reads.antt =====
-- What the reader and the draining loop of the epoll web server add to the log, and a line that is
-- in the buffer.
use unix_net.Common.{
  ℕ, zero, suc, ◌+◌, ◌-◌, ◌<◌, ◌≡◌, refl, ap, ◌∙◌, false, some, List, [], ◌∷◌, ◌++◌, Bytes, ◌==◌,
  length, length-append, All, append_assoc, arith, Option-cases, Bool-cases, inl, inr,
}
use unix_net.Sys.{Answer, fail, ret, bytes, Action, Log, ok, Cmd, eintr}
use unix_net.Sys.Preserves.{then-AtEnd, AtEnd, Admits}
use unix_net.Readline.{
  CharResult, char, end_of_file, failed, my_read, LineResult, newline, line_step, readline_loop,
  readline,
}
use unix_net.EpollWeb.Server.{drain_loop, drain}
use unix_net.EpollWeb.Request.{read_line}

-- The reader adds reads of its descriptor only.
module _ {P : Log → Type 0} (fd : ℕ) (step : Admits P (Action.read fd 100)) where
  my_read_from :
      (cache : Bytes) (w : List Answer) (log : Log) → P log → AtEnd P (my_read fd cache w log)
  unfolding my_read
  my_read_from (c ∷ cache) w log h = h
  my_read_from [] [] log h = step log h
  my_read_from [] (fail e ∷ w) log h = elim (Bool-cases (e == eintr)) [
    | inl p ↦ rw p (my_read_from [] w (Action.read fd 100 ∷ log) (step log h))
    | inr p ↦ rw p (step log h)
  ]
  my_read_from [] (ret n ∷ w) log h = step log h
  my_read_from [] (bytes [] ∷ w) log h = step log h
  my_read_from [] (bytes (c ∷ cs) ∷ w) log h = step log h

  line_step_from :
      (n : ℕ) (text : Bytes) (r : CharResult × Bytes) (next : Bytes → Bytes → Cmd LineResult)
      (w : List Answer) (log : Log)
      → ((t c : Bytes) → AtEnd P (next t c w log))
      → P log
      → AtEnd P (line_step n text r next w log)
  line_step_from n text (char c, cache) next w log later h = elim (Bool-cases (c == newline)) [
    | inl p ↦ rw p h
    | inr p ↦ rw p (later (text ++ c ∷ []) cache)
  ]
  line_step_from n text (end_of_file, cache) next w log later h = h
  line_step_from n text (failed, cache) next w log later h = h

  readline_loop_from :
      (rounds n : ℕ) (text cache : Bytes) (w : List Answer) (log : Log)
      → P log
      → AtEnd P (readline_loop fd rounds n text cache w log)
  unfolding readline_loop
  readline_loop_from zero n text cache w log h = h
  readline_loop_from (suc rounds) n text cache w log h =
      then-AtEnd (my_read fd cache w log) _ (my_read_from cache w log h) λ r w' log' h'.
        line_step_from n text r _ w' log' (λ t c. readline_loop_from rounds (n + 1) t c w' log' h')
          h'

  pub readline_from :
      (maxlen : ℕ) (cache : Bytes) (w : List Answer) (log : Log)
      → P log
      → AtEnd P (readline fd maxlen cache w log)
  unfolding readline
  readline_from maxlen cache w log h = readline_loop_from (maxlen - 1) 1 [] cache w log h

  drain_loop_from :
      (fuel : ℕ) (cache : Bytes) (w : List Answer) (log : Log)
      → P log
      → AtEnd P (drain_loop fuel fd cache w log)
  unfolding drain_loop
  drain_loop_from zero cache w log h = h
  drain_loop_from (suc fuel) cache w log h =
      then-AtEnd (readline fd 1500 cache w log) _ (readline_from 1500 cache w log h) λ r w' log' h'.
        elim (Option-cases r.result) [
          | inl p ↦ rw p h'
          | inr p ↦ rw p.1 (drain_loop_from fuel r.cache w' log' h')
        ]

  pub drain_from :
      (cache : Bytes) (w : List Answer) (log : Log) → P log → AtEnd P (drain fd cache w log)
  unfolding drain
  drain_from cache w log h = drain_loop_from _ cache w log h

-- A line in the buffer is taken from there, and no call is made.
readline_loop-line :
    (fd rounds n : ℕ) (before line cache : Bytes) (w : List Answer) (log : Log)
    → All (λ b. (b == newline) ≡ false) line
    → length line < rounds
    → readline_loop fd rounds n before (line ++ (newline ∷ cache)) w log
      ≡ ok
          (record {
            result = some (n + length line);
            text = before ++ (line ++ newline ∷ []);
            cache = cache;
          })
          w
          log
unfolding readline_loop my_read
readline_loop-line fd zero n before line cache w log h k = absurd (omega (arith, k))
readline_loop-line fd (suc rounds) n before [] cache w log h k =
    let e : n ≡ n + 0 = omega arith in
    ap (λ m. ok (record { result = some m; text = before ++ newline ∷ []; cache = cache }) w log) e
readline_loop-line fd (suc rounds) n before (c ∷ line) cache w log h k =
    let e : n + 1 + length line ≡ n + suc (length line) = omega arith in
    rw h.0 (
      readline_loop-line fd rounds (n + 1) (before ++ c ∷ []) line cache w log h.1
        (omega (arith, k))
      ∙ ap
          (λ m.
            ok
              (record {
                result = some m;
                text = (before ++ c ∷ []) ++ (line ++ newline ∷ []);
                cache = cache;
              })
              w log)
          e
      ∙ ap
          (λ t.
            ok (record { result = some (n + suc (length line)); text = t; cache = cache }) w log)
          (append_assoc before (c ∷ []) (line ++ newline ∷ [])))

readline_loop-fill :
    (fd rounds n c : ℕ) (before cs : Bytes) (w : List Answer) (log : Log)
    → readline_loop fd (suc rounds) n before [] (bytes (c ∷ cs) ∷ w) log
      ≡ readline_loop fd (suc rounds) n before (c ∷ cs) w (Action.read fd 100 ∷ log)
unfolding readline_loop my_read
readline_loop-fill fd rounds n c before cs w log = refl

-- A request that comes in one read of the buffer's size is read as its line.
pub readline-line :
    (fd c : ℕ) (line cache : Bytes) (w : List Answer) (log : Log)
    → All (λ b. (b == newline) ≡ false) (c ∷ line)
    → length (c ∷ line) < 1499
    → readline fd 1500 [] (bytes (c ∷ (line ++ (newline ∷ cache))) ∷ w) log
      ≡ ok (read_line (c ∷ (line ++ newline ∷ [])) cache) w (Action.read fd 100 ∷ log)
unfolding readline
readline-line fd c line cache w log h k =
    let e : 1 + length (c ∷ line) ≡ length (c ∷ (line ++ newline ∷ [])) =
      omega (arith, length-append line (newline ∷ [])) in
    readline_loop-fill fd 1498 1 c [] (line ++ (newline ∷ cache)) w log
    ∙ readline_loop-line fd 1499 1 [] (c ∷ line) cache w (Action.read fd 100 ∷ log) h k
    ∙ ap
        (λ m.
          ok (record { result = some m; text = c ∷ (line ++ newline ∷ []); cache = cache }) w
            (Action.read fd 100 ∷ log))
        e
