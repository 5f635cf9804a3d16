-- ===== src/Readline.antt =====
-- `my_read` and `Readline` of WebServer/Epoll_Web/wrap.c. The static buffer of `my_read` is one
-- for the program, whatever the descriptor: `cache` holds what it has read and not yet given out.
pub mod Stream
pub mod Shared
use unix_net.Common.{
  ℕ, zero, suc, ◌+◌, ◌-◌, Option, none, some, List, [], ◌∷◌, ◌++◌, Bytes, ◌==◌, if◌then◌else◌,
}
use unix_net.Sys.{Answer, fail, ret, bytes, Action, Log, Run, ok, blocked, Cmd, and_then, eintr}

-- The results 1 with a byte, 0 and -1 of `my_read`.
pub data CharResult : Type 0 where
  char : ℕ → CharResult
  end_of_file : CharResult
  failed : CharResult

-- One byte, from the buffer if it holds one, and else from a read of 100 bytes that is tried again
-- while a signal interrupts it.
unfoldable pub my_read : ℕ → Bytes → Cmd (CharResult × Bytes)
my_read fd (c ∷ cache) w log = ok (char c, cache) w log
my_read fd [] [] log = blocked (Action.read fd 100 ∷ log)
my_read fd [] (fail e ∷ w) log =
    let again = my_read fd [] w (Action.read fd 100 ∷ log) in
    if e == eintr then again else ok (failed, []) w (Action.read fd 100 ∷ log)
my_read fd [] (ret n ∷ w) log = ok (end_of_file, []) w (Action.read fd 100 ∷ log)
my_read fd [] (bytes [] ∷ w) log = ok (end_of_file, []) w (Action.read fd 100 ∷ log)
my_read fd [] (bytes (c ∷ cs) ∷ w) log = ok (char c, cs) w (Action.read fd 100 ∷ log)

-- What `Readline` returns, -1 as `none`, what it has put into the caller's buffer before the final
-- zero, and the static buffer.
pub record LineResult : Type 0 where
  pub result : Option ℕ
  pub text : Bytes
  pub cache : Bytes

abbrev pub newline : ℕ
newline = b'\n'

-- What the loop does with a result of `my_read`; `next` is the loop from the following round on.
abbrev pub line_step :
    ℕ → Bytes → CharResult × Bytes → (Bytes → Bytes → Cmd LineResult) → Cmd LineResult
line_step n text (char c, cache) next w log =
    let rest = next (text ++ c ∷ []) cache w log in
    if c == newline
    then ok (record { result = some n; text = text ++ c ∷ []; cache = cache }) w log
    else rest
line_step n text (end_of_file, cache) next w log =
    ok (record { result = some (n - 1); text = text; cache = cache }) w log
line_step n text (failed, cache) next w log =
    ok (record { result = none; text = text; cache = cache }) w log

-- The loop with `rounds` rounds left, at the counter `n`.
unfoldable pub readline_loop : ℕ → ℕ → ℕ → Bytes → Bytes → Cmd LineResult
readline_loop fd zero n text cache w log =
    ok (record { result = some n; text = text; cache = cache }) w log
readline_loop fd (suc rounds) n text cache w log =
    and_then (my_read fd cache w log)
      λ r. line_step n text r (λ text' cache'. readline_loop fd rounds (n + 1) text' cache')

-- `for (n = 1; n < maxlen; n++)` makes `maxlen - 1` rounds, and none for `maxlen` 0.
unfoldable pub readline : ℕ → ℕ → Bytes → Cmd LineResult
readline fd maxlen cache = readline_loop fd (maxlen - 1) 1 [] cache
