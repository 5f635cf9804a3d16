-- ===== src/Readline/Shared.antt =====
-- The static buffer of `my_read` is shared by all descriptors.
use mathlib.Core.Path.{ap₂}
use unix_net.Common.{
  ℕ, zero, suc, ◌+◌, ◌-◌, ◌<◌, ◌≡◌, sym, ap, ◌∙◌, false, some, List, [], ◌∷◌, ◌++◌, append_assoc,
  append-nil, arith, Bytes, ◌==◌, length,
}
use unix_net.Sys.{Answer, Log, ok}
use unix_net.Readline.{LineResult, my_read, newline, readline_loop, readline}
use unix_net.Readline.Stream.{has_newline}

-- The outcome of a call that found `line` and its newline in the buffer before `rest`.
abbrev pub found : ℕ → Bytes → Bytes → LineResult
found n line rest = record { result = some n; text = line ++ newline ∷ []; cache = rest }

loop_in_buffer :
    (fd rounds n : ℕ) (before line rest : Bytes) (w : List Answer) (log : Log)
    → has_newline line ≡ false
    → length line < rounds
    → readline_loop fd rounds n before (line ++ (newline ∷ rest)) w log
      ≡ ok (found (n + length line) (before ++ line) rest) w log
unfolding readline_loop my_read has_newline
loop_in_buffer fd zero n before line rest w log h m = absurd (omega arith)
loop_in_buffer fd (suc k) n before [] rest w log h m =
    ap₂ (λ i t. ok (found i t rest) w log) (omega arith) (sym (append-nil before))
loop_in_buffer fd (suc k) n before (c ∷ line) rest w log h m =
    let other : (c == newline) ≡ false = ground arith in
    rw other (
      loop_in_buffer fd k (n + 1) (before ++ c ∷ []) line rest w log (rw other at h) (omega arith)
      ∙ ap₂ (λ i t. ok (found i t rest) w log) (omega arith) (append_assoc before (c ∷ []) line))

-- A call that the static buffer can answer asks the system for nothing, and takes no account of
-- its descriptor: what one connection sent is handed out as the request of another.
pub readline_any_fd :
    (fd fd' maxlen : ℕ) (line rest : Bytes) (w : List Answer) (log : Log)
    → has_newline line ≡ false
    → length line + 1 < maxlen
    → (readline fd maxlen (line ++ (newline ∷ rest)) w log
        ≡ ok (found (length line + 1) line rest) w log)
      × (readline fd maxlen (line ++ (newline ∷ rest)) w log
          ≡ readline fd' maxlen (line ++ (newline ∷ rest)) w log)
unfolding readline
readline_any_fd fd fd' maxlen line rest w log h m =
    (in_buffer fd, in_buffer fd ∙ sym (in_buffer fd'))
  where
    in_buffer :
        (fd : ℕ)
        → readline fd maxlen (line ++ (newline ∷ rest)) w log
          ≡ ok (found (length line + 1) line rest) w log
    in_buffer fd =
        loop_in_buffer fd (maxlen - 1) 1 [] line rest w log h (omega arith)
        ∙ ap (λ n. ok (found n line rest) w log) (omega arith)
