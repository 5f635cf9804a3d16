-- ===== src/Readline/Stream.antt =====
-- The buffered line reader against the first line of the stream of bytes.
use mathlib.Core.Path.{subst₂}
use unix_net.Common.{
  ℕ, zero, suc, ◌+◌, ◌-◌, ◌<◌, ◌≡◌, refl, sym, ap, ◌∙◌, Bool, true, false, ◌||◌, none, some, List,
  [], ◌∷◌, ◌++◌, append_assoc, append-nil, arith, Bytes, ◌==◌, if◌then◌else◌, Bool-cases, inl, inr,
  length,
}
use unix_net.Sys.{Answer, fail, ret, bytes, Action, Log, Run, Cmd, and_then, ok, blocked, eintr}
use unix_net.Wrap.Count.{arriving, Ending, waits, eof, error, ending}
use unix_net.Readline.{
  CharResult, char, end_of_file, failed, my_read, LineResult, newline, line_step, readline_loop,
  readline,
}

-- At most `k` bytes, up to and with the first newline.
unfoldable pub first_line : ℕ → Bytes → Bytes
first_line zero s = []
first_line (suc k) [] = []
first_line (suc k) (c ∷ s) = if c == newline then c ∷ [] else c ∷ first_line k s

unfoldable pub has_newline : Bytes → Bool
has_newline [] = false
has_newline (c ∷ s) = c == newline || has_newline s

-- The stream holds a whole line, or `k` bytes.
unfoldable pub holds_line : ℕ → Bytes → Bool
holds_line zero s = true
holds_line (suc k) [] = false
holds_line (suc k) (c ∷ s) = c == newline || holds_line k s

-- `my_read` on a stream that has a byte gives it out, and leaves the rest in the stream.
my_read_char :
    (fd : ℕ) (cache : Bytes) (w : List Answer) (log : Log) {c : ℕ} {s : Bytes}
    → cache ++ arriving w ≡ c ∷ s
    → (cache' : Bytes) × (w' : List Answer) × (log' : Log) × (my_read fd cache w log
        ≡ ok (char c, cache') w' log')
      × (cache' ++ arriving w' ≡ s)
      × (ending w' ≡ ending w)
unfolding my_read
my_read_char fd (b ∷ cache) w log h = (cache, w, log, cc, cc, refl)
my_read_char fd [] [] log h = cc
my_read_char fd [] (fail e ∷ w) log h = elim (Bool-cases (e == eintr)) [
  | inl p ↦ rw p (my_read_char fd [] w (Action.read fd 100 ∷ log) (rw p at h))
  | inr p ↦ absurd (ground arith)
]
my_read_char fd [] (ret n ∷ w) log h = cc
my_read_char fd [] (bytes [] ∷ w) log h = cc
my_read_char fd [] (bytes (b ∷ bs) ∷ w) log h = (bs, w, Action.read fd 100 ∷ log, cc, cc, refl)

-- `my_read` on a stream that has no byte left.
abbrev AtEnd : Run (CharResult × Bytes) → Ending → Type 0
AtEnd r waits = (log' : Log) × (r ≡ blocked log')
AtEnd r eof = (w' : List Answer) × (log' : Log) × (r ≡ ok (end_of_file, []) w' log')
AtEnd r error = (w' : List Answer) × (log' : Log) × (r ≡ ok (failed, []) w' log')

my_read_end :
    (fd : ℕ) (w : List Answer) (log : Log)
    → arriving w ≡ []
    → AtEnd (my_read fd [] w log) (ending w)
unfolding my_read
my_read_end fd [] log h = (_, refl)
my_read_end fd (fail e ∷ w) log h = elim (Bool-cases (e == eintr)) [
  | inl p ↦ rw p (my_read_end fd w (Action.read fd 100 ∷ log) (rw p at h))
  | inr p ↦ rw p (_, _, refl)
]
my_read_end fd (ret n ∷ w) log h = (_, _, refl)
my_read_end fd (bytes [] ∷ w) log h = (_, _, refl)
my_read_end fd (bytes (b ∷ bs) ∷ w) log h = absurd (cc)

-- The number that `Readline` returns for a line that it has read.
unfoldable pub counted : Bytes → ℕ
unfolding has_newline
counted text = if has_newline text then length text else length text + 1

-- A loop that found a line behind `before`, when the counter stood at `n`.
abbrev pub Finds : Run LineResult → Bytes → Bytes → ℕ → Bytes → Type 0
Finds r before line n s =
    (out : LineResult) × (w' : List Answer) × (log' : Log) × (r ≡ ok out w' log')
    × (out.text ≡ before ++ line)
    × (out.result ≡ some (n + counted line - 1))
    × (line ++ (out.cache ++ arriving w') ≡ s)

counted_nil : counted [] ≡ 1
unfolding counted
counted_nil = refl

counted-newline : (c : ℕ) → (c == newline) ≡ true → counted (c ∷ []) ≡ 1
unfolding counted
counted-newline c p = rw p

counted_cons :
    (c : ℕ) (line : Bytes) → (c == newline) ≡ false → counted (c ∷ line) ≡ counted line + 1
unfolding counted
counted_cons c line p = rw p (elim (Bool-cases (has_newline line)) [
  | inl q ↦ rw q (omega arith)
  | inr q ↦ rw q (omega arith)
])

Finds-cons :
    {r : Run LineResult} (before line : Bytes) (n : ℕ) {c : ℕ} {s : Bytes}
    → (c == newline) ≡ false
    → Finds r (before ++ c ∷ []) line (n + 1) s
    → Finds r before (c ∷ line) n (c ∷ s)
Finds-cons before line n {c} p (out, w', log', e, t, m, rest) = (
  out,
  w',
  log',
  e,
  t ∙ append_assoc before (c ∷ []) line,
  m ∙ ap some (omega (arith, counted_cons c line p)),
  ap (◌∷◌ c) rest,
)

-- What the loop does where the stream runs out before a line.
abbrev pub RunsOut : Run LineResult → Bytes → ℕ → Ending → Type 0
RunsOut r text n waits = (log' : Log) × (r ≡ blocked log')
RunsOut r text n eof =
    (w' : List Answer) × (log' : Log) × (r
      ≡ ok (record { result = some n; text = text; cache = [] }) w' log')
RunsOut r text n error =
    (w' : List Answer) × (log' : Log) × (r
      ≡ ok (record { result = none; text = text; cache = [] }) w' log')

RunsOut-cast :
    (r : Run LineResult) (en : Ending) {text text' : Bytes} {n n' : ℕ}
    → text ≡ text'
    → n ≡ n'
    → RunsOut r text n en
    → RunsOut r text' n' en
RunsOut-cast r en p q h = subst₂ (λ t m. RunsOut r t m en) p q h

line_step_end :
    (en : Ending) (r : Run (CharResult × Bytes)) (n : ℕ) (text : Bytes)
    (next : Bytes → Bytes → Cmd LineResult)
    → AtEnd r en
    → RunsOut (and_then r (λ o. line_step n text o next)) text (n - 1) en
line_step_end waits r n text next (log', e) = rw e (log', refl)
line_step_end eof r n text next (w', log', e) = rw e (w', log', refl)
line_step_end error r n text next (w', log', e) = rw e (w', log', refl)

module _ (fd : ℕ) where
  readline_loop_line :
      (rounds n : ℕ) (before cache : Bytes) (w : List Answer) (log : Log) {s : Bytes}
      → cache ++ arriving w ≡ s
      → holds_line rounds s ≡ true
      → Finds (readline_loop fd rounds n before cache w log) before (first_line rounds s) n s
  unfolding readline_loop first_line holds_line
  readline_loop_line zero n before cache w log e h =
      (_, _, _, refl, rw append-nil, ap some (omega (arith, counted_nil)), e)
  readline_loop_line (suc k) n before cache w log {s = []} e h = cc
  readline_loop_line (suc k) n before cache w log {s = c ∷ s} e h =
      let (cache', w', log', step, left, _) = my_read_char fd cache w log e in
      rw step (elim (Bool-cases (c == newline)) [
        | inl p ↦
            rw p
              (_, _, _, refl, refl, ap some (omega (arith, counted-newline c p)), ap (◌∷◌ c) left)
        | inr p ↦ rw p (
            Finds-cons before (first_line k s) n p
              (readline_loop_line k (n + 1) (before ++ c ∷ []) cache' w' log' left (rw p at h)))
      ])

  readline_loop_short :
      (rounds n : ℕ) (before cache : Bytes) (w : List Answer) (log : Log) {s : Bytes}
      → cache ++ arriving w ≡ s
      → holds_line rounds s ≡ false
      → 0 < n
      → RunsOut
          (readline_loop fd rounds n before cache w log)
          (before ++ s)
          (n + length s - 1)
          (ending w)
  unfolding readline_loop holds_line
  readline_loop_short zero n before cache w log e h p = cc
  readline_loop_short (suc k) n before [] w log {s = []} e h p =
      RunsOut-cast _ (ending w) (sym (append-nil before)) (omega arith)
        (line_step_end (ending w) (my_read fd [] w log) n before _ (my_read_end fd w log e))
  readline_loop_short (suc k) n before (b ∷ cache) w log {s = []} e h p = cc
  readline_loop_short (suc k) n before cache w log {s = c ∷ s} e h p =
      let (cache', w', log', step, left, same) = my_read_char fd cache w log e in
      let other : (c == newline) ≡ false = ground arith in
      rw (step, other, ← same)
        (RunsOut-cast _ (ending w') (append_assoc before (c ∷ []) s) (omega arith) (
          readline_loop_short k (n + 1) (before ++ c ∷ []) cache' w' log' left (rw other at h)
            (omega arith)))

  -- `Readline` against the stream, which is what the static buffer holds and then what arrives.
  -- If the stream holds a line, or `maxlen - 1` bytes, these are the text, they and what is then
  -- in the buffer or still to arrive make up the old stream, and the result counts the bytes,
  -- or one more where there was no newline.
  pub readline_found :
      (maxlen : ℕ) (cache : Bytes) (w : List Answer) (log : Log)
      → holds_line (maxlen - 1) (cache ++ arriving w) ≡ true
      → Finds
          (readline fd maxlen cache w log)
          []
          (first_line (maxlen - 1) (cache ++ arriving w))
          1
          (cache ++ arriving w)
  unfolding readline
  readline_found maxlen cache w log h = readline_loop_line (maxlen - 1) 1 [] cache w log refl h

  -- `Readline` against a stream, what the static buffer holds and then what arrives, of
  -- less than `maxlen - 1` bytes with no newline: its end
  -- gives all that there is, with its count; an error gives -1; and with neither the call waits.
  pub readline-RunsOut :
      (maxlen : ℕ) (cache : Bytes) (w : List Answer) (log : Log)
      → holds_line (maxlen - 1) (cache ++ arriving w) ≡ false
      → RunsOut
          (readline fd maxlen cache w log)
          (cache ++ arriving w)
          (length (cache ++ arriving w))
          (ending w)
  unfolding readline
  readline-RunsOut maxlen cache w log h =
      RunsOut-cast _ (ending w) refl (omega arith)
        (readline_loop_short (maxlen - 1) 1 [] cache w log refl h (omega arith))
