-- ===== src/Wrap/Count.antt =====
-- `Readn` and `Writen` against the stream of bytes that they move.
use mathlib.Core.Path.{subst₂}
use unix_net.Common.{
  ℕ, zero, suc, ◌-◌, ◌≤◌, ◌<◌, ◌≡◌, refl, sym, ap, ◌∙◌, Option, none, some, List, [], ◌∷◌, ◌++◌,
  append_assoc, append-nil, arith, Bytes, ◌==◌, if◌then◌else◌, Bool-cases, inl, inr, length,
  length-append, take, drop,
}
use unix_net.Sys.{Answer, fail, ret, bytes, Log, Run, ok, blocked, eintr}
use unix_net.Wrap.{readn_loop, readn}

-- The bytes that the answers deliver before the stream ends or fails; interrupts deliver nothing.
abbrev pub arriving : List Answer → Bytes
arriving [] = []
arriving (fail e ∷ w) = if e == eintr then arriving w else []
arriving (ret n ∷ w) = []
arriving (bytes [] ∷ w) = []
arriving (bytes (b ∷ bs) ∷ w) = (b ∷ bs) ++ arriving w

-- How the answers go on behind those bytes.
pub data Ending : Type 0 where
  waits eof error : Ending

abbrev pub ending : List Answer → Ending
ending [] = waits
ending (fail e ∷ w) = if e == eintr then ending w else error
ending (ret n ∷ w) = eof
ending (bytes [] ∷ w) = eof
ending (bytes (b ∷ bs) ∷ w) = ending w

-- A read never returns more than it was asked for; `left` falls as `Readn` goes on.
abbrev pub Fits : ℕ → List Answer → Type 0
Fits zero w = Unit
Fits (suc left) [] = Unit
Fits (suc left) (fail e ∷ w) = Fits (suc left) w
Fits (suc left) (ret n ∷ w) = Unit
Fits (suc left) (bytes [] ∷ w) = Unit
Fits (suc left) (bytes (b ∷ bs) ∷ w) =
    (length (b ∷ bs) ≤ suc left) × Fits (suc left - length (b ∷ bs)) w

take_append :
    (k : ℕ) (xs ys : Bytes) → length xs ≤ k → take k (xs ++ ys) ≡ xs ++ take (k - length xs) ys
take_append k [] ys h = ap (λ n. take n ys) (omega arith)
take_append zero (x ∷ xs) ys h = absurd (omega arith)
take_append (suc k) (x ∷ xs) ys h =
    ap (◌∷◌ x) (take_append k xs ys (omega arith) ∙ ap (λ n. xs ++ take n ys) (omega arith))

drop_append : (k : ℕ) (xs ys : Bytes) → length xs ≤ k → drop k (xs ++ ys) ≡ drop (k - length xs) ys
drop_append k [] ys h = ap (λ n. drop n ys) (omega arith)
drop_append zero (x ∷ xs) ys h = absurd (omega arith)
drop_append (suc k) (x ∷ xs) ys h =
    drop_append k xs ys (omega arith) ∙ ap (λ n. drop n ys) (omega arith)

-- What `Readn` returns when the stream holds enough, and what it leaves in the stream.
abbrev pub Filled : Run (Option Bytes) → Bytes → Bytes → Type 0
Filled r got rest =
    (w' : List Answer) × (log' : Log) × (r ≡ ok (some got) w' log') × (arriving w' ≡ rest)

Filled-cast :
    {r : Run (Option Bytes)} {got got' rest rest' : Bytes}
    → got ≡ got'
    → rest ≡ rest'
    → Filled r got rest
    → Filled r got' rest'
Filled-cast {r} {got} p q h = subst₂ (Filled r) p q h

module _ (fd : ℕ) where
  readn_loop_full :
      (w : List Answer) (left : ℕ) (got : Bytes) (log : Log)
      → Fits left w
      → left ≤ length (arriving w)
      → Filled
          (readn_loop fd left got w log)
          (got ++ take left (arriving w))
          (drop left (arriving w))
  unfolding readn_loop
  readn_loop_full w zero got log f h = (w, log, rw append-nil, refl)
  readn_loop_full [] (suc left) got log f h = absurd (omega arith)
  readn_loop_full (fail e ∷ w) (suc left) got log f h = elim (Bool-cases (e == eintr)) [
    | inl p ↦ rw p (readn_loop_full w (suc left) got _ f (rw p at h))
    | inr p ↦ absurd (ground (arith))
  ]
  readn_loop_full (ret n ∷ w) (suc left) got log f h = absurd (omega arith)
  readn_loop_full (bytes [] ∷ w) (suc left) got log f h = absurd (omega arith)
  readn_loop_full (bytes (b ∷ bs) ∷ w) (suc left) got log f h =
      Filled-cast
        (append_assoc got (b ∷ bs) _
          ∙ ap (◌++◌ got) (sym (take_append (suc left) (b ∷ bs) (arriving w) f.0)))
        (sym (drop_append (suc left) (b ∷ bs) (arriving w) f.0))
        (readn_loop_full w (suc left - length (b ∷ bs)) (got ++ (b ∷ bs)) _ f.1
          (omega (arith, length-append (b ∷ bs) (arriving w))))

-- What `Readn` returns when the stream ends, or fails, or waits, before there is enough.
abbrev pub Short : Run (Option Bytes) → Bytes → Ending → Type 0
Short r got waits = (log' : Log) × (r ≡ blocked log')
Short r got eof = (w' : List Answer) × (log' : Log) × (r ≡ ok (some got) w' log')
Short r got error = (w' : List Answer) × (log' : Log) × (r ≡ ok none w' log')

module _ (fd : ℕ) where
  readn_loop-Short :
      (w : List Answer) (left : ℕ) (got : Bytes) (log : Log)
      → Fits left w
      → length (arriving w) < left
      → Short (readn_loop fd left got w log) (got ++ arriving w) (ending w)
  unfolding readn_loop
  readn_loop-Short w zero got log f h = elim h [ ]
  readn_loop-Short [] (suc left) got log f h = (_, refl)
  readn_loop-Short (fail e ∷ w) (suc left) got log f h = elim (Bool-cases (e == eintr)) [
    | inl p ↦ rw p (readn_loop-Short w (suc left) got _ f (rw p at h))
    | inr p ↦ rw p (_, _, refl)
  ]
  readn_loop-Short (ret n ∷ w) (suc left) got log f h = rw append-nil (_, _, refl)
  readn_loop-Short (bytes [] ∷ w) (suc left) got log f h = rw append-nil (_, _, refl)
  readn_loop-Short (bytes (b ∷ bs) ∷ w) (suc left) got log f h =
      rw (← append_assoc got (b ∷ bs) (arriving w)) (
        readn_loop-Short w (suc left - length (b ∷ bs)) (got ++ (b ∷ bs)) _ f.1
          (omega (arith, length-append (b ∷ bs) (arriving w))))

  -- `Readn` against the stream, where no read returns more than it was asked for: if the stream
  -- holds `n` bytes, these are its result, and the rest is still in the stream.
  pub readn-Filled :
      (n : ℕ) (w : List Answer) (log : Log)
      → Fits n w
      → n ≤ length (arriving w)
      → Filled (readn fd n w log) (take n (arriving w)) (drop n (arriving w))
  unfolding readn
  readn-Filled n w log f h = readn_loop_full fd w n [] log f h

  -- `Readn` against a stream of less than `n` bytes, where no read returns more than it was asked
  -- for: the end of the stream makes it return what there is, an error makes it return -1 and drop
  -- what it has read, and with neither it waits.
  pub readn-Short :
      (n : ℕ) (w : List Answer) (log : Log)
      → Fits n w
      → length (arriving w) < n
      → Short (readn fd n w log) (arriving w) (ending w)
  unfolding readn
  readn-Short n w log f h = readn_loop-Short w n [] log f h
