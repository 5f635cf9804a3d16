-- ===== src/Pub/Line.antt =====
-- The lines that `get_line` reads.
use unix_net.Common.{
  ℕ, zero, suc, ◌+◌, ◌-◌, ◌<◌, ◌≡◌, ap, ◌∙◌, Bool, true, false, ◌&&◌, [], ◌∷◌, ◌++◌, arith, Bytes,
  All, not, ◌==◌, length, ◌≢◌, append-nil,
}
use unix_net.Pub.{get_line_loop, get_line}

-- Neither a carriage return nor a newline.
abbrev pub ordinary : ℕ → Bool
ordinary c = not (c == b'\r') && not (c == b'\n')

abbrev pub IsText : Bytes → Type 0
IsText text = All (λ c. ordinary c ≡ true) text

-- The loop copies text, and goes on with the rounds that are left.
get_line_text :
    (total rounds : ℕ) (text input : Bytes)
    → IsText text
    → total ≡ length text + rounds
    → get_line_loop total (text ++ input)
      ≡ (text ++ (get_line_loop rounds input).0, (get_line_loop rounds input).1)
unfolding get_line_loop
get_line_text total rounds [] input h e = rw (same e)
  where
    same : total ≡ 0 + rounds → total ≡ rounds
    same e = omega arith
get_line_text zero rounds (c ∷ text) input h e = absurd (omega arith)
get_line_text (suc total) rounds (c ∷ text) input h e =
    let cr : (c == b'\r') ≡ false = ground (arith, h.0) in
    let lf : (c == b'\n') ≡ false = ground (arith, h.0) in
    rw (cr, lf)
      (ap (λ (r : Bytes × Bytes). (c ∷ r.0, r.1))
        (get_line_text total rounds text input h.1 (omega arith)))

-- A line of text that fits into the buffer is stored with one newline at its end, whether it ends
-- in CR LF, in LF or in CR before another byte or the end, and the input goes on behind the whole terminator; with no terminator
-- the end of the input ends it, and nothing is added.
pub get_line_ends :
    (size : ℕ) (text : Bytes) (d : ℕ) (rest : Bytes)
    → IsText text
    → length text + 1 < size
    → d ≢ b'\n'
    → (get_line size (text ++ (b'\r' ∷ b'\n' ∷ rest)) ≡ (text ++ b'\n' ∷ [], rest))
      × (get_line size (text ++ (b'\n' ∷ rest)) ≡ (text ++ b'\n' ∷ [], rest))
      × (get_line size (text ++ (b'\r' ∷ d ∷ rest)) ≡ (text ++ b'\n' ∷ [], d ∷ rest))
      × (get_line size (text ++ b'\r' ∷ []) ≡ (text ++ b'\n' ∷ [], []))
      × (get_line size text ≡ (text, []))
unfolding get_line get_line_loop
get_line_ends size text d rest h room ne = (
  copied (b'\r' ∷ b'\n' ∷ rest),
  copied (b'\n' ∷ rest),
  copied (b'\r' ∷ d ∷ rest) ∙ (let p : (d == b'\n') ≡ false = ground (arith, ne) in rw p),
  copied (b'\r' ∷ []),
  (rw append-nil at (copied [])),
)
  where
    copied :
        (input : Bytes)
        → get_line_loop (size - 1) (text ++ input) ≡ (
          text ++ (get_line_loop (suc (size - 2 - length text)) input).0,
          (get_line_loop (suc (size - 2 - length text)) input).1,
        )
    copied input =
        get_line_text (size - 1) (suc (size - 2 - length text)) text input h (omega arith)

-- Text that does not fit is cut at `size - 1` bytes, and the rest of it stays in the input.
pub get_line_full :
    (size : ℕ) (text rest : Bytes)
    → IsText text
    → length text ≡ size - 1
    → get_line size (text ++ rest) ≡ (text, rest)
unfolding get_line get_line_loop
get_line_full size text rest h full =
    get_line_text (size - 1) 0 text rest h (omega arith) ∙ rw append-nil
