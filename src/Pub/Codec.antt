-- ===== src/Pub/Codec.antt =====
-- `strencode` and `strdecode`: the round trip, and the room that the encoding takes.
use unix_net.Common.{
  ℕ, ◌+◌, ◌*◌, ◌/◌, ◌%◌, ◌≤◌, ◌<◌, ◌≡◌, refl, ap, ◌∙◌, true, false, ◌&&◌, [], ◌∷◌, ◌++◌, arith,
  Bytes, All, ◌==◌, ltb, tests, Bool-cases, inl, inr, length,
}
use unix_net.CString.{is_xdigit, is_alnum, hex_digit, mem}
use unix_net.Pub.{hexit, strdecode, kept, percent, strencode_loop, strencode}

hex_digit-is_xdigit : (d : ℕ) → d < 16 → is_xdigit (hex_digit d) ≡ true
unfolding hex_digit is_xdigit
hex_digit-is_xdigit d h = ground arith

-- `hexit` undoes a digit of `%x`.
hexit-hex_digit : (d : ℕ) → d < 16 → hexit (hex_digit d) ≡ d
unfolding hex_digit hexit
hexit-hex_digit d h = ground arith

strdecode-percent : (c : ℕ) (s : Bytes) → c < 256 → strdecode (percent c ++ s) ≡ c ∷ strdecode s
unfolding strdecode percent
strdecode-percent c s h =
    let hi : c % 256 / 16 < 16 = omega arith in
    let lo : c % 16 < 16 = omega arith in
    rw
      (
        hex_digit-is_xdigit _ hi,
        hex_digit-is_xdigit _ lo,
        hexit-hex_digit _ hi,
        hexit-hex_digit _ lo,
      )
      (ap (λ d. d ∷ strdecode s) (omega arith))

strdecode_cons : (c : ℕ) (s : Bytes) → (c == b'%') ≡ false → strdecode (c ∷ s) ≡ c ∷ strdecode s
unfolding strdecode
strdecode_cons c [] h = refl
strdecode_cons c (a ∷ []) h = refl
strdecode_cons c (a ∷ b ∷ s) h = rw h

kept_ne_percent : (c : ℕ) → kept c ≡ true → (c == b'%') ≡ false
unfolding kept is_alnum mem
kept_ne_percent c h = ground arith

roundtrip_loop :
    (tosize tolen : ℕ) (s : Bytes)
    → All (λ c. c < 256) s
    → tolen + 3 * length s + 1 < tosize
    → strdecode (strencode_loop tosize tolen s) ≡ s
unfolding strencode_loop
roundtrip_loop tosize tolen [] h room = unfold strdecode in refl
roundtrip_loop tosize tolen (c ∷ s) h room =
    let fits : ltb (tolen + 4) tosize ≡ true = ground arith in
    rw fits (elim (Bool-cases (kept c)) [
      | inl p ↦ rw p (
          strdecode_cons c _ (kept_ne_percent c p)
          ∙ ap (◌∷◌ c) (roundtrip_loop tosize (tolen + 1) s h.1 (omega arith)))
      | inr p ↦ rw p (
          strdecode-percent c _ h.0
          ∙ ap (◌∷◌ c) (roundtrip_loop tosize (tolen + 3) s h.1 (omega arith)))
    ])

-- What `strencode` writes for a name of bytes, into a buffer with room for three bytes for each
-- and two more, `strdecode` reads back as the name.
pub strdecode-strencode :
    (tosize : ℕ) (s : Bytes)
    → All (λ c. c < 256) s
    → 3 * length s + 1 < tosize
    → strdecode (strencode tosize s) ≡ s
unfolding strencode
strdecode-strencode tosize s h room = roundtrip_loop tosize 0 s h (omega arith)

strencode_loop-lt :
    (tosize tolen : ℕ) (s : Bytes)
    → tolen < tosize
    → tolen + length (strencode_loop tosize tolen s) < tosize
unfolding strencode_loop percent
strencode_loop-lt tosize tolen [] h = omega arith
strencode_loop-lt tosize tolen (c ∷ s) h = elim (Bool-cases (ltb (tolen + 4) tosize)) [
  | inr full ↦ rw full (omega arith)
  | inl fits ↦ rw fits (elim (Bool-cases (kept c)) [
    | inl p ↦ rw p (omega (tests, strencode_loop-lt tosize (tolen + 1) s (omega (tests, fits))))
    | inr p ↦ rw p (omega (tests, strencode_loop-lt tosize (tolen + 3) s (omega (tests, fits))))
  ])
]

-- `strdecode` writes no more than it has read.
length-strdecode : (s : Bytes) → length (strdecode s) ≤ length s
unfolding strdecode
length-strdecode [] = omega arith
length-strdecode (c ∷ []) = omega arith
length-strdecode (c ∷ a ∷ []) = omega arith
length-strdecode (c ∷ a ∷ b ∷ s) = elim (Bool-cases (c == b'%' && (is_xdigit a && is_xdigit b))) [
  | inl p ↦ rw p (omega (arith, length-strdecode s))
  | inr p ↦ rw p (omega (arith, length-strdecode (a ∷ b ∷ s)))
]

-- Neither coder overruns its buffer: `strencode`, with the final zero, stays within any size but
-- 0, and `strdecode` needs no more room than its input.
pub coded_lengths :
    (tosize : ℕ) (s : Bytes)
    → 0 < tosize
    → (length (strencode tosize s) + 1 ≤ tosize) × (length (strdecode s) ≤ length s)
unfolding strencode
coded_lengths tosize s h = (omega (arith, strencode_loop-lt tosize 0 s h), length-strdecode s)
