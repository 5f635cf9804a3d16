-- ===== src/Pub/Coded.antt =====
-- The bytes that `strencode` writes.
use unix_net.Common.{
  ℕ, ◌+◌, ◌%◌, ◌/◌, ◌≤◌, ◌<◌, ◌≡◌, true, [], ◌∷◌, Bytes, arith, All, ltb, Bool-cases, inl, inr,
}
use unix_net.CString.{is_alnum, hex_digit, mem}
use unix_net.Pub.{kept, percent, strencode_loop, strencode}

-- A visible character of ASCII: no blank, no control and no byte above.
abbrev pub IsVisible : ℕ → Type 0
IsVisible c = (33 ≤ c) × (c ≤ 126)

kept-IsVisible : (c : ℕ) → kept c ≡ true → IsVisible c
unfolding kept is_alnum mem
kept-IsVisible c h = (ground (arith, h), ground (arith, h))

hex_digit-IsVisible : (d : ℕ) → d < 16 → IsVisible (hex_digit d)
unfolding hex_digit
hex_digit-IsVisible d h = (ground (arith, h), ground (arith, h))

strencode_loop-IsVisible :
    (tosize tolen : ℕ) (s : Bytes) → All IsVisible (strencode_loop tosize tolen s)
unfolding strencode_loop percent
strencode_loop-IsVisible tosize tolen [] = tt
strencode_loop-IsVisible tosize tolen (c ∷ s) = elim (Bool-cases (ltb (tolen + 4) tosize)) [
  | inr full ↦ rw full tt
  | inl fits ↦ rw fits (elim (Bool-cases (kept c)) [
    | inl p ↦ rw p (kept-IsVisible c p, strencode_loop-IsVisible tosize (tolen + 1) s)
    | inr p ↦ rw p (
      (omega arith, omega arith),
      (
        hex_digit-IsVisible (c % 256 / 16) (omega arith),
        (hex_digit-IsVisible (c % 16) (omega arith), strencode_loop-IsVisible tosize (tolen + 3) s),
      ),
    )
  ])
]

-- Whatever it is given, `strencode` writes visible ASCII characters only, so that its result is
-- one word of a request line.
pub strencode-IsVisible : (tosize : ℕ) (s : Bytes) → All IsVisible (strencode tosize s)
unfolding strencode
strencode-IsVisible tosize s = strencode_loop-IsVisible tosize 0 s
