-- ===== src/Raw/Checksum.antt =====
-- `checksum` of udpMessage.c, over 16-bit words in the order of the host.
use unix_net.Common.{
  ℕ, zero, suc, ◌+◌, ◌-◌, ◌*◌, ◌/◌, ◌%◌, ◌^◌, ◌≤◌, ◌<◌, ◌≡◌, refl, ap, ◌∙◌, Bytes, List, [], ◌∷◌,
  ◌++◌, arith, ◌==◌, if◌then◌else◌, length, All,
}
use unix_net.ByteOrder.{Host, little, big, load16, store16}

-- The sum of `n` words from the front of the memory. A word that lies beyond the list reads zeros.
unfoldable pub sum_words : Host → ℕ → Bytes → ℕ
unfolding load16
sum_words host zero buf = 0
sum_words host (suc n) [] = 0
sum_words host (suc n) (a ∷ []) = load16 host a 0
sum_words host (suc n) (a ∷ b ∷ buf) = load16 host a b + sum_words host n buf

-- `sum = (sum >> 16) + (sum & 0xffff); sum += (sum >> 16);` in an unsigned long, and the low half
-- of what that leaves.
unfoldable pub fold_carries : ℕ → ℕ
fold_carries sum = let once = sum / 65536 + sum % 65536 in (once + once / 65536) % 65536

-- `return ~sum;` keeps the low 16 bits.
unfoldable pub checksum : Host → Bytes → ℕ → ℕ
unfolding sum_words fold_carries
checksum host buf len =
    let words = if len % 2 == 1 then len / 2 + 1 else len / 2 in
    65535 - fold_carries (sum_words host words buf)

-- A packet in words: a list of pairs of bytes.
abbrev pub Words : Type 0
Words = List (ℕ × ℕ)

abbrev pub flat : Words → Bytes
flat [] = []
flat ((a, b) ∷ ws) = a ∷ b ∷ flat ws

pub total : Host → Words → ℕ
total host [] = 0
total host ((a, b) ∷ ws) = load16 host a b + total host ws

total-append : (host : Host) (us vs : Words) → total host (us ++ vs) ≡ total host us + total host vs
unfolding total
total-append host [] vs = omega arith
total-append host ((a, b) ∷ us) vs = omega (arith, total-append host us vs)

sum_words-flat : (host : Host) (ws : Words) → sum_words host (length ws) (flat ws) ≡ total host ws
unfolding sum_words total
sum_words-flat host [] = refl
sum_words-flat host ((a, b) ∷ ws) = omega (arith, sum_words-flat host ws)

checksum-flat :
    (host : Host) (ws : Words)
    → checksum host (flat ws) (2 * length ws) ≡ 65535 - fold_carries (total host ws)
unfolding checksum
checksum-flat host ws =
    let count : (if 2 * length ws % 2 == 1 then 2 * length ws / 2 + 1 else 2 * length ws / 2)
        ≡ length ws =
      ground arith in
    rw (count, sum_words-flat) refl

-- Bytes, so that a word is below 2 ^ 16.
abbrev pub AreBytes : Words → Type 0
AreBytes ws = All (λ w. (w.0 < 256) × (w.1 < 256)) ws

total-le : (host : Host) (ws : Words) → AreBytes ws → total host ws ≤ 65535 * length ws
unfolding total load16
total-le host [] h = omega arith
total-le little ((a, b) ∷ ws) h = omega (arith, total-le little ws h.1)
total-le big ((a, b) ∷ ws) h = omega (arith, total-le big ws h.1)

fold-complement : (s : ℕ) → s + 65535 < 2 ^ 32 → fold_carries (s + (65535 - fold_carries s)) ≡ 65535
unfolding fold_carries
fold-complement s h = omega arith

-- The word that `store16` makes.
abbrev pub word : Host → ℕ → ℕ × ℕ
word little c = (c % 256, c / 256 % 256)
word big c = (c / 256 % 256, c % 256)

pub flat-word : (host : Host) (c : ℕ) → flat (word host c ∷ []) ≡ store16 host c
unfolding store16
flat-word little c = refl
flat-word big c = refl

total-word :
    (host : Host) (c : ℕ) (us vs : Words)
    → c < 65536
    → total host (us ++ (word host c ∷ vs)) ≡ total host (us ++ ((0, 0) ∷ vs)) + c
unfolding total load16
total-word little c us vs h =
    omega (arith, total-append little us (word little c ∷ vs), total-append little us ((0, 0) ∷ vs))
total-word big c us vs h =
    omega (arith, total-append big us (word big c ∷ vs), total-append big us ((0, 0) ∷ vs))

-- A packet whose check field held zero while `checksum` ran has checksum 0 once the result is
-- stored there: this is the test that a receiver makes. It holds on either host, wherever the
-- field stands at a whole word, for packets of less than 65536 words.
pub checksum_verifies :
    (host : Host) (us vs : Words)
    → AreBytes (us ++ ((0, 0) ∷ vs))
    → length (us ++ ((0, 0) ∷ vs)) < 65536
    → let c = checksum host (flat (us ++ ((0, 0) ∷ vs))) (2 * length (us ++ ((0, 0) ∷ vs))) in
      checksum host (flat (us ++ (word host c ∷ vs))) (2 * length (us ++ (word host c ∷ vs))) ≡ 0
checksum_verifies host us vs h len =
    let zeroed = us ++ ((0, 0) ∷ vs) in
    let c = 65535 - fold_carries (total host zeroed) in
    rw (checksum-flat host zeroed) (
      checksum-flat host (us ++ (word host c ∷ vs))
      ∙ omega (
        arith,
        ap fold_carries (total-word host c us vs (omega arith)),
        fold-complement (total host zeroed) (omega (arith, total-le host zeroed h)),
      ))
