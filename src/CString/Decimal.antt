-- ===== src/CString/Decimal.antt =====
-- `%d` of a number that is not negative, and `%02x` of a byte.
use unix_net.Common.{
  ℕ, zero, suc, ◌+◌, ◌-◌, ◌*◌, ◌/◌, ◌%◌, ◌<◌, ◌≡◌, ap, ◌∙◌, Bytes, [], ◌∷◌, ◌++◌, arith, ltb,
  ltb→lt, if◌then◌else◌, length, length-append, ◌≤◌, append_assoc, All, Bool-cases, true, inl, inr,
}
use unix_net.CString.{is_digit, hex_digit}

-- The digits, most significant first; `fuel` bounds their number.
digits_within : ℕ → ℕ → Bytes
digits_within zero n = []
digits_within (suc fuel) n =
    let rest = digits_within fuel (n / 10) in
    if ltb n 10 then (b'0' + n) ∷ [] else rest ++ (b'0' + n % 10) ∷ []

unfoldable pub decimal : ℕ → Bytes
unfolding digits_within
decimal n = digits_within (suc n) n

unfoldable pub hex2 : ℕ → Bytes
unfolding hex_digit
hex2 b = hex_digit (b / 16 % 16) ∷ hex_digit (b % 16) ∷ []

-- The number that a run of digits stands for, read from the left, and what follows the digits.
unfoldable pub number_loop : ℕ → Bytes → ℕ × Bytes
number_loop acc [] = (acc, [])
number_loop acc (c ∷ s) =
    let rest = number_loop (10 * acc + (c - b'0')) s in if is_digit c then rest else (acc, c ∷ s)

digit_test : (d : ℕ) → d < 10 → is_digit (b'0' + d) ≡ true
unfolding is_digit
digit_test d h = ground arith

digits_within-number :
    (fuel n : ℕ) (s : Bytes)
    → n < fuel
    → number_loop 0 (digits_within fuel n ++ s) ≡ number_loop n s
unfolding digits_within number_loop
digits_within-number zero n s h = elim h [ ]
digits_within-number (suc fuel) n s h = elim (Bool-cases (ltb n 10)) [
  | inl p ↦
      let digit : is_digit (b'0' + n) ≡ true = digit_test n (ltb→lt n 10 p) in
      rw (p, digit) (ap (λ k. number_loop k s) (omega arith))
  | inr p ↦
      let digit : is_digit (b'0' + n % 10) ≡ true = digit_test (n % 10) (omega arith) in
      rw (p, append_assoc (digits_within fuel (n / 10)) ((b'0' + n % 10) ∷ []) s)
        (digits_within-number fuel (n / 10) ((b'0' + n % 10) ∷ s) (ground arith)
          ∙ rw digit (ap (λ k. number_loop k s) (omega arith)))
]

-- Reading back what `%d` printed.
pub number_decimal : (n : ℕ) (s : Bytes) → number_loop 0 (decimal n ++ s) ≡ number_loop n s
unfolding decimal
number_decimal n s = digits_within-number (suc n) n s (omega arith)

-- A text of digits, with at least one.
abbrev pub IsNumber : Bytes → Type 0
IsNumber [] = ⊥
IsNumber (c ∷ s) = (is_digit c ≡ true) × All (λ d. is_digit d ≡ true) s

IsNumber-append : (s : Bytes) (d : ℕ) → IsNumber s → is_digit d ≡ true → IsNumber (s ++ (d ∷ []))
IsNumber-append [] d h k = absurd h
IsNumber-append (c ∷ s) d h k = (h.0, all s h.1)
  where
    all :
        (s : Bytes) → All (λ d. is_digit d ≡ true) s → All (λ d. is_digit d ≡ true) (s ++ (d ∷ []))
    all [] h = (k, tt)
    all (c ∷ s) h = (h.0, all s h.1)

digits_within-IsNumber : (fuel n : ℕ) → n < fuel → IsNumber (digits_within fuel n)
unfolding digits_within
digits_within-IsNumber zero n h = absurd (omega (arith, h))
digits_within-IsNumber (suc fuel) n h = elim (Bool-cases (ltb n 10)) [
  | inl p ↦ rw p (digit_test n (ltb→lt n 10 p), tt)
  | inr p ↦ rw p (
      IsNumber-append (digits_within fuel (n / 10)) (b'0' + n % 10)
        (digits_within-IsNumber fuel (n / 10) (ground arith)) (digit_test (n % 10) (omega arith)))
]

pub decimal-IsNumber : (n : ℕ) → IsNumber (decimal n)
unfolding decimal
decimal-IsNumber n = digits_within-IsNumber (suc n) n (omega arith)

-- How many digits a number has.
abbrev pub tens : ℕ → ℕ
tens zero = 1
tens (suc k) = 10 * tens k

length-digits_within : (fuel k n : ℕ) → n < tens (suc k) → length (digits_within fuel n) ≤ suc k
unfolding digits_within
length-digits_within zero k n h = omega arith
length-digits_within (suc fuel) zero n h =
    let small : ltb n 10 ≡ true = ground (arith, h) in rw small (omega arith)
length-digits_within (suc fuel) (suc k) n h = elim (Bool-cases (ltb n 10)) [
  | inl p ↦ rw p (omega arith)
  | inr p ↦ rw p (
      omega (
        arith,
        length-append (digits_within fuel (n / 10)) ((b'0' + n % 10) ∷ []),
        length-digits_within fuel k (n / 10) (omega (arith, h)),
      ))
]

pub length-decimal : (k n : ℕ) → n < tens (suc k) → length (decimal n) ≤ suc k
unfolding decimal
length-decimal k n h = length-digits_within (suc n) k n h
