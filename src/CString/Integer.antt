-- ===== src/CString/Integer.antt =====
-- `%d` with a sign: how `printf` writes an `int` and how `sscanf` and `atoi` read one.
use unix_net.Common.{
  ℕ, zero, suc, ◌+◌, ◌-◌, ◌^◌, ◌≡◌, refl, ap, ◌∙◌, Bool, true, false, ◌&&◌, ◌||◌, Option, none,
  some, [], ◌∷◌, ◌++◌, Bytes, ◌==◌, leb, ltb, if◌then◌else◌, arith,
}
use unix_net.CString.{is_digit, within}
use unix_net.CString.Decimal.{decimal, number_loop, number_decimal, IsNumber, decimal-IsNumber}

-- `negsuc n` is -(n + 1).
pub data ℤ : Type 0 where
  pos : ℕ → ℤ
  negsuc : ℕ → ℤ

abbrev pub pos_part : ℤ → ℕ
pos_part (pos n) = n
pos_part (negsuc n) = 0

abbrev pub neg_part : ℤ → ℕ
neg_part (pos n) = 0
neg_part (negsuc n) = suc n

-- a - b, as an integer.
abbrev pub sub_ℕ : ℕ → ℕ → ℤ
sub_ℕ a b = if leb b a then pos (a - b) else negsuc (b - a - 1)

infixl 65 ◌+ℤ◌ ◌-ℤ◌
unfoldable pub ◌+ℤ◌ : ℤ → ℤ → ℤ
a +ℤ b = sub_ℕ (pos_part a + pos_part b) (neg_part a + neg_part b)

unfoldable pub ◌-ℤ◌ : ℤ → ℤ → ℤ
a -ℤ b = sub_ℕ (pos_part a + neg_part b) (neg_part a + pos_part b)

-- Whether an `int` of 32 bits holds it.
abbrev pub is_int : ℤ → Bool
is_int a = ltb (pos_part a) (2 ^ 31) && leb (neg_part a) (2 ^ 31)

unfoldable pub decimal_ℤ : ℤ → Bytes
decimal_ℤ (pos n) = decimal n
decimal_ℤ (negsuc n) = b'-' ∷ decimal (suc n)

-- Leading white space, a sign, and then the digits, of which there is at least one.
abbrev pub is_blank : ℕ → Bool
is_blank c = c == b' ' || within 9 13 c

unfoldable pub skip_blanks : Bytes → Bytes
skip_blanks [] = []
skip_blanks (c ∷ s) = if is_blank c then skip_blanks s else c ∷ s

abbrev magnitude : Bytes → Option (ℕ × Bytes)
magnitude [] = none
magnitude (c ∷ s) = if is_digit c then some (number_loop 0 (c ∷ s)) else none

abbrev negated : ℕ → ℤ
negated zero = pos 0
negated (suc n) = negsuc n

abbrev plus : Option (ℕ × Bytes) → Option (ℤ × Bytes)
plus none = none
plus (some (n, rest)) = some (pos n, rest)

abbrev minus : Option (ℕ × Bytes) → Option (ℤ × Bytes)
minus none = none
minus (some (n, rest)) = some (negated n, rest)

abbrev signed : Bytes → Option (ℤ × Bytes)
signed [] = none
signed (c ∷ s) =
    if c == b'-'
    then minus (magnitude s)
    else if c == b'+'
    then plus (magnitude s)
    else plus (magnitude (c ∷ s))

-- The number, and what follows it.
unfoldable pub scan_int : Bytes → Option (ℤ × Bytes)
scan_int s = signed (skip_blanks s)

digit_sign :
    (c : ℕ)
    → is_digit c ≡ true
    → (is_blank c ≡ false) × ((c == b'-') ≡ false) × ((c == b'+') ≡ false)
unfolding is_digit
digit_sign c h = (ground arith, ground arith, ground arith)

magnitude-number : (t s : Bytes) → IsNumber t → magnitude (t ++ s) ≡ some (number_loop 0 (t ++ s))
magnitude-number [] s h = absurd h
magnitude-number (c ∷ t) s h = rw h.0

scan_int-number :
    (t s : Bytes) → IsNumber t → scan_int (t ++ s) ≡ plus (some (number_loop 0 (t ++ s)))
unfolding scan_int skip_blanks
scan_int-number [] s h = absurd h
scan_int-number (c ∷ t) s h =
    let (blank, dash, cross) = digit_sign c h.0 in rw (blank, dash, cross, h.0)

-- What follows a number does not go on with it.
abbrev pub IsBehind : Bytes → Type 0
IsBehind [] = Unit
IsBehind (c ∷ s) = is_digit c ≡ false

number_loop-behind : (n : ℕ) (s : Bytes) → IsBehind s → number_loop n s ≡ (n, s)
unfolding number_loop
number_loop-behind n [] h = refl
number_loop-behind n (c ∷ s) h = rw h

scan_int-dash : (s : Bytes) → scan_int (b'-' ∷ s) ≡ minus (magnitude s)
unfolding scan_int skip_blanks
scan_int-dash s = refl

-- Reading back what `%d` wrote.
pub scan_int-decimal_ℤ :
    (a : ℤ) (s : Bytes) → IsBehind s → scan_int (decimal_ℤ a ++ s) ≡ some (a, s)
unfolding decimal_ℤ
scan_int-decimal_ℤ (pos n) s h =
    scan_int-number (decimal n) s (decimal-IsNumber n)
    ∙ ap (λ r. plus (some r)) (number_decimal n s ∙ number_loop-behind n s h)
scan_int-decimal_ℤ (negsuc n) s h =
    scan_int-dash (decimal (suc n) ++ s)
    ∙ ap minus (
        magnitude-number (decimal (suc n)) s (decimal-IsNumber (suc n))
        ∙ ap some (number_decimal (suc n) s ∙ number_loop-behind (suc n) s h))
