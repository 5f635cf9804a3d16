-- ===== src/CString.antt =====
-- The functions of the C library that the programs use on text, in the C locale. A string is the
-- list of its bytes, without the terminating zero.

pub mod Decimal
pub mod Equal
pub mod Integer
use unix_net.Common.{
  ℕ, zero, suc, ◌+◌, ◌-◌, Bool, true, false, not, ◌&&◌, ◌||◌, Option, none, some, List, [], ◌∷◌,
  ◌++◌, Bytes, ◌==◌, leb, ltb, if◌then◌else◌, length,
}

-- `strcmp(a, b) == 0`
unfoldable pub equal : (s t : Bytes) → Bool
equal [] [] = true
equal [] (d ∷ t) = false
equal (c ∷ s) [] = false
equal (c ∷ s) (d ∷ t) = if c == d then equal s t else false

unfoldable pub mem : ℕ → Bytes → Bool
mem c [] = false
mem c (x ∷ xs) = x == c || mem c xs

abbrev or_else : Option Bytes → Option Bytes → Option Bytes
or_else none b = b
or_else (some a) b = some a

-- `strrchr(s, c)`: the text from the last `c` on.
unfoldable pub strrchr : ℕ → Bytes → Option Bytes
strrchr c [] = none
strrchr c (x ∷ xs) = or_else (strrchr c xs) (if x == c then some (x ∷ xs) else none)

abbrev pub within : ℕ → ℕ → ℕ → Bool
within lo hi c = leb lo c && leb c hi

unfoldable pub is_digit : ℕ → Bool
is_digit c = within b'0' b'9' c

unfoldable pub is_xdigit : ℕ → Bool
is_xdigit c = within b'0' b'9' c || within b'a' b'f' c || within b'A' b'F' c

unfoldable pub is_alnum : ℕ → Bool
is_alnum c = within b'0' b'9' c || within b'a' b'z' c || within b'A' b'Z' c

unfoldable pub to_upper : ℕ → ℕ
to_upper c = if within b'a' b'z' c then c - 32 else c

-- One hexadecimal digit of `%x`.
unfoldable pub hex_digit : ℕ → ℕ
hex_digit d = if ltb d 10 then b'0' + d else b'a' + (d - 10)

-- The text up to the first `c`, and what follows that `c`.
unfoldable pub break_at : ℕ → Bytes → Bytes × Bytes
break_at c [] = ([], [])
break_at c (x ∷ xs) =
    let (word, rest) = break_at c xs in if x == c then ([], xs) else (x ∷ word, rest)

unfoldable pub skip : ℕ → Bytes → Bytes
skip c [] = []
skip c (x ∷ xs) = if x == c then skip c xs else x ∷ xs

-- A call of `strtok` on the rest of a text: no token where only separators are left.
abbrev token_of : Bytes → Bytes → Option (Bytes × Bytes)
token_of c [] = none
token_of (c ∷ _) (x ∷ xs) = some (break_at c (x ∷ xs))
token_of [] s = none

unfoldable pub strtok : ℕ → Bytes → Option (Bytes × Bytes)
unfolding break_at skip
strtok c s = token_of (c ∷ []) (skip c s)

-- The text in memory: the bytes up to the first zero.
unfoldable pub until_zero : Bytes → Bytes
until_zero [] = []
until_zero (c ∷ s) = if c == 0 then [] else c ∷ until_zero s

-- Text that fills its array and holds no zero: to print it is to read past the end.
abbrev pub unterminated : ℕ → Bytes → Bool
unterminated size buf = (length buf == size) && not (mem 0 buf)
