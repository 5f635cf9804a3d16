-- ===== src/CString/Equal.antt =====
-- Comparison and search in strings.
use unix_net.Common.{ℕ, ◌≡◌, refl, ◌↔◌, true, false, none, some, [], ◌∷◌, ◌++◌, arith, Bytes}
use unix_net.CString.{equal, mem, strrchr}

-- `strcmp` gives 0 for the same text only.
pub equal_iff : (s t : Bytes) → (equal s t ≡ true) ↔ (s ≡ t)
unfolding equal
equal_iff [] [] = ground arith
equal_iff [] (d ∷ t) = ground arith
equal_iff (c ∷ s) [] = ground arith
equal_iff (c ∷ s) (d ∷ t) = ground (arith, equal_iff s t)

pub equal_refl : (a : Bytes) → equal a a ≡ true
equal_refl a = (equal_iff a a).1 refl

pub strrchr_absent : (c : ℕ) (s : Bytes) → mem c s ≡ false → strrchr c s ≡ none
unfolding strrchr mem
strrchr_absent c [] h = refl
strrchr_absent c (x ∷ xs) h = ground (arith, strrchr_absent c xs)

pub strrchr_last :
    (c : ℕ) (base ext : Bytes) → mem c ext ≡ false → strrchr c (base ++ (c ∷ ext)) ≡ some (c ∷ ext)
unfolding strrchr
strrchr_last c [] ext h = rw (strrchr_absent c ext h) (ground arith)
strrchr_last c (x ∷ base) ext h = rw (strrchr_last c base ext h)
