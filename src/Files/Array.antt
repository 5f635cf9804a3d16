-- ===== src/Files/Array.antt =====
-- Arrays that were zeroed before something was written into them, and the string in them.
use unix_net.Common.{
  ℕ, zero, suc, ◌-◌, ◌≤◌, ◌<◌, ◌≡◌, refl, sym, ap, ◌∙◌, true, false, [], ◌∷◌, ◌++◌, Bytes, arith,
  All, length, length-append, length-take, take-length-append, replicate, take, ◌==◌,
}
use unix_net.CString.{mem, until_zero, unterminated}
use unix_net.Files.{overlay, window}

pub overlay_zeros :
    (bs : Bytes) (n : ℕ)
    → length bs ≤ n
    → overlay bs (replicate n 0) ≡ bs ++ replicate (n - length bs) 0
overlay_zeros [] n h = let e : n ≡ n - 0 = omega arith in ap (λ k. replicate k 0) e
overlay_zeros (b ∷ bs) zero h = absurd (omega arith)
overlay_zeros (b ∷ bs) (suc n) h = ap (◌∷◌ b) (overlay_zeros bs n (omega arith) ∙ same)
  where
    same : bs ++ replicate (n - length bs) 0 ≡ bs ++ replicate (suc n - suc (length bs)) 0
    same =
        let e : n - length bs ≡ suc n - suc (length bs) = omega arith in
        ap (λ k. bs ++ replicate k 0) e

abbrev pub NoZero : Bytes → Type 0
NoZero = All λ b. (b == 0) ≡ false

pub until_zero_all : (bs : Bytes) (n : ℕ) → NoZero bs → until_zero (bs ++ replicate n 0) ≡ bs
unfolding until_zero
until_zero_all [] zero h = refl
until_zero_all [] (suc n) h = refl
until_zero_all (b ∷ bs) n h = rw h.0 (ap (◌∷◌ b) (until_zero_all bs n h.1))

pub mem_zeros : (bs : Bytes) (n : ℕ) → 0 < n → mem 0 (bs ++ replicate n 0) ≡ true
unfolding mem
mem_zeros [] zero h = absurd (omega arith)
mem_zeros [] (suc n) h = refl
mem_zeros (b ∷ bs) n h = rw (mem_zeros bs n h) (ground arith)

module _ {ℓ} {A : Type ℓ} where
  pub length-replicate : (n : ℕ) (a : A) → length (replicate n a) ≡ n
  length-replicate zero a = refl
  length-replicate (suc n) a = ap suc (length-replicate n a)

  take-replicate : (m n : ℕ) (a : A) → n ≤ m → take n (replicate m a) ≡ replicate n a
  take-replicate m zero a h = refl
  take-replicate zero (suc n) a h = absurd (omega (arith, h))
  take-replicate (suc m) (suc n) a h = ap (◌∷◌ a) (take-replicate m n a (omega (arith, h)))

pub length-window : (n : ℕ) (bs : Bytes) → length (window n bs) ≡ n
length-window n bs = omega (
  arith,
  length-take n (bs ++ replicate n 0),
  length-append bs (replicate n 0),
  length-replicate {A = ℕ} n 0,
)

take-zeros :
    (bs : Bytes) (m n : ℕ)
    → length bs ≤ n
    → n ≤ m
    → take n (bs ++ replicate m 0) ≡ bs ++ replicate (n - length bs) 0
take-zeros [] m n h k =
    let e : n ≡ n - 0 = omega arith in take-replicate {A = ℕ} m n 0 k ∙ ap (λ i. replicate i 0) e
take-zeros (b ∷ bs) m zero h k = absurd (omega (arith, h))
take-zeros (b ∷ bs) m (suc n) h k =
    let e : n - length bs ≡ suc n - suc (length bs) = omega arith in
    ap (◌∷◌ b)
      (take-zeros bs m n (omega (arith, h)) (omega (arith, k)) ∙ ap (λ i. bs ++ replicate i 0) e)

-- A text that leaves room for a zero is the string in the array.
pub window-text :
    (n : ℕ) (bs : Bytes)
    → length bs < n
    → NoZero bs
    → (unterminated n (window n bs) ≡ false) × (until_zero (window n bs) ≡ bs)
window-text n bs h nz =
    let e = take-zeros bs n n (omega (arith, h)) (omega arith) in
    let found : mem 0 (window n bs) ≡ true =
      ap (mem 0) e ∙ mem_zeros bs (n - length bs) (omega (arith, h)) in
    (rw found (ground arith), ap until_zero e ∙ until_zero_all bs (n - length bs) nz)

-- An array is unchanged by a copy of itself.
pub window_again : (n : ℕ) (bs : Bytes) → window n (window n bs) ≡ window n bs
window_again n bs =
    ap (λ k. take k (window n bs ++ replicate n 0)) (sym (length-window n bs))
    ∙ take-length-append (window n bs) (replicate n 0)

-- What fills the array replaces all of it.
pub overlay_full : (bs buf : Bytes) → length buf ≡ length bs → overlay bs buf ≡ bs
overlay_full [] [] h = refl
overlay_full [] (c ∷ buf) h = absurd (omega (arith, h))
overlay_full (b ∷ bs) [] h = absurd (omega (arith, h))
overlay_full (b ∷ bs) (c ∷ buf) h = ap (◌∷◌ b) (overlay_full bs buf (omega (arith, h)))
