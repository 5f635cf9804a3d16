-- ===== src/EventWeb/Scan.antt =====
-- The request line under `sscanf`, and the zeroed array that a read fills.
use unix_net.Common.{
  ℕ, ◌-◌, ◌≤◌, ◌<◌, ◌≡◌, refl, ap, ◌∙◌, Bool, true, false, Option, none, some, List, [], ◌∷◌, ◌++◌,
  Bytes, arith, All, length, length-append, replicate, leb, tests,
}
use unix_net.CString.{mem, until_zero}
use unix_net.Files.{overlay}
use unix_net.Files.Array.{NoZero, overlay_zeros, until_zero_all, mem_zeros}
use unix_net.EventWeb.{Field, span, skip_space, scan, scan_word}

-- A text that fits into the array is the string in it.
pub buffer_text :
    (bs : Bytes)
    → length bs < 256
    → NoZero bs
    → (mem 0 (overlay bs (replicate 256 0)) ≡ true)
      × (until_zero (overlay bs (replicate 256 0)) ≡ bs)
buffer_text bs h nz =
    let e = overlay_zeros bs 256 (omega arith) in
    (
      ap (mem 0) e ∙ mem_zeros bs (256 - length bs) (omega arith),
      ap until_zero e ∙ until_zero_all bs (256 - length bs) nz,
    )

span_word :
    (stop : ℕ → Bool) (word : Bytes) (c : ℕ) (rest : Bytes)
    → All (λ b. stop b ≡ false) word
    → stop c ≡ true
    → span stop (word ++ (c ∷ rest)) ≡ (word, c ∷ rest)
unfolding span
span_word stop [] c rest h e = rw e refl
span_word stop (b ∷ word) c rest h e = rw (h.0, span_word stop word c rest h.1 e) refl

-- A field takes a word that ends before its array does, and the rest is scanned for the others.
pub scan_field :
    (f : Field) (fields : List Field) (b : ℕ) (word : Bytes) (c : ℕ) (rest : Bytes)
    → All (λ x. f.stop x ≡ false) (b ∷ word)
    → f.stop c ≡ true
    → length (b ∷ word) < f.size
    → (texts : List Bytes) → scan fields (skip_space (c ∷ rest)) ≡ some texts
    → scan (f ∷ fields) (b ∷ (word ++ (c ∷ rest))) ≡ some ((b ∷ word) ∷ texts)
unfolding scan
scan_field f fields b word c rest h e fits texts more =
    let fit : leb f.size (length (b ∷ word)) ≡ false = ground arith in
    rw (span_word f.stop (b ∷ word) c rest h e, more, fit) refl

span_long :
    (stop : ℕ → Bool) (word rest : Bytes)
    → All (λ b. stop b ≡ false) word
    → (more : Bytes) × ((span stop (word ++ rest)).0 ≡ word ++ more)
unfolding span
span_long stop [] rest h = ((span stop rest).0, refl)
span_long stop (b ∷ word) rest h =
    let (more, e) = span_long stop word rest h.1 in (more, rw h.0 (ap (◌∷◌ b) e))

-- A word as long as the array of its field runs over it.
pub scan_overflow :
    (f : Field) (fields : List Field) (word rest : Bytes)
    → All (λ x. f.stop x ≡ false) word
    → 0 < length word
    → f.size ≤ length word
    → scan (f ∷ fields) (word ++ rest) ≡ none
unfolding scan
scan_overflow f fields [] rest h pos long = absurd (omega arith)
scan_overflow f fields (b ∷ word) rest h pos long =
    let (more, e) = span_long f.stop (b ∷ word) rest h in
    rw e (over more (scan fields (skip_space (span f.stop ((b ∷ word) ++ rest)).1)))
  where
    over :
        (more : Bytes) (o : Option (List Bytes))
        → scan_word f.size fields (b ∷ (word ++ more)) o ≡ none
    over more none = refl
    over more (some texts) =
        let e : leb f.size (length (b ∷ (word ++ more))) ≡ true =
          grind (tests, length-append word more) in
        rw e refl
