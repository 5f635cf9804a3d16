-- ===== src/Cgi/Answers.antt =====
-- The answers of post-cgi.c to requests that are well formed.
use unix_net.Common.{
  ℕ, suc, ◌<◌, ◌≤◌, length-append, ◌≡◌, refl, ap, ◌∙◌, true, false, some, List, [], ◌∷◌, ◌++◌,
  Bytes, codes, ◌==◌, lt→ltb, length, All, append-nil, arith, sym,
}
use unix_net.Sys.{Answer, Action, Log, ok}
use unix_net.CString.{is_digit, until_zero}
use unix_net.CString.Decimal.{decimal, IsNumber, decimal-IsNumber, length-decimal}
use unix_net.CString.Integer.{
  ℤ, pos, negsuc, ◌+ℤ◌, ◌-ℤ◌, is_int, decimal_ℤ, scan_int, scan_int-decimal_ℤ,
}
use unix_net.Cgi.{fgets, room_of, parse, calculate, handle, main}

-- Text with no newline and no zero in it.
abbrev pub IsPlain : Bytes → Type 0
IsPlain = All λ c. ((c == b'\n') ≡ false) × ((c == 0) ≡ false)

IsPlain-append : (s t : Bytes) → IsPlain s → IsPlain t → IsPlain (s ++ t)
IsPlain-append [] t h k = k
IsPlain-append (c ∷ s) t h k = (h.0, IsPlain-append s t h.1 k)

plain_digit : (c : ℕ) → is_digit c ≡ true → ((c == b'\n') ≡ false) × ((c == 0) ≡ false)
unfolding is_digit
plain_digit c h = (ground arith, ground arith)

IsPlain-digits : (s : Bytes) → All (λ c. is_digit c ≡ true) s → IsPlain s
IsPlain-digits [] h = tt
IsPlain-digits (c ∷ s) h = (plain_digit c h.0, IsPlain-digits s h.1)

IsPlain-number : (s : Bytes) → IsNumber s → IsPlain s
IsPlain-number [] h = tt
IsPlain-number (c ∷ s) h = (plain_digit c h.0, IsPlain-digits s h.1)

decimal_ℤ-IsPlain : (a : ℤ) → IsPlain (decimal_ℤ a)
unfolding decimal_ℤ
decimal_ℤ-IsPlain (pos n) = IsPlain-number (decimal n) (decimal-IsNumber n)
decimal_ℤ-IsPlain (negsuc n) =
    ((refl, refl), IsPlain-number (decimal (suc n)) (decimal-IsNumber (suc n)))

pub fgets-plain : (s more : Bytes) → IsPlain s → fgets (length s) (s ++ more) ≡ s
unfolding fgets
fgets-plain [] more h = refl
fgets-plain (c ∷ s) more h = rw h.0.0 (ap (◌∷◌ c) (fgets-plain s more h.1))

pub until_zero-plain : (s : Bytes) → IsPlain s → until_zero s ≡ s
unfolding until_zero
until_zero-plain [] h = refl
until_zero-plain (c ∷ s) h = rw h.0.1 (ap (◌∷◌ c) (until_zero-plain s h.1))

-- The body of a request.
abbrev pub body : ℤ → ℕ → ℤ → Bytes
body a op b = decimal_ℤ a ++ (op ∷ decimal_ℤ b)

pub room_of-decimal : (n : ℕ) → room_of (scan_int (decimal n)) ≡ n
unfolding decimal_ℤ
room_of-decimal n =
    ap (λ s. room_of (scan_int s)) (sym (append-nil (decimal n)))
    ∙ ap room_of (scan_int-decimal_ℤ (pos n) [] tt)

parse-body :
    (a : ℤ) (op : ℕ) (b : ℤ)
    → is_digit op ≡ false
    → parse (body a op b) ≡ record { data1 = a; ch = op; data2 = b }
unfolding parse
parse-body a op b h =
    let whole : scan_int (decimal_ℤ b) ≡ some (b, []) =
      ap scan_int (sym (append-nil (decimal_ℤ b))) ∙ scan_int-decimal_ℤ b [] tt in
    rw (scan_int-decimal_ℤ a (op ∷ decimal_ℤ b) h, whole)

handle-body :
    (a : ℤ) (op : ℕ) (b : ℤ) (more : Bytes) (w : List Answer) (log : Log)
    → is_digit op ≡ false
    → ((op == b'\n') ≡ false) × ((op == 0) ≡ false)
    → length (body a op b) < 512
    → handle (some (decimal (length (body a op b)))) (body a op b ++ more) w log
      ≡ calculate (record { data1 = a; ch = op; data2 = b }) w log
handle-body a op b more w log h plain fits =
    let all : IsPlain (body a op b) =
      IsPlain-append (decimal_ℤ a) (op ∷ decimal_ℤ b) (decimal_ℤ-IsPlain a)
        (plain, decimal_ℤ-IsPlain b) in
    rw (
      room_of-decimal (length (body a op b)),
      fgets-plain (body a op b) more all,
      lt→ltb (length (body a op b)) 512 fits,
      until_zero-plain (body a op b) all,
      parse-body a op b h,
    )

length-decimal_ℤ : (a : ℤ) → is_int a ≡ true → length (decimal_ℤ a) ≤ 11
unfolding decimal_ℤ
length-decimal_ℤ (pos n) h = omega (arith, length-decimal 9 n (ground (arith, h)))
length-decimal_ℤ (negsuc n) h = omega (arith, length-decimal 9 (suc n) (ground (arith, h)))

body_fits :
    (a : ℤ) (op : ℕ) (b : ℤ) → is_int a ≡ true → is_int b ≡ true → length (body a op b) < 512
body_fits a op b h k = omega (
  arith,
  length-append (decimal_ℤ a) (op ∷ decimal_ℤ b),
  length-decimal_ℤ a h,
  length-decimal_ℤ b k,
)

-- The header and the number that a request is answered with.
abbrev pub answered : ℤ → Log → Log
answered r log =
    Action.print (decimal_ℤ r ++ codes "\n")
    ∷ Action.print (codes "Content-Type:text/html\n\n")
    ∷ log

-- For two numbers that fit an `int`, negative ones included, a body of the two with + or - between
-- them and its length in CONTENT_LENGTH are answered with the sum or the difference, if that fits
-- an `int` too. Nothing behind the body is read.
pub main-body :
    (a b : ℤ) (more : Bytes) (w : List Answer) (log : Log)
    → is_int a ≡ true
    → is_int b ≡ true
    → is_int (a +ℤ b) ≡ true
    → is_int (a -ℤ b) ≡ true
    → (main (some (decimal (length (body a b'+' b)))) (body a b'+' b ++ more) w log
        ≡ ok tt w (answered (a +ℤ b) log))
      × (main (some (decimal (length (body a b'-' b)))) (body a b'-' b ++ more) w log
          ≡ ok tt w (answered (a -ℤ b) log))
unfolding main calculate is_digit
main-body a b more w log ha hb sum difference = (
  handle-body a b'+' b more w _ refl (refl, refl) (body_fits a b'+' b ha hb)
      ∙ rw (ha, hb, sum) refl,
  handle-body a b'-' b more w _ refl (refl, refl) (body_fits a b'-' b ha hb)
      ∙ rw (ha, hb, difference) refl,
)
