-- ===== src/Select/Echoes.antt =====
-- What each client of TcpServerDemo/selectFun.c gets back.
use unix_net.Common.{
  ℕ, zero, suc, ◌+◌, ◌≡◌, refl, sym, ap, ◌∙◌, append_assoc, append-nil, true, false, ◌&&◌, [], ◌∷◌,
  ◌++◌, Bytes, arith, if◌then◌else◌, leb, ltb, ◌==◌, Bool-cases, inl, inr,
}
use unix_net.Sys.{Log}
use unix_net.Sys.Trace.{written}
use unix_net.Select.{FdSet}
use unix_net.Select.Served.{Conduct, sends, leaves, breaks, calls_for, all_calls}

-- What a client sent.
abbrev pub echo : Conduct → Bytes
echo (sends b bs) = b ∷ bs
echo _ = []

written-calls_for :
    (x fd : ℕ) (c : Conduct) (log : Log)
    → written x (calls_for fd c log) ≡ written x log ++ (if fd == x then echo c else [])
written-calls_for x fd (sends b bs) log =
    ap (λ t. t ++ (if fd == x then b ∷ bs else [])) (append-nil (written x log))
written-calls_for x fd leaves log = elim (Bool-cases (fd == x)) [
  | inl p ↦ rw p (append-nil _)
  | inr p ↦ rw p (append-nil _)
]
written-calls_for x fd (breaks e) log = elim (Bool-cases (fd == x)) [
  | inl p ↦ rw p (append-nil _)
  | inr p ↦ rw p (append-nil _)
]

module _ (rest : FdSet) (conduct : ℕ → Conduct) (x : ℕ) where
  -- What descriptor `x` is to get in a loop over `n` descriptors from `i` on.
  abbrev pub range_echo : ℕ → ℕ → Bytes
  range_echo n i = if rest x && (leb i x && ltb x (i + n)) then echo (conduct x) else []

  abbrev one_echo : ℕ → Bytes
  one_echo i = if rest i then (if i == x then echo (conduct i) else []) else []

  range_echo-suc : (n i : ℕ) → one_echo i ++ range_echo n (i + 1) ≡ range_echo (suc n) i
  range_echo-suc n i = elim (Bool-cases (i == x)) [
    | inl p ↦
        let same : i ≡ x = ground (arith, p) in
        let begins : (leb x x && ltb x (x + suc n)) ≡ true = ground arith in
        let behind : leb (x + 1) x ≡ false = ground arith in
        let here : (x == x) ≡ true = ground arith in
        rw same (elim (Bool-cases (rest x)) [
          | inl r ↦ rw (r, here, begins, behind) (append-nil _)
          | inr r ↦ rw r refl
        ])
    | inr p ↦
        let e : (leb (i + 1) x && ltb x (i + 1 + n)) ≡ (leb i x && ltb x (i + suc n)) =
          ground (arith, p) in
        elim (Bool-cases (rest i)) [ inl r ↦ rw (r, p, e) refl | inr r ↦ rw (r, e) refl ]
  ]

  written_one :
      (i : ℕ) (log : Log)
      → written x (if rest i then calls_for i (conduct i) log else log)
        ≡ written x log ++ one_echo i
  written_one i log = elim (Bool-cases (rest i)) [
    | inl p ↦ rw p (written-calls_for x i (conduct i) log)
    | inr p ↦ rw p (sym (append-nil _))
  ]

  pub written-all_calls :
      (n i : ℕ) (log : Log)
      → written x (all_calls rest conduct n i log) ≡ written x log ++ range_echo n i
  written-all_calls zero i log =
      let e : (leb i x && ltb x (i + 0)) ≡ false = ground arith in
      elim (Bool-cases (rest x)) [
        | inl r ↦ rw (r, e) (sym (append-nil _))
        | inr r ↦ rw r (sym (append-nil _))
      ]
  written-all_calls (suc n) i log =
      written-all_calls n (i + 1) _
      ∙ ap (λ t. t ++ range_echo n (i + 1)) (written_one i log)
      ∙ append_assoc (written x log) (one_echo i) (range_echo n (i + 1))
      ∙ ap (◌++◌ (written x log)) (range_echo-suc n i)
