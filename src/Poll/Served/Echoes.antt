-- ===== src/Poll/Served/Echoes.antt =====
-- What each client of PollDemo/pollDemo.c gets back.
use unix_net.Common.{
  ℕ, zero, suc, ◌+◌, ◌≡◌, sym, ap, ◌∙◌, append_assoc, append-nil, Bool, none, some, [], ◌∷◌, ◌++◌,
  Bytes, map, if◌then◌else◌, ◌==◌, Bool-cases, inl, inr,
}
use unix_net.Sys.{Log}
use unix_net.Sys.Trace.{written}
use unix_net.CString.{to_upper}
use unix_net.Poll.{Slots}
use unix_net.Poll.Served.{Conduct, sends, leaves, resets, calls_for, all_calls}

-- What a client sent, in capital letters.
abbrev pub echo : Conduct → Bytes
echo (sends b bs) = map to_upper (b ∷ bs)
echo _ = []

written-calls_for :
    (x fd : ℕ) (c : Conduct) (log : Log)
    → written x (calls_for fd c log) ≡ written x log ++ (if fd == x then echo c else [])
written-calls_for x fd (sends b bs) log =
    ap (λ t. t ++ (if fd == x then map to_upper (b ∷ bs) else [])) (append-nil (written x log))
written-calls_for x fd leaves log = elim (Bool-cases (fd == x)) [
  | inl p ↦ rw p (append-nil _)
  | inr p ↦ rw p (append-nil _)
]
written-calls_for x fd resets log = elim (Bool-cases (fd == x)) [
  | inl p ↦ rw p (append-nil _)
  | inr p ↦ rw p (append-nil _)
]

-- The texts of the ready ones among `n` slots from index `i` on that hold descriptor `x`.
module _ (revents : ℕ → Bool) (conduct : ℕ → Conduct) (x : ℕ) where
  abbrev pub slot_echo : ℕ → ℕ → Bytes
  slot_echo i fd = if revents i then (if fd == x then echo (conduct i) else []) else []

  abbrev pub slots_echo : ℕ → ℕ → Slots → Bytes
  slots_echo zero i slots = []
  slots_echo (suc n) i [] = []
  slots_echo (suc n) i (none ∷ slots) = slots_echo n (i + 1) slots
  slots_echo (suc n) i (some fd ∷ slots) = slot_echo i fd ++ slots_echo n (i + 1) slots

  written_slot :
      (i fd : ℕ) (log : Log)
      → written x (if revents i then calls_for fd (conduct i) log else log)
        ≡ written x log ++ slot_echo i fd
  written_slot i fd log = elim (Bool-cases (revents i)) [
    | inl p ↦ rw p (written-calls_for x fd (conduct i) log)
    | inr p ↦ rw p (sym (append-nil _))
  ]

  pub written-all_calls :
      (n i : ℕ) (slots : Slots) (log : Log)
      → written x (all_calls revents conduct n i slots log) ≡ written x log ++ slots_echo n i slots
  written-all_calls zero i slots log = sym (append-nil _)
  written-all_calls (suc n) i [] log = sym (append-nil _)
  written-all_calls (suc n) i (none ∷ slots) log = written-all_calls n (i + 1) slots log
  written-all_calls (suc n) i (some fd ∷ slots) log =
      written-all_calls n (i + 1) slots _
      ∙ ap (λ t. t ++ slots_echo n (i + 1) slots) (written_slot i fd log)
      ∙ append_assoc (written x log) (slot_echo i fd) (slots_echo n (i + 1) slots)
