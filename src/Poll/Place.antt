-- ===== src/Poll/Place.antt =====
-- The search for a free slot in PollDemo/pollDemo.c.
use unix_net.Common.{
  ℕ, zero, suc, ◌+◌, ◌≤◌, ◌<◌, ◌≢◌, ◌≡◌, refl, ap, Option, none, some, [], ◌∷◌, arith, length,
  get_elem?, drop, All,
}
use unix_net.Poll.{Slots, place}
use unix_net.Poll.Calls.{held, count}

abbrev pub Free : Option ℕ → Type 0
Free none = Unit
Free (some fd) = ⊥

-- What was free from an index on is still free.
abbrev pub Keeps : Slots → Slots → Type 0
Keeps before after = (m : ℕ) → All Free (drop m before) → All Free (drop m after)

pub Keeps-cons :
    (s s' : Option ℕ) (before after : Slots)
    → (Free s → Free s')
    → Keeps before after
    → Keeps (s ∷ before) (s' ∷ after)
Keeps-cons s s' before after f h zero free = (f free.0, h 0 free.1)
Keeps-cons s s' before after f h (suc m) free = h m free

drop-Free : (slots : Slots) (m n : ℕ) → m ≤ n → All Free (drop m slots) → All Free (drop n slots)
drop-Free slots zero zero h free = free
drop-Free [] zero (suc n) h free = tt
drop-Free [] (suc m) zero h free = tt
drop-Free [] (suc m) (suc n) h free = tt
drop-Free (s ∷ slots) zero (suc n) h free = drop-Free slots 0 n (omega arith) free.1
drop-Free (s ∷ slots) (suc m) (suc n) h free = drop-Free slots m n (omega arith) free
drop-Free (s ∷ slots) (suc m) zero h free = absurd (omega arith)

-- `place` takes the first free slot, which has index `j`: the table keeps its length, the
-- descriptor is in it once more, and behind that slot all stays free. It fails on a full table.
abbrev pub Placed : ℕ → ℕ → Slots → Option (Slots × ℕ) → Type 0
Placed fd i slots none = (s : ℕ) → get_elem? slots s ≢ some none
Placed fd i slots (some (slots', j)) =
    (length slots' ≡ length slots)
    × ((x : ℕ) → count x slots' ≡ held x (some fd) + count x slots)
    × (j < i + length slots)
    × ((m n : ℕ) → m ≤ n → j < i + n → All Free (drop m slots) → All Free (drop n slots'))

pub place-Placed : (fd i : ℕ) (slots : Slots) → Placed fd i slots (place fd i slots)
unfolding place
place-Placed fd i [] = nothing
  where
    nothing : (s : ℕ) → get_elem? {A = Option ℕ} [] s ≢ some none
    nothing s p = ground arith
place-Placed fd i (none ∷ slots) = (refl, λ x. omega arith, omega arith, behind)
  where
    behind :
        (m n : ℕ)
        → m ≤ n
        → i < i + n
        → All Free (drop m (none ∷ slots))
        → All Free (drop n (some fd ∷ slots))
    behind m zero h k free = absurd (omega arith)
    behind m (suc n) h k free = drop-Free (none ∷ slots) m (suc n) h free
place-Placed fd i (some other ∷ slots) =
    further (place fd (i + 1) slots) (place-Placed fd (i + 1) slots)
  where
    further :
        (o : Option (Slots × ℕ))
        → Placed fd (i + 1) slots o
        → Placed fd i
            (some other ∷ slots)
            (elim o [ none ↦ none | some (slots', j) ↦ some (some other ∷ slots', j) ])
    further none h = none_free
      where
        none_free : (s : ℕ) → get_elem? (some other ∷ slots) s ≢ some none
        none_free zero p = ground arith
        none_free (suc s) p = h s p
    further (some (slots', j)) h =
        (ap suc h.0, λ x. omega (arith, h.1 x), omega (arith, h.2), behind)
      where
        behind :
            (m n : ℕ)
            → m ≤ n
            → j < i + n
            → All Free (drop m (some other ∷ slots))
            → All Free (drop n (some other ∷ slots'))
        behind zero n a b free = absurd free.0
        behind (suc m) zero a b free = absurd (omega arith)
        behind (suc m) (suc n) a b free = h.3 m n (omega arith) (omega arith) free

pub place_full :
    (fd i : ℕ) (slots : Slots) → ((s : ℕ) → get_elem? slots s ≢ some none) → place fd i slots ≡ none
unfolding place
place_full fd i [] h = refl
place_full fd i (none ∷ slots) h = absurd (h 0 refl)
place_full fd i (some other ∷ slots) h = rw (place_full fd (i + 1) slots λ s. h (suc s))
