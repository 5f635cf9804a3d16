-- ===== src/EventTable/Lookup.antt =====
-- The array of Libevent/libeventServer.c as a map from descriptors to events.
use unix_net.Common.{
  ℕ, ◌≡◌, ◌≢◌, refl, Bool-cases, Option, none, some, [], ◌∷◌, arith, ◌==◌, inl, inr,
}
use unix_net.EventTable.{unused, used, Events, add_event, get_event}

-- The array has an unused element.
abbrev pub HasRoom : Events → Type 0
HasRoom [] = ⊥
HasRoom (unused ∷ arr) = Unit
HasRoom (used fd ev ∷ arr) = HasRoom arr

-- What the result of `addEvent` means for `getEvent`.
abbrev pub AddsEvent : ℕ → ℕ → Events → Option Events → Type 0
AddsEvent fd ev arr none = HasRoom arr → ⊥
AddsEvent fd ev arr (some arr') =
    HasRoom arr
    × (get_event fd arr ≡ none → get_event fd arr' ≡ some ev)
    × ((x : ℕ) → x ≢ fd → get_event x arr' ≡ get_event x arr)

adds_behind :
    (fd ev fd' ev' : ℕ) (arr : Events) (o : Option Events)
    → AddsEvent fd ev arr o
    → AddsEvent fd ev
        (used fd' ev' ∷ arr)
        (elim o [ none ↦ none | some arr' ↦ some (used fd' ev' ∷ arr') ])
unfolding get_event
adds_behind fd ev fd' ev' arr none h = h
adds_behind fd ev fd' ev' arr (some arr') h = (h.0, found, others)
  where
    found : get_event fd (used fd' ev' ∷ arr) ≡ none → get_event fd (used fd' ev' ∷ arr') ≡ some ev
    found p = elim (Bool-cases (fd' == fd)) [
      | inl q ↦ ground (arith, q, p)
      | inr q ↦ rw q (h.1 (rw q at p))
    ]

    others : (x : ℕ) → x ≢ fd → get_event x (used fd' ev' ∷ arr') ≡ get_event x (used fd' ev' ∷ arr)
    others x p = elim (Bool-cases (fd' == x)) [ inl q ↦ rw q refl | inr q ↦ rw q (h.2 x p) ]

-- `addEvent` succeeds exactly where the array has room. A descriptor that was not in the array then
-- has the event, and what `getEvent` finds for every other one stays.
pub get_event-add_event : (fd ev : ℕ) (arr : Events) → AddsEvent fd ev arr (add_event fd ev arr)
unfolding add_event get_event
get_event-add_event fd ev [] = λ h. h
get_event-add_event fd ev (unused ∷ arr) = (tt, (λ p. ground arith), λ x p. ground arith)
get_event-add_event fd ev (used fd' ev' ∷ arr) =
    adds_behind fd ev fd' ev' arr (add_event fd ev arr) (get_event-add_event fd ev arr)
