-- ===== src/EventTable/Usage.antt =====
-- How the array of Libevent/libeventServer.c fills, and what a full one means.
use unix_net.Common.{ℕ, suc, ◌+◌, ◌-◌, ◌≡◌, refl, Option, none, some, List, [], ◌∷◌, arith, length}
use unix_net.Sys.{Answer, fail, ret, bytes, Log, Run, ok, exited, blocked, crashed, pure}
use unix_net.Sys.Ensures.{Ensures, Ensures-and_then, Ensures-mono}
use unix_net.Wrap.{accept}
use unix_net.EventTable.{
  unused, used, Events, add_event, cfdcb, lfdcb, registered, Ready, listening, client, callback,
  dispatch, added,
}

-- The elements in use, and the ones that are free.
abbrev pub in_use : Events → ℕ
in_use [] = 0
in_use (unused ∷ arr) = in_use arr
in_use (used fd ev ∷ arr) = suc (in_use arr)

abbrev pub free : Events → ℕ
free [] = 0
free (unused ∷ arr) = suc (free arr)
free (used fd ev ∷ arr) = free arr

-- The clients that the callbacks take in.
abbrev pub arrivals : List Ready → ℕ
arrivals [] = 0
arrivals (listening ∷ ready) = suc (arrivals ready)
arrivals (client cfd ∷ ready) = arrivals ready

-- What `n` new clients do to the array: each takes an element, while there is one.
abbrev pub Fills : ℕ → Events → Events → Type 0
Fills n arr arr' = (in_use arr' + free arr' ≡ in_use arr + free arr) × (free arr' ≡ free arr - n)

pub Fills-one : (fd ev : ℕ) (arr : Events) → Fills 1 arr (added arr (add_event fd ev arr))
unfolding add_event
Fills-one fd ev [] = (refl, refl)
Fills-one fd ev (unused ∷ arr) = (omega arith, omega arith)
Fills-one fd ev (used fd' ev' ∷ arr) = further (add_event fd ev arr) (Fills-one fd ev arr)
  where
    further :
        (o : Option Events)
        → Fills 1 arr (added arr o)
        → Fills 1 (used fd' ev' ∷ arr) (
            added
              (used fd' ev' ∷ arr)
              (elim o [ none ↦ none | some arr' ↦ some (used fd' ev' ∷ arr') ]))
    further none h = (refl, h.1)
    further (some arr') h = (omega (arith, h.0), h.1)

Ensures-any : {A : Type 0} (r : Run A) → Ensures (λ _ _. Unit) r
Ensures-any (ok a w log) = tt
Ensures-any (exited c log) = tt
Ensures-any (blocked log) = tt
Ensures-any (crashed log) = tt

registered-Fills :
    (cfd : ℕ) (arr : Events) (w : List Answer) (log : Log)
    → Ensures (λ arr' _. Fills 1 arr arr') (registered cfd arr w log)
registered-Fills cfd arr [] log = tt
registered-Fills cfd arr (fail e ∷ w) log = tt
registered-Fills cfd arr (ret n ∷ w) log = Fills-one cfd n arr
registered-Fills cfd arr (bytes bs ∷ w) log = Fills-one cfd (length bs) arr

callback-Fills :
    (lfd : ℕ) (r : Ready) (arr : Events) (w : List Answer) (log : Log)
    → Ensures (λ arr' _. Fills (arrivals (r ∷ [])) arr arr') (callback lfd r arr w log)
unfolding lfdcb
callback-Fills lfd listening arr w log =
    Ensures-and_then _ _ (accept lfd w log) _ (Ensures-any (accept lfd w log))
      λ cfd w' log' _. registered-Fills cfd arr w' log'
callback-Fills lfd (client cfd) arr w log =
    Ensures-and_then _ _ (cfdcb cfd arr w log) (λ _. pure arr) (Ensures-any (cfdcb cfd arr w log))
      λ _ w' log' _. (refl, omega arith)

arrivals-cons :
    (r : Ready) (ready : List Ready) → arrivals (r ∷ ready) ≡ arrivals (r ∷ []) + arrivals ready
arrivals-cons listening ready = omega arith
arrivals-cons (client cfd) ready = omega arith

-- Over any sequence of callbacks, whatever the clients send and whether or not they leave, every
-- client that was taken in uses up one element of the array, until none is free: an element is never
-- given back. The size of the array stays. It holds if the callbacks come to their end.
pub dispatch-Fills :
    (lfd : ℕ) (ready : List Ready) (arr : Events) (w : List Answer) (log : Log)
    → Ensures (λ arr' _. Fills (arrivals ready) arr arr') (dispatch lfd ready arr w log)
unfolding dispatch
dispatch-Fills lfd [] arr w log = (refl, omega arith)
dispatch-Fills lfd (r ∷ ready) arr w log =
    Ensures-and_then _ _ (callback lfd r arr w log) (dispatch lfd ready)
      (callback-Fills lfd r arr w log)
      λ arr' w' log' h.
        Ensures-mono _ _ (dispatch lfd ready arr' w' log')
          (λ arr'' log'' k.
            (omega (arith, h.0, k.0), omega (arith, h.1, k.1, arrivals-cons r ready)))
          (dispatch-Fills lfd ready arr' w' log')

pub add_event_full : (fd ev : ℕ) (arr : Events) → free arr ≡ 0 → add_event fd ev arr ≡ none
unfolding add_event
add_event_full fd ev [] h = refl
add_event_full fd ev (unused ∷ arr) h = absurd (omega (arith, h))
add_event_full fd ev (used fd' ev' ∷ arr) h = rw (add_event_full fd ev arr h) refl
