-- ===== src/EventTable/Refines.antt =====
-- The array of Libevent/libeventServer.c against what it stands for: the registrations so far, of
-- which there are at most 1024, where the oldest for a descriptor counts.
use unix_net.Common.{
  ℕ, zero, suc, ◌+◌, ◌≡◌, refl, Bool, true, false, Option, none, some, List, [], ◌∷◌, ◌++◌, ◌==◌,
  if◌then◌else◌, length, length-append, replicate, arith, ltb,
}
use unix_net.EventTable.{unused, used, Events, init_event_arr, add_event, get_event}

-- A call of `addEvent` with a descriptor and its event, or of `getEvent`.
pub data Call : Type 0 where
  add : ℕ → ℕ → Call
  get : ℕ → Call

-- What the calls return: whether there was room; the event, or nothing where no `return` is met.
pub data Reply : Type 0 where
  stored : Bool → Reply
  event : Option ℕ → Reply

-- The program's functions in turn on the array.
abbrev added : Events → Option Events → Bool × Events
added arr none = (false, arr)
added arr (some arr') = (true, arr')

unfoldable pub replies : List Call → Events → List Reply
replies [] arr = []
replies (add fd ev ∷ rest) arr =
    let (room, arr') = added arr (add_event fd ev arr) in stored room ∷ replies rest arr'
replies (get fd ∷ rest) arr = event (get_event fd arr) ∷ replies rest arr

-- The same calls on the registrations.
abbrev pub Registrations : Type 0
Registrations = List (ℕ × ℕ)

abbrev pub registered_event : ℕ → Registrations → Option ℕ
registered_event fd [] = none
registered_event fd ((fd', ev) ∷ regs) = if fd' == fd then some ev else registered_event fd regs

unfoldable pub expected : List Call → Registrations → List Reply
expected [] regs = []
expected (add fd ev ∷ rest) regs =
    let room = ltb (length regs) 1024 in
    stored room ∷ expected rest (if room then regs ++ ((fd, ev) ∷ []) else regs)
expected (get fd ∷ rest) regs = event (registered_event fd regs) ∷ expected rest regs

-- The registrations at the front of the array, and `k` unused elements behind them.
array_of : Registrations → ℕ → Events
array_of [] k = replicate k unused
array_of ((fd, ev) ∷ regs) k = used fd ev ∷ array_of regs k

get_event-array_of :
    (fd : ℕ) (regs : Registrations) (k : ℕ)
    → get_event fd (array_of regs k) ≡ registered_event fd regs
unfolding get_event array_of
get_event-array_of fd [] zero = refl
get_event-array_of fd [] (suc k) = get_event-array_of fd [] k
get_event-array_of fd ((fd', ev) ∷ regs) k = rw (get_event-array_of fd regs k)

add_event_full : (fd ev : ℕ) (regs : Registrations) → add_event fd ev (array_of regs 0) ≡ none
unfolding add_event array_of
add_event_full fd ev [] = refl
add_event_full fd ev (reg ∷ regs) = rw (add_event_full fd ev regs)

add_event_room :
    (fd ev : ℕ) (regs : Registrations) (k : ℕ)
    → add_event fd ev (array_of regs (suc k)) ≡ some (array_of (regs ++ ((fd, ev) ∷ [])) k)
unfolding add_event array_of
add_event_room fd ev [] k = refl
add_event_room fd ev (reg ∷ regs) k = rw (add_event_room fd ev regs k)

replies-array_of :
    (calls : List Call) (regs : Registrations) (k : ℕ)
    → length regs + k ≡ 1024
    → replies calls (array_of regs k) ≡ expected calls regs
unfolding replies expected
replies-array_of [] regs k h = refl
replies-array_of (get fd ∷ calls) regs k h =
    rw (get_event-array_of fd regs k, replies-array_of calls regs k h)
replies-array_of (add fd ev ∷ calls) regs zero h =
    let full : ltb (length regs) 1024 ≡ false = ground (arith, h) in
    rw (add_event_full fd ev regs, full, replies-array_of calls regs zero h)
replies-array_of (add fd ev ∷ calls) regs (suc k) h =
    let room : ltb (length regs) 1024 ≡ true = ground (arith, h) in
    let one_more : length (regs ++ ((fd, ev) ∷ [])) + k ≡ 1024 =
      omega (arith, h, length-append regs ((fd, ev) ∷ [])) in
    rw (
      add_event_room fd ev regs k,
      room,
      replies-array_of calls (regs ++ ((fd, ev) ∷ [])) k one_more,
    )

-- From the array as it is initialised, any sequence of calls of `addEvent` and `getEvent` gets the
-- replies that the registrations give: an event is added while there are less than 1024, and what
-- is found for a descriptor is the oldest of its events.
pub replies-init_event_arr : (calls : List Call) → replies calls init_event_arr ≡ expected calls []
unfolding init_event_arr array_of
replies-init_event_arr calls = replies-array_of calls [] 1024 refl
