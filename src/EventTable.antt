-- ===== src/EventTable.antt =====
-- Libevent/libeventServer.c: a server that sends back what it reads, with an array that maps each
-- descriptor to its event. An event is named by the answer to `event_new`.
pub mod Lookup
pub mod Usage
pub mod Session
pub mod Refines
use unix_net.Common.{
  ℕ, zero, suc, Bool, not, ◌&&◌, Option, none, some, List, [], ◌∷◌, Bytes, ◌==◌, if◌then◌else◌,
  length, replicate,
}
use unix_net.Sys.{Answer, fail, value, Action, Cmd, ◌>>=◌, ◌>>◌, pure, call, note, crash, blocked}
use unix_net.CString.{unterminated}
use unix_net.Wrap.{ReadResult, got, failed, accept, listen, read, write, tcp4bind}

-- An element of `FdArr`: the descriptor -1 and no event, or what `addEvent` stored.
pub data Entry : Type 0 where
  unused : Entry
  used : ℕ → ℕ → Entry

abbrev pub Events : Type 0
Events = List Entry

unfoldable pub init_event_arr : Events
init_event_arr = replicate 1024 unused

-- The first unused element is taken; `none` for the result -1.
unfoldable pub add_event : ℕ → ℕ → Events → Option Events
add_event fd ev [] = none
add_event fd ev (unused ∷ arr) = some (used fd ev ∷ arr)
add_event fd ev (used fd' ev' ∷ arr) = elim (add_event fd ev arr) [
  | none ↦ none
  | some arr' ↦ some (used fd' ev' ∷ arr')
]

-- The event of the first element with the descriptor. Behind the loop the function has no
-- `return`.
unfoldable pub get_event : ℕ → Events → Option ℕ
get_event fd [] = none
get_event fd (unused ∷ arr) = get_event fd arr
get_event fd (used fd' ev ∷ arr) = if fd' == fd then some ev else get_event fd arr

-- `event_del(getEvent(cfd))`: a result that no `return` gave must not be used.
abbrev pub delete_event : Option ℕ → Cmd (Unit {0})
delete_event none = crash
delete_event (some ev) = note (Action.event_del ev)

-- The text is printed, up to its zero.
abbrev pub after_read : ℕ → Events → ReadResult → Cmd (Unit {0})
after_read cfd arr (failed e) = delete_event (get_event cfd arr)
after_read cfd arr (got []) = delete_event (get_event cfd arr)
after_read cfd arr (got (b ∷ bs)) =
    if unterminated 1500 (b ∷ bs) then crash else write cfd (b ∷ bs) >> pure tt

unfoldable pub cfdcb : ℕ → Events → Cmd (Unit {0})
cfdcb cfd arr = read cfd 1500 >>= after_read cfd arr

-- The result of `addEvent` is not looked at.
abbrev pub added : Events → Option Events → Events
added arr none = arr
added arr (some arr') = arr'

-- `addEvent` and `event_add`: the null pointer of an `event_new` that fails is used by the second.
abbrev pub with_event : ℕ → Events → Answer → Cmd Events
with_event cfd arr (fail e) = crash
with_event cfd arr ev = do
  note (Action.event_add (value ev))
  pure (added arr (add_event cfd (value ev) arr))

-- `event_new`, `addEvent` and `event_add` for a new descriptor.
abbrev pub registered : ℕ → Events → Cmd Events
registered cfd arr = call (Action.event_new cfd) >>= with_event cfd arr

unfoldable pub lfdcb : ℕ → Events → Cmd Events
lfdcb lfd arr = do cfd ← accept lfd; registered cfd arr

-- A callback that the dispatcher makes: of the listening event, or of a client's.
pub data Ready : Type 0 where
  listening : Ready
  client : ℕ → Ready

abbrev pub callback : ℕ → Ready → Events → Cmd Events
callback lfd listening arr = lfdcb lfd arr
callback lfd (client cfd) arr = cfdcb cfd arr >> pure arr

unfoldable pub dispatch : ℕ → List Ready → Events → Cmd Events
dispatch lfd [] arr = pure arr
dispatch lfd (r ∷ ready) arr = callback lfd r arr >>= dispatch lfd ready

-- `main` over the callbacks that come in turn; behind the last it waits in the dispatcher.
unfoldable pub main : List Ready → Cmd (Unit {0})
main ready = do
  lfd ← tcp4bind 8080 none
  listen lfd 128
  arr ← registered lfd init_event_arr
  arr' ← dispatch lfd ready arr
  λ w log. blocked log
