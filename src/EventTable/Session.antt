-- ===== src/EventTable/Session.antt =====
-- What happens to Libevent/libeventServer.c while its array has room and descriptors are new: the
-- callbacks, the answers of the system, and what is to become of them.
pub mod Run
pub mod Late
use unix_net.Common.{
  ℕ, suc, ◌+◌, ◌-◌, ◌<◌, ◌≡◌, ◌≢◌, refl, sym, ap, ◌∙◌, append_assoc, append-nil, Bool-cases, inl,
  inr, false, Option, none, some, List, [], ◌∷◌, ◌++◌, Bytes, map, arith, if◌then◌else◌, length,
  ◌==◌, replicate,
}
use unix_net.Sys.{Answer, ret, bytes, Action, Log, ok, blocked}
use unix_net.Sys.Trace.{written}
use unix_net.CString.{unterminated}
use unix_net.Wrap.{accept, read, write, tcp4bind, listen, network_order}
use unix_net.EventTable.{
  Entry, unused, used, Events, init_event_arr, add_event, get_event, added, cfdcb, lfdcb, Ready,
  listening, client, callback, dispatch, main,
}
use unix_net.EventTable.Lookup.{HasRoom, AddsEvent, get_event-add_event}
use unix_net.EventTable.Usage.{free, Fills-one}

-- A client comes, by the descriptor and the event that it gets; it sends something; or it leaves.
pub data Turn : Type 0 where
  comes : (cfd ev : ℕ) → Turn
  sends : (cfd b : ℕ) → Bytes → Turn
  leaves : (cfd : ℕ) → Turn

-- The descriptors that have come, with their events.
abbrev pub Seen : Type 0
Seen = List (ℕ × ℕ)

abbrev pub event_of : ℕ → Seen → Option ℕ
event_of x [] = none
event_of x ((cfd, ev) ∷ seen) = if cfd == x then some ev else event_of x seen

-- Every client that comes has a new descriptor, and the array has an element for it; what is sent
-- can be printed; only who has come leaves.
abbrev pub IsRun : Seen → List Turn → Type 0
IsRun seen [] = Unit
IsRun seen (comes cfd ev ∷ turns) =
    (event_of cfd seen ≡ none) × (length seen < 1024) × IsRun ((cfd, ev) ∷ seen) turns
IsRun seen (sends cfd b bs ∷ turns) = (unterminated 1500 (b ∷ bs) ≡ false) × IsRun seen turns
IsRun seen (leaves cfd ∷ turns) = (event_of cfd seen ≢ none) × IsRun seen turns

abbrev pub ready_of : Turn → Ready
ready_of (comes cfd ev) = listening
ready_of (sends cfd b bs) = client cfd
ready_of (leaves cfd) = client cfd

abbrev pub answers_of : List Turn → List Answer → List Answer
answers_of [] w = w
answers_of (comes cfd ev ∷ turns) w = ret cfd ∷ ret ev ∷ answers_of turns w
answers_of (sends cfd b bs ∷ turns) w = bytes (b ∷ bs) ∷ ret (length (b ∷ bs)) ∷ answers_of turns w
answers_of (leaves cfd ∷ turns) w = bytes [] ∷ answers_of turns w

-- What descriptor `x` is to get, and the events that are to be taken off, in order.
abbrev pub echoes : ℕ → List Turn → Bytes
echoes x [] = []
echoes x (sends cfd b bs ∷ turns) = (if cfd == x then b ∷ bs else []) ++ echoes x turns
echoes x (_ ∷ turns) = echoes x turns

abbrev pub listed : Option ℕ → List ℕ
listed none = []
listed (some ev) = ev ∷ []

abbrev pub removals : Seen → List Turn → List ℕ
removals seen [] = []
removals seen (comes cfd ev ∷ turns) = removals ((cfd, ev) ∷ seen) turns
removals seen (sends cfd b bs ∷ turns) = removals seen turns
removals seen (leaves cfd ∷ turns) = listed (event_of cfd seen) ++ removals seen turns

-- The clients that have come by the end of the turns.
abbrev pub seen_after : Seen → List Turn → Seen
seen_after seen [] = seen
seen_after seen (comes cfd ev ∷ turns) = seen_after ((cfd, ev) ∷ seen) turns
seen_after seen (_ ∷ turns) = seen_after seen turns

-- The events that a log takes off.
abbrev pub removed_by : Action → List ℕ
removed_by (Action.event_del ev) = ev ∷ []
removed_by _ = []

abbrev pub removed : Log → List ℕ
removed [] = []
removed (act ∷ log) = removed log ++ removed_by act
