-- ===== src/BufferEcho.antt =====
-- Libevent/helloworld-change.c and myWwriteDemo.c: two servers over buffered events, which greet a
-- client and send back what it sends. Here is what libevent does in both: it makes callbacks.
pub mod Hello
pub mod Welcome
pub mod Interleaved
pub mod Methods
use unix_net.Common.{ℕ, Bool, true, false, ◌||◌, List, [], ◌∷◌, Bytes, codes, if◌then◌else◌}
use unix_net.Sys.{Answer, Action, blocked, Cmd, and_then, ◌>>=◌, ◌>>◌, pure, note}

-- What makes the dispatcher call back: a connection, bytes to read on a client, an output buffer
-- that is empty, the end or an error on a client, and the interrupt signal.
pub data Event : Type 0 where
  connection readable flushed closed broken : ℕ → Event
  interrupt : Event

-- What a callback asks the dispatcher for: to go on, to leave behind this callback, or to leave
-- behind those that still come in the next seconds.
pub data Wish : Type 0 where
  go_on leave_now leave_soon : Wish

-- The callbacks in turn. The dispatcher returns only where it was asked to; else it waits for more.
unfoldable pub dispatch : (Event → Cmd Wish) → Bool → List Event → Cmd (Unit {0})
dispatch callback asked [] w log = if asked then pure tt w log else blocked log
dispatch callback asked (event ∷ events) w log = and_then (callback event w log) λ wish. elim wish [
  | go_on ↦ dispatch callback asked events
  | leave_now ↦ pure tt
  | leave_soon ↦ dispatch callback true events
]

-- The callback of the signal, which is written alike in both programs.
unfoldable pub signal_cb : Cmd Wish
signal_cb = do
  note (Action.print (codes "Caught an interrupt signal; exiting cleanly in two seconds.\n"))
  note (Action.loop_exit 2)
  pure Wish.leave_soon

-- The callback of a client that has gone or failed, also in both; the text of an error is left out.
unfoldable pub event_cb : ℕ → Bool → Cmd Wish
event_cb bev eof = do
  if eof then note (Action.print (codes "Connection closed.\n")) else pure tt
  note (Action.bev_free bev)
  pure Wish.go_on
