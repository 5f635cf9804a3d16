-- ===== src/BufferEcho/Hello.antt =====
-- Libevent/helloworld-change.c.
use unix_net.Common.{ℕ, true, false, List, [], ◌∷◌, ◌++◌, Bytes, codes, if◌then◌else◌}
use unix_net.Sys.{Answer, fail, Action, Cmd, ◌>>=◌, ◌>>◌, pure, call, note, crash, halt}
use unix_net.CString.{unterminated, until_zero}
use unix_net.Files.{descriptor}
use unix_net.Wrap.{stored}
use unix_net.BufferEcho.{
  Event, connection, readable, flushed, closed, broken, interrupt, Wish, go_on, leave_now, dispatch,
  signal_cb, event_cb,
}

-- A new client: its buffered event, and the greeting without its zero.
abbrev pub greet : Answer → Cmd Wish
greet (fail e) = do note Action.loop_break; pure leave_now
greet a = do
  note (Action.bev_enable (descriptor a))
  note (Action.bev_write (descriptor a) (codes "Hello, World!\n"))
  pure go_on

unfoldable pub listener_cb : ℕ → Cmd Wish
listener_cb fd = call (Action.bev_new fd) >>= greet

-- The label of what came, in UTF-8.
abbrev pub arrived : Bytes
arrived =
    0xe5 ∷ 0xae ∷ 0xa2 ∷ 0xe6 ∷ 0x88 ∷ 0xb7 ∷ 0xe7 ∷ 0xab ∷ 0xaf ∷ 0xe5 ∷ 0x8f ∷ 0x91 ∷ 0xe6 ∷ 0x9d
    ∷ 0xa5 ∷ b':' ∷ []

-- As many bytes as came are sent back.
abbrev pub echo : ℕ → Bytes → Cmd Wish
echo bev bs = if unterminated 1500 bs then crash else (do
  note (Action.print (arrived ++ (until_zero bs ++ codes "\n")))
  note (Action.bev_write bev bs)
  pure go_on)

unfoldable pub read_cb : ℕ → Cmd Wish
read_cb bev = do n ← call (Action.bev_read bev 1500); echo bev (stored n)

unfoldable pub callback : Event → Cmd Wish
callback (connection fd) = listener_cb fd
callback (readable bev) = read_cb bev
callback (flushed bev) = pure go_on
callback (closed bev) = event_cb bev true
callback (broken bev) = event_cb bev false
callback interrupt = signal_cb

-- `main` leaves with 1 where one of the four steps fails, and frees nothing then.
abbrev pub or_leave : Answer → Cmd (Unit {0}) → Cmd (Unit {0})
or_leave (fail e) run = halt 1
or_leave a run = run

unfoldable pub main : List Event → Cmd (Unit {0})
main events = do
  base ← call Action.base_new
  or_leave base (do
    listener ← call (Action.listener_new 9995)
    or_leave listener (do
      signal_event ← call Action.signal_new
      or_leave signal_event (do
        added ← call Action.signal_add
        or_leave added (do
          dispatch callback false events
          note Action.listener_free
          note Action.signal_free
          note Action.base_free
          note (Action.print (codes "done\n"))))))
