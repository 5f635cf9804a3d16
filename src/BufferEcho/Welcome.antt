-- ===== src/BufferEcho/Welcome.antt =====
-- Libevent/myWwriteDemo.c.
use unix_net.Common.{ℕ, true, false, List, [], ◌∷◌, ◌++◌, Bytes, codes, if◌then◌else◌}
use unix_net.Sys.{Answer, fail, Action, Cmd, ◌>>=◌, ◌>>◌, pure, call, note, crash, halt}
use unix_net.CString.{unterminated, until_zero}
use unix_net.Files.{descriptor}
use unix_net.Wrap.{stored}
use unix_net.BufferEcho.{
  Event, connection, readable, flushed, closed, broken, interrupt, Wish, go_on, dispatch, event_cb,
}

-- The greeting is sent with its zero. A buffered event that could not be made is a null pointer,
-- which is used.
abbrev pub greet : Answer → Cmd Wish
greet (fail e) = crash
greet a = do
  note (Action.bev_enable (descriptor a))
  note (Action.bev_write (descriptor a) (codes "Weclome connect Server\n\0"))
  pure go_on

unfoldable pub listen_cb : ℕ → Cmd Wish
listen_cb fd = call (Action.bev_new fd) >>= greet

-- The label of what came, in UTF-8.
abbrev pub from_client : Bytes
from_client =
    0xe6 ∷ 0x94 ∷ 0xb6 ∷ 0xe5 ∷ 0x88 ∷ 0xb0 ∷ 0xe5 ∷ 0xae ∷ 0xa2 ∷ 0xe6 ∷ 0x88 ∷ 0xb7 ∷ 0xe7 ∷ 0xab
    ∷ 0xaf ∷ 0xe7 ∷ 0x9a ∷ 0x84 ∷ 0xe4 ∷ 0xbf ∷ 0xa1 ∷ 0xe6 ∷ 0x81 ∷ 0xaf ∷ b':' ∷ []

-- The text up to its zero is sent back.
abbrev pub send_back : ℕ → Bytes → Cmd Wish
send_back bev bs = if unterminated 1500 bs then crash else (do
  note (Action.print (from_client ++ (until_zero bs ++ codes "\n")))
  note (Action.bev_write bev (until_zero bs))
  pure go_on)

unfoldable pub readcb : ℕ → Cmd Wish
readcb bev = do n ← call (Action.bev_read bev 1500); send_back bev (stored n)

-- The event of the signal is made but never added: SIGINT ends the process, and the callback for it
-- is not called.
unfoldable pub callback : Event → Cmd Wish
callback (connection fd) = listen_cb fd
callback (readable bev) = readcb bev
callback (flushed bev) = pure go_on
callback (closed bev) = event_cb bev true
callback (broken bev) = event_cb bev false
callback interrupt = halt 130

-- What libevent gives back is not looked at.
unfoldable pub main : List Event → Cmd (Unit {0})
main events = do
  note Action.base_new
  note (Action.listener_new 9095)
  note Action.signal_new
  dispatch callback false events
  note Action.listener_free
  note Action.base_free
