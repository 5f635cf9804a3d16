-- ===== src/EventTest/Server.antt =====
-- `listen_cb` and `main` of WebServer/test/event_wb.c, with its callbacks as libevent makes them.
use unix_net.Common.{ℕ, true, false, Option, none, some, List, Bytes, ltb, if◌then◌else◌, length}
use unix_net.Sys.{Answer, fail, Action, Cmd, ◌>>=◌, ◌>>◌, pure, call, note, crash, halt}
use unix_net.Files.{descriptor}
use unix_net.EventTest.{Disk, read_cb, bevent_cb}
use unix_net.BufferEcho.{
  Event, connection, readable, flushed, closed, broken, interrupt, Wish, go_on, dispatch,
}

-- A null pointer for a buffered event is used.
abbrev pub enable : Answer → Cmd Wish
enable (fail e) = crash
enable a = do note (Action.bev_enable (descriptor a)); pure go_on

unfoldable pub listen_cb : ℕ → Cmd Wish
listen_cb fd = call (Action.bev_new fd) >>= enable

unfoldable pub callback : Disk → Event → Cmd Wish
callback disk (connection fd) = listen_cb fd
callback disk (readable bev) = do read_cb disk bev; pure go_on
callback disk (flushed bev) = pure go_on
callback disk (closed bev) = do bevent_cb bev true false; pure go_on
callback disk (broken bev) = do bevent_cb bev false true; pure go_on
callback disk interrupt = halt 130

-- The environment's PWD is copied into an array of 256 bytes, unchecked.
abbrev pub change_directory : Option Bytes → Cmd (Unit {0})
change_directory none = crash
change_directory (some pwd) = if ltb (length pwd) 256 then note (Action.chdir pwd) else crash

-- Whether there is a listener is not looked at: without one the dispatcher has nothing to wait for
-- and returns at once, and a null pointer is freed.
abbrev pub serve_with : Disk → List Event → Answer → Cmd (Unit {0})
serve_with disk events (fail e) = do note Action.base_free; crash
serve_with disk events a = do
  dispatch (callback disk) false events
  note Action.base_free
  note Action.listener_free

unfoldable pub main : Disk → Option Bytes → List Event → Cmd (Unit {0})
main disk pwd events = do
  change_directory pwd
  note Action.base_new
  listener ← call (Action.listener_new 9999)
  serve_with disk events listener
