-- ===== src/EventWeb/Server.antt =====
-- `listener_cb` and `main` of WebServer/Libevent_Web/webServer.c.
use unix_net.Common.{
  ℕ, ◌+◌, false, Option, none, some, List, ◌++◌, Bytes, codes, ltb, if◌then◌else◌, length,
}
use unix_net.Sys.{Answer, fail, Action, Cmd, ◌>>=◌, ◌>>◌, pure, call, note, crash, halt}
use unix_net.Files.{Files, descriptor}
use unix_net.EventWeb.{read_cb}
use unix_net.BufferEcho.{
  Event, connection, readable, flushed, closed, broken, interrupt, Wish, go_on, dispatch,
}

-- What `bufferevent_socket_new` gives is not looked at: a null pointer is used.
abbrev pub enable : Answer → Cmd Wish
enable (fail e) = crash
enable a = do note (Action.bev_enable (descriptor a)); pure go_on

unfoldable pub listener_cb : ℕ → Cmd Wish
listener_cb cfd = call (Action.bev_new cfd) >>= enable

-- There is a callback for bytes to read only: nothing is done for a client that has gone, and the
-- interrupt signal ends the process.
unfoldable pub callback : Files → Event → Cmd Wish
callback files (connection cfd) = listener_cb cfd
callback files (readable bev) = do read_cb files bev; pure go_on
callback files (flushed bev) = pure go_on
callback files (closed bev) = pure go_on
callback files (broken bev) = pure go_on
callback files interrupt = halt 130

-- The environment's PWD is copied into an array of 256 bytes, unchecked.
abbrev pub change_directory : Option Bytes → Cmd (Unit {0})
change_directory none = crash
change_directory (some pwd) =
    if ltb (length pwd + 8) 256 then note (Action.chdir (pwd ++ codes "/WebData")) else crash

abbrev pub serve_with : Files → List Event → Answer → Cmd (Unit {0})
serve_with files events (fail e) = halt 1
serve_with files events a = do
  dispatch (callback files) false events
  note Action.listener_free
  note Action.base_free

unfoldable pub main : Files → Option Bytes → List Event → Cmd (Unit {0})
main files pwd events = do
  change_directory pwd
  note Action.base_new
  listener ← call (Action.listener_new 8889)
  serve_with files events listener
