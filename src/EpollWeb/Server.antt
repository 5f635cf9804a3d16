-- ===== src/EpollWeb/Server.antt =====
-- `main` of WebServer/Epoll_Web/webServer.c: the loop over what `epoll_wait` reports. The state
-- that lives on from one event to the next is the static buffer of `Readline`.
use unix_net.Common.{
  ℕ, zero, suc, ◌+◌, Bool, ◌&&◌, Option, none, some, List, [], ◌∷◌, ◌++◌, Bytes, codes, ◌==◌, ltb,
  if◌then◌else◌, length,
}
use unix_net.Sys.{
  Answer, Action, ok, blocked, crashed, Cmd, and_then, ◌>>=◌, ◌>>◌, pure, note, crash,
}
use unix_net.CString.{equal, strtok, until_zero}
use unix_net.Files.{Files}
use unix_net.Readline.{LineResult, readline}
use unix_net.Wrap.{accept, listen, tcp4bind}
use unix_net.EpollWeb.Response.{send_data}

-- What `epoll_wait` reports: a failure, or the ready descriptors, each with whether it can be read.
pub data Wait : Type 0 where
  failed : Wait
  ready : List (ℕ × Bool) → Wait

-- `while (Readline(fd, buf, sizeof(buf)) >= 0);` The measure of what can still be read bounds the
-- rounds: each takes a byte of the buffer or an answer.
abbrev pub cost : Bytes → List Answer → ℕ
cost cache [] = length cache
cost cache (Answer.bytes bs ∷ w) = suc (length bs + cost cache w)
cost cache (_ ∷ w) = suc (cost cache w)

unfoldable pub drain_loop : ℕ → ℕ → Bytes → Cmd Bytes
drain_loop zero fd cache w log = crashed log
drain_loop (suc fuel) fd cache w log = and_then (readline fd 1500 cache w log) λ r w' log'.
    elim r.result [ some n ↦ drain_loop fuel fd r.cache w' log' | none ↦ ok r.cache w' log' ]

unfoldable pub drain : ℕ → Bytes → Cmd Bytes
drain fd cache w log = drain_loop (suc (cost cache w)) fd cache w log

-- The request line: the method and the file name by `strtok`. A missing token is a null pointer
-- that is printed and compared.
abbrev pub serve_name : Files → ℕ → Bytes → Option (Bytes × Bytes) → Cmd (Unit {0})
serve_name files fd request_type none = crash
serve_name files fd request_type (some (file_name, rest)) =
    if equal (codes "GET") request_type then send_data files fd file_name else pure tt

abbrev pub serve_line : Files → ℕ → Option (Bytes × Bytes) → Cmd (Unit {0})
serve_line files fd none = crash
serve_line files fd (some (request_type, rest)) =
    serve_name files fd request_type (strtok b' ' rest)

abbrev pub serve_result : Files → ℕ → LineResult → Option ℕ → Cmd (Unit {0})
serve_result files fd r none = note (Action.epoll_del fd) >> note (Action.close fd)
serve_result files fd r (some zero) = note (Action.epoll_del fd) >> note (Action.close fd)
serve_result files fd r (some (suc n)) = serve_line files fd (strtok b' ' (until_zero r.text))

-- An event on a client's descriptor. Whatever was done, the rest of what it sent is read off.
unfoldable pub serve_client : Files → ℕ → Bytes → Cmd Bytes
serve_client files fd cache = do
  r ← readline fd 1500 cache
  serve_result files fd r r.result
  drain fd r.cache

unfoldable pub add_client : ℕ → Cmd (Unit {0})
add_client lfd = do cfd ← accept lfd; note (Action.set_nonblock cfd); note (Action.epoll_add cfd 1)

unfoldable pub handle_event : Files → ℕ → Bytes → ℕ × Bool → Cmd Bytes
handle_event files lfd cache (fd, readable) =
    if fd == lfd && readable
    then (add_client lfd >> pure cache)
    else if readable
    then serve_client files fd cache
    else pure cache

unfoldable pub handle_events : Files → ℕ → List (ℕ × Bool) → Bytes → Cmd Bytes
handle_events files lfd [] cache = pure cache
handle_events files lfd (event ∷ events) cache =
    handle_event files lfd cache event >>= handle_events files lfd events

-- The loop of `main`, over what the calls of `epoll_wait` report in turn. It has no exit: behind
-- the last report it waits.
unfoldable pub main_loop : Files → ℕ → List Wait → Bytes → Cmd (Unit {0})
main_loop files lfd [] cache w log = blocked log
main_loop files lfd (failed ∷ waits) cache w log = main_loop files lfd waits cache w log
main_loop files lfd (ready events ∷ waits) cache w log =
    and_then (handle_events files lfd events cache w log) (main_loop files lfd waits)

-- The environment's PWD is copied into an array of 256 bytes, unchecked.
abbrev pub change_directory : Option Bytes → Cmd (Unit {0})
change_directory none = crash
change_directory (some pwd) =
    if ltb (length pwd + 5) 256 then note (Action.chdir (pwd ++ codes "/HTML")) else crash

unfoldable pub main : Files → Option Bytes → List Wait → Cmd (Unit {0})
main files pwd waits = do
  change_directory pwd
  lfd ← tcp4bind 8080 none
  listen lfd 128
  note (Action.epoll_add lfd 1)
  main_loop files lfd waits []
