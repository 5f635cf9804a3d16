-- ===== src/LocalSocket.antt =====
-- LocalSocket/localSocketServer.c and localSocketCilent.c: the exchange over a stream socket of
-- the file system. The name of a new client's socket is not printed.
pub mod Exchange
use unix_net.Common.{List, ℕ, [], ◌∷◌, ◌++◌, Bytes, codes, if◌then◌else◌}
use unix_net.Sys.{
  Answer, fail, ret, bytes, Action, ok, blocked, crashed, Cmd, ◌>>=◌, ◌>>◌, pure, call, note, halt,
}
use unix_net.CString.{unterminated, until_zero}
use unix_net.Files.{descriptor, window}
use unix_net.Wrap.{stored}

-- The labels of what the server and the client print, in UTF-8.
abbrev pub from_client : Bytes
from_client =
    0xe8 ∷ 0xaf ∷ 0xbb ∷ 0xe5 ∷ 0x88 ∷ 0xb0 ∷ 0xe5 ∷ 0xae ∷ 0xa2 ∷ 0xe6 ∷ 0x88 ∷ 0xb7 ∷ 0xe7 ∷ 0xab
    ∷ 0xaf ∷ 0xe4 ∷ 0xbf ∷ 0xa1 ∷ 0xe6 ∷ 0x81 ∷ 0xaf ∷ b':' ∷ []

abbrev pub from_server : Bytes
from_server =
    0xe6 ∷ 0x94 ∷ 0xb6 ∷ 0xe5 ∷ 0x88 ∷ 0xb0 ∷ 0xe6 ∷ 0x9c ∷ 0x8d ∷ 0xe5 ∷ 0x8a ∷ 0xa1 ∷ 0xe5 ∷ 0x99
    ∷ 0xa8 ∷ 0xe4 ∷ 0xbf ∷ 0xa1 ∷ 0xe6 ∷ 0x81 ∷ 0xaf ∷ b':' ∷ []

-- The server's loop: it sends back the text without its zero.
unfoldable pub serve_loop : ℕ → Cmd (Unit {0})
serve_loop fd [] log = blocked (Action.recv fd 1500 ∷ log)
serve_loop fd (bytes (b ∷ bs) ∷ w) log =
    let buf = window 1500 (b ∷ bs) in
    let rest = serve_loop fd w (
      Action.send fd (until_zero buf)
      ∷ Action.print (from_client ++ (until_zero buf ++ codes "\n"))
      ∷ Action.recv fd 1500
      ∷ log) in
    if unterminated 1500 buf then crashed (Action.recv fd 1500 ∷ log) else rest
serve_loop fd (a ∷ w) log = ok tt w (Action.recv fd 1500 ∷ log)

-- Nothing is checked, and nothing is closed.
unfoldable pub server : Cmd (Unit {0})
server = do
  note (Action.unlink (codes "sock.s"))
  lfd ← call (Action.socket 1 1 0)
  note (Action.bind_path (descriptor lfd) (codes "sock.s"))
  note (Action.listen (descriptor lfd) 128)
  cfd ← call (Action.accept (descriptor lfd))
  serve_loop (descriptor cfd)

-- The client's loop: it sends the whole array, and clears it before it receives.
unfoldable pub client_loop : ℕ → Cmd (Unit {0})
client_loop fd [] log = blocked (Action.read 0 1500 ∷ log)
client_loop fd (fail e ∷ w) log = ok tt w (Action.read 0 1500 ∷ log)
client_loop fd (a ∷ []) log =
    blocked
      (Action.recv fd 1500 ∷ Action.send fd (window 1500 (stored a)) ∷ Action.read 0 1500 ∷ log)
client_loop fd (a ∷ bytes (b ∷ bs) ∷ w) log =
    let log' =
      Action.recv fd 1500 ∷ Action.send fd (window 1500 (stored a)) ∷ Action.read 0 1500 ∷ log in
    let buf = window 1500 (b ∷ bs) in
    let rest =
      client_loop fd w (Action.print (from_server ++ (until_zero buf ++ codes "\n")) ∷ log') in
    if unterminated 1500 buf then crashed log' else rest
client_loop fd (a ∷ b ∷ w) log =
    ok tt w
      (Action.recv fd 1500 ∷ Action.send fd (window 1500 (stored a)) ∷ Action.read 0 1500 ∷ log)

-- The result of `connect` is not looked at.
abbrev pub run_bound : ℕ → Answer → Cmd (Unit {0})
run_bound fd (fail e) = halt 1
run_bound fd a = do
  note (Action.connect_path fd (codes "sock.s"))
  client_loop fd
  note (Action.close fd)

unfoldable pub client : Cmd (Unit {0})
client = do
  sock_fd ← call (Action.socket 1 1 0)
  note (Action.unlink (codes "sock.ca"))
  bound ← call (Action.bind_path (descriptor sock_fd) (codes "sock.ca"))
  run_bound (descriptor sock_fd) bound
