-- ===== src/Udp.antt =====
-- UdpServer/server.c and client.c: a server that sends each datagram back, and a client that sends
-- what is typed and prints what comes back.
pub mod Exchange
use unix_net.Common.{ℕ, [], ◌∷◌, ◌++◌, Bytes, codes, if◌then◌else◌, replicate}
use unix_net.Sys.{Answer, fail, Action, ok, blocked, crashed, Cmd, ◌>>=◌, ◌>>◌, pure, call, note}
use unix_net.CString.{unterminated, until_zero}
use unix_net.Files.{descriptor, overlay, window}
use unix_net.Wrap.{stored, network_order}

-- 127.0.0.1
abbrev pub localhost : Bytes
localhost = 127 ∷ 0 ∷ 0 ∷ 1 ∷ []

-- The text that the server prints in front of a datagram, in UTF-8.
abbrev pub received : Bytes
received =
    0xe6 ∷ 0x8e ∷ 0xa5 ∷ 0xe6 ∷ 0x94 ∷ 0xb6 ∷ 0xe5 ∷ 0x88 ∷ 0xb0 ∷ 0xe6 ∷ 0x95 ∷ 0xb0 ∷ 0xe6 ∷ 0x8d
    ∷ 0xae ∷ b':' ∷ []

-- The socket of a program that could be bound runs its loop, and is closed behind it. The result
-- of `socket` is not looked at, and where `bind` fails nothing is closed.
abbrev pub with_bound : ℕ → Cmd (Unit {0}) → Answer → Cmd (Unit {0})
with_bound fd run (fail e) = pure tt
with_bound fd run a = run >> note (Action.close fd)

-- The server's loop. It prints the array as text, and sends all of it back.
unfoldable pub serve_loop : ℕ → Cmd (Unit {0})
serve_loop fd [] log = blocked (Action.recvfrom fd 1024 ∷ log)
serve_loop fd (fail e ∷ w) log = ok tt w (Action.recvfrom fd 1024 ∷ log)
serve_loop fd (a ∷ w) log =
    let rest = serve_loop fd w (
      Action.reply fd (window 1024 (stored a))
      ∷ Action.print (received ++ (until_zero (window 1024 (stored a)) ++ codes "\n"))
      ∷ Action.recvfrom fd 1024
      ∷ log) in
    if unterminated 1024 (window 1024 (stored a))
    then crashed (Action.recvfrom fd 1024 ∷ log)
    else rest

unfoldable pub server : Cmd (Unit {0})
server = do
  socket_fd ← call (Action.socket 2 2 0)
  lfd ← call (Action.bind (descriptor socket_fd) localhost (network_order 8080))
  with_bound (descriptor socket_fd) (serve_loop (descriptor socket_fd)) lfd

-- The client's loop, with what the array `reBuf` holds, which is not cleared. At the end of its
-- input it sends an empty datagram.
abbrev pub send_line : ℕ → Bytes → Action
send_line fd line = Action.sendto fd localhost (network_order 8080) (until_zero (window 1024 line))

unfoldable pub client_loop : ℕ → Bytes → Cmd (Unit {0})
client_loop fd re_buf [] log = blocked (Action.read 0 1024 ∷ log)
client_loop fd re_buf (fail e ∷ w) log = ok tt w (Action.read 0 1024 ∷ log)
client_loop fd re_buf (a ∷ []) log =
    if unterminated 1024 (window 1024 (stored a))
    then crashed (Action.read 0 1024 ∷ log)
    else blocked (Action.recvfrom fd 1024 ∷ send_line fd (stored a) ∷ Action.read 0 1024 ∷ log)
client_loop fd re_buf (a ∷ fail e ∷ w) log =
    if unterminated 1024 (window 1024 (stored a))
    then crashed (Action.read 0 1024 ∷ log)
    else ok tt w (Action.recvfrom fd 1024 ∷ send_line fd (stored a) ∷ Action.read 0 1024 ∷ log)
client_loop fd re_buf (a ∷ b ∷ w) log =
    let back = overlay (stored b) re_buf in
    let log' = Action.recvfrom fd 1024 ∷ send_line fd (stored a) ∷ Action.read 0 1024 ∷ log in
    let rest =
      client_loop fd back w
        (Action.print (codes "ServerReturn:" ++ (until_zero back ++ codes "\n")) ∷ log') in
    if unterminated 1024 (window 1024 (stored a))
    then crashed (Action.read 0 1024 ∷ log)
    else if unterminated 1024 back
    then crashed log'
    else rest

unfoldable pub client : Cmd (Unit {0})
client = do
  socket_fd ← call (Action.socket 2 2 0)
  lfd ← call (Action.bind (descriptor socket_fd) localhost (network_order 5148))
  with_bound (descriptor socket_fd) (client_loop (descriptor socket_fd) (replicate 1024 0)) lfd
