-- ===== src/Process.antt =====
-- TcpServerDemo/process_tcp_server.c: a server with a child process for each client, which sends
-- back what the client sends. The answer to `fork` says which of the two processes the run follows.
pub mod Child
use unix_net.Common.{
  ℕ, zero, suc, ◌==◌, Bool, true, false, List, [], ◌∷◌, Bytes, codes, if◌then◌else◌, replicate,
}
use unix_net.Sys.{
  Answer, fail, ret, bytes, value, Action, Log, Run, ok, exited, blocked, crashed, Cmd, ◌>>=◌, ◌>>◌,
  pure, call, note, halt,
}
use unix_net.CString.{mem}
use unix_net.Files.{overlay}
use unix_net.Wrap.{accept, bind, listen, socket}

-- The handler of SIGCHLD, which asks until `waitpid` fails.
unfoldable pub reap : Cmd (Unit {0})
reap [] log = blocked (Action.waitpid ∷ log)
reap (fail e ∷ w) log = ok tt w (Action.waitpid ∷ log)
reap (a ∷ w) log = reap w (Action.waitpid ∷ log)

-- The child's loop. It prints its array, which is read past the end where it has no zero.
unfoldable pub child_loop : ℕ → Bytes → Cmd (Unit {0})
child_loop fd buf [] log = blocked (Action.read fd 1024 ∷ log)
child_loop fd buf (fail e ∷ w) log = exited 0 (Action.close fd ∷ Action.read fd 1024 ∷ log)
child_loop fd buf (ret n ∷ w) log = exited 0 (Action.close fd ∷ Action.read fd 1024 ∷ log)
child_loop fd buf (bytes [] ∷ w) log = exited 0 (Action.close fd ∷ Action.read fd 1024 ∷ log)
child_loop fd buf (bytes (b ∷ bs) ∷ w) log =
    let rest =
      child_loop fd (overlay (b ∷ bs) buf) w
        (Action.write fd (b ∷ bs) ∷ Action.read fd 1024 ∷ log) in
    if mem 0 (overlay (b ∷ bs) buf) then rest else crashed (Action.read fd 1024 ∷ log)

unfoldable pub child : ℕ → ℕ → Cmd (Unit {0})
child sock_fd fd = do note (Action.close sock_fd); child_loop fd (replicate 1024 0)

-- Whether this is the parent, which goes on.
abbrev pub after_fork : ℕ → ℕ → Answer → Cmd Bool
after_fork sock_fd fd (fail e) = halt 255
after_fork sock_fd fd a =
    if value a == 0 then child sock_fd fd >> pure false else note (Action.close fd) >> pure true

unfoldable pub take_client : ℕ → Cmd Bool
take_client sock_fd = do fd ← accept sock_fd; pid ← call Action.fork; after_fork sock_fd fd pid

-- The parent over so many clients; then it waits for the next one.
unfoldable pub serve : ℕ → ℕ → Cmd (Unit {0})
serve sock_fd zero = do fd ← accept sock_fd; λ w log. blocked log
serve sock_fd (suc clients) = do
  parent ← take_client sock_fd
  if parent then serve sock_fd clients else pure tt

-- `main` over so many clients.
unfoldable pub main : ℕ → Cmd (Unit {0})
main clients = do
  sock_fd ← socket 2 1 0
  note (Action.inet_pton (codes "172.27.214.232"))
  bind sock_fd (172 ∷ 27 ∷ 214 ∷ 232 ∷ []) (31 ∷ 146 ∷ [])
  listen sock_fd 128
  serve sock_fd clients
