-- ===== src/EpollDemo/Edge.antt =====
-- EPollDemo/epoll边缘触发/demo03.c. The descriptors of the clients do not block, and a client's
-- event is handled by reading until there is nothing more.
use unix_net.Common.{ℕ, ◌+◌, ◌^◌, Bool, true, ◌&&◌, none, List, [], ◌∷◌, ◌==◌, if◌then◌else◌}
use unix_net.Sys.{fail, ret, bytes, Action, Log, ok, blocked, Cmd, ◌>>=◌, ◌>>◌, pure, note, eagain}
use unix_net.Files.{window}
use unix_net.Wrap.{accept, listen, tcp4bind}
use unix_net.EpollWeb.Server.{Wait}
use unix_net.EpollDemo.{for_events, reports_loop, client_close}

-- `EPOLLIN | EPOLLET`
abbrev pub edge : ℕ
edge = 1 + 2 ^ 31

unfoldable pub add_client : ℕ → Cmd (Unit {0})
add_client lfd = do
  cfd ← accept lfd
  note (Action.set_nonblock cfd)
  note (Action.epoll_add cfd edge)

-- The log of a client that is gone.
abbrev pub gone : ℕ → Log → Log
gone fd log = client_close ∷ Action.epoll_del fd ∷ Action.close fd ∷ log

-- The whole array is written whatever came. An error other than `EAGAIN` does not end the loop.
unfoldable pub read_loop : ℕ → Cmd (Unit {0})
read_loop fd [] log = blocked (Action.read fd 4 ∷ log)
read_loop fd (fail e ∷ w) log =
    let rest = read_loop fd w (Action.epoll_del fd ∷ Action.read fd 4 ∷ log) in
    if e == eagain then ok tt w (Action.read fd 4 ∷ log) else rest
read_loop fd (ret n ∷ w) log = ok tt w (gone fd (Action.read fd 4 ∷ log))
read_loop fd (bytes [] ∷ w) log = ok tt w (gone fd (Action.read fd 4 ∷ log))
read_loop fd (bytes (b ∷ bs) ∷ w) log =
    read_loop fd w (Action.write 0 (window 4 (b ∷ bs)) ∷ Action.read fd 4 ∷ log)

unfoldable pub handle_event : ℕ → ℕ × Bool → Cmd Bool
handle_event lfd (fd, readable) =
    if fd == lfd && readable
    then (add_client lfd >> pure true)
    else if readable
    then (read_loop fd >> pure true)
    else pure true

unfoldable pub main : List Wait → Cmd (Unit {0})
main waits = do
  lfd ← tcp4bind 8080 none
  listen lfd 128
  note (Action.epoll_add lfd 1)
  reports_loop (note (Action.epoll_del lfd)) (for_events (handle_event lfd)) waits
