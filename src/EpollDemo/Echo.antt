-- ===== src/EpollDemo/Echo.antt =====
-- WebServer/Epoll_Web/webdemo01.c.
use unix_net.Common.{ℕ, Bool, true, ◌&&◌, none, List, [], ◌∷◌, ◌==◌, if◌then◌else◌}
use unix_net.Sys.{fail, ok, blocked, eintr, Action, Cmd, ◌>>=◌, ◌>>◌, pure, note, halt}
use unix_net.Wrap.{ReadResult, got, failed, accept, listen, read, write, tcp4bind}
use unix_net.EpollWeb.Server.{Wait}
use unix_net.EpollDemo.{for_events, reports_loop}

unfoldable pub add_client : ℕ → Cmd (Unit {0})
add_client lfd = do cfd ← accept lfd; note (Action.epoll_add cfd 1)

-- A failed read is not told from data: its result -1 is passed on as the count of `Write`.
unfoldable pub write_minus_one : ℕ → Cmd (Unit {0})
write_minus_one fd [] log = blocked (Action.write_oversized fd ∷ log)
write_minus_one fd (fail e ∷ w) log =
    let again = write_minus_one fd w (Action.write_oversized fd ∷ log) in
    if e == eintr then again else ok tt w (Action.write_oversized fd ∷ log)
write_minus_one fd (a ∷ w) log = ok tt w (Action.write_oversized fd ∷ log)

abbrev pub after_read : ℕ → ReadResult → Cmd Bool
after_read fd (failed e) = do write_minus_one 1; write_minus_one fd; pure true
after_read fd (got []) = do note (Action.epoll_del fd); note (Action.close fd); pure true
after_read fd (got (b ∷ bs)) = do write 1 (b ∷ bs); write fd (b ∷ bs); pure true

unfoldable pub handle_event : ℕ → ℕ × Bool → Cmd Bool
handle_event lfd (fd, readable) =
    if fd == lfd && readable then (add_client lfd >> pure true) else read fd 1024 >>= after_read fd

unfoldable pub main : List Wait → Cmd (Unit {0})
main waits = do
  lfd ← tcp4bind 8888 none
  listen lfd 128
  note (Action.epoll_add lfd 1)
  reports_loop (halt 1) (for_events (handle_event lfd)) waits
