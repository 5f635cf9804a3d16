-- ===== src/EpollDemo/Level.antt =====
-- EPollDemo/epoll水平触发/demo02.c.
use unix_net.Common.{
  ℕ, Bool, true, false, ◌&&◌, none, List, [], ◌∷◌, ◌++◌, Bytes, codes, ◌==◌, if◌then◌else◌,
}
use unix_net.Sys.{Answer, fail, Action, Cmd, ◌>>=◌, ◌>>◌, pure, call, note, crash}
use unix_net.CString.{unterminated, until_zero}
use unix_net.Wrap.{accept, listen, stored, tcp4bind}
use unix_net.EpollWeb.Server.{Wait}
use unix_net.EpollDemo.{for_events, reports_loop, client_close}

unfoldable pub add_client : ℕ → Cmd (Unit {0})
add_client lfd = do cfd ← accept lfd; note (Action.epoll_add cfd 1)

-- A client that is gone is the last one served of its report.
abbrev pub after_stored : ℕ → Bytes → Cmd Bool
after_stored fd [] = do
  note (Action.close fd)
  note (Action.epoll_del fd)
  note client_close
  pure false
after_stored fd (b ∷ bs) = if unterminated 1024 (b ∷ bs) then crash else (do
  note (Action.print (until_zero (b ∷ bs) ++ codes "\n"))
  note (Action.write fd (codes "serverReceived\n\0"))
  pure true)

abbrev pub after_read : ℕ → Answer → Cmd Bool
after_read fd (fail e) = do note (Action.epoll_del fd); pure true
after_read fd a = after_stored fd (stored a)

unfoldable pub handle_event : ℕ → ℕ × Bool → Cmd Bool
handle_event lfd (fd, readable) =
    if fd == lfd && readable
    then (add_client lfd >> pure true)
    else if readable
    then call (Action.read fd 1024) >>= after_read fd
    else pure true

unfoldable pub main : List Wait → Cmd (Unit {0})
main waits = do
  lfd ← tcp4bind 8080 none
  listen lfd 128
  note (Action.epoll_add lfd 1)
  reports_loop (note (Action.epoll_del lfd)) (for_events (handle_event lfd)) waits
