-- ===== src/EpollDemo.antt =====
-- The three smaller servers over `epoll`: EPollDemo/epoll水平触发/demo02.c (level triggered),
-- EPollDemo/epoll边缘触发/demo03.c (edge triggered) and WebServer/Epoll_Web/webdemo01.c. Here is
-- what they share: the loop of `main` over the reports, and the loop over the events of a report.
-- The line that names a new client is left out. Pipe is a demo that reads a pipe.
pub mod Level
pub mod Edge
pub mod Echo
pub mod Reads
pub mod Stops
pub mod Session
pub mod Pipe
use unix_net.Common.{ℕ, Bool, ◌&&◌, List, [], ◌∷◌, Bytes, codes, ◌==◌, if◌then◌else◌}
use unix_net.Sys.{Action, ok, blocked, Cmd, and_then, ◌>>=◌, ◌>>◌, pure, note}
use unix_net.EpollWeb.Server.{Wait, failed, ready}

-- The events of a report in turn, for as long as the body says to go on.
unfoldable pub for_events : (ℕ × Bool → Cmd Bool) → List (ℕ × Bool) → Cmd (Unit {0})
for_events body [] w log = ok tt w log
for_events body (event ∷ events) w log =
    let rest = for_events body events in
    and_then (body event w log) λ go. if go then rest else pure tt

-- `while (1)`, over what the calls of `epoll_wait` report in turn.
unfoldable pub reports_loop :
    Cmd (Unit {0}) → (List (ℕ × Bool) → Cmd (Unit {0})) → List Wait → Cmd (Unit {0})
reports_loop leave serve [] w log = blocked log
reports_loop leave serve (failed ∷ waits) w log = leave w log
reports_loop leave serve (ready events ∷ waits) w log =
    and_then (serve events w log) λ _. reports_loop leave serve waits

-- What is written when a client is gone: its text with the terminating zero.
abbrev pub client_close : Action
client_close = Action.write 0 (codes "client close\n\0")
