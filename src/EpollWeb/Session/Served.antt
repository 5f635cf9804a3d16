-- ===== src/EpollWeb/Session/Served.antt =====
-- A whole run of WebServer/Epoll_Web/webServer.c over what `epoll_wait` reports.
use unix_net.Common.{ℕ, ◌≡◌, ◌++◌, Bytes}
use unix_net.Sys.{Log}
use unix_net.Files.{Files}
use unix_net.EpollWeb.Sent.{handed}

-- The run of some turns adds to what each descriptor gets as the turns say.
record Gains (text : ℕ → Bytes) (log log' : Log) : Type 0 where
  seen : (x : ℕ) → handed x log' ≡ handed x log ++ text x
