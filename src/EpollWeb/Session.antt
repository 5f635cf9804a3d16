-- ===== src/EpollWeb/Session.antt =====
-- What happens to WebServer/Epoll_Web/webServer.c while it runs: the reports of `epoll_wait`, the answers
-- of the system, and what the clients are to get.
pub mod Served
use unix_net.Common.{
  ℕ, ◌+◌, ◌<◌, ◌≡◌, refl, ap, ◌∙◌, sym, Bool, true, false, some, List, [], ◌∷◌, ◌++◌, Bytes, codes,
  ◌==◌, if◌then◌else◌, length, map, All, arith, append_assoc, append-nil, lt→ltb, Bool-cases, inl,
  inr,
}
use unix_net.Sys.{Answer, fail, ret, bytes, Action, Log, ok, blocked}
use unix_net.Files.{Files}
use unix_net.Wrap.{accept, listen, tcp4bind, network_order}
use unix_net.EpollWeb.Sent.{handed}
use unix_net.EpollWeb.Server.{
  Wait, failed, ready, add_client, handle_event, handle_events, main_loop, main,
}
use unix_net.EpollWeb.Request.{request_line}
use unix_net.EpollWeb.Answered.{Outcome, Holds, ends, given, response}
use unix_net.EpollWeb.Whole.{request_text, IsLine, handle_event-request}

-- One event of a report: a client comes and gets a descriptor; a client sends a request; it closes
-- its connection; or there is nothing to read.
pub data Turn : Type 0 where
  comes : (cfd : ℕ) → Turn
  asks : (fd : ℕ) (method name protocol more : Bytes) → Outcome → Turn
  leaves rests : (fd : ℕ) → Turn

-- A word of a request line.
pub record IsToken (word : Bytes) : Type 0 where
  pub not_empty : 0 < length word
  pub plain : All (λ b. ((b == b' ') ≡ false) × ((b == 0) ≡ false)) word

-- The request line fits into the line buffer, and the outcome is that of the files.
pub record IsRequest (files : Files) (lfd fd : ℕ) (method name protocol : Bytes) (o : Outcome)
    : Type 0 where
  pub client : (fd == lfd) ≡ false
  pub method_token : IsToken method
  pub name_token : IsToken name
  pub one_line : IsLine (request_line method name protocol)
  pub short : length (request_line method name protocol) < 1499
  pub outcome : Holds files method name o

abbrev pub IsTurn : Files → ℕ → Turn → Type 0
IsTurn files lfd (comes cfd) = Unit
IsTurn files lfd (asks fd method name protocol more o) =
    IsRequest files lfd fd method name protocol o
IsTurn files lfd (leaves fd) = (fd == lfd) ≡ false
IsTurn files lfd (rests fd) = Unit

-- What `epoll_wait` reports, and the answers of the system: behind the end of a stream the closed
-- descriptor is read once more, which fails.
abbrev pub event_of : ℕ → Turn → ℕ × Bool
event_of lfd (comes cfd) = (lfd, true)
event_of lfd (asks fd method name protocol more o) = (fd, true)
event_of lfd (leaves fd) = (fd, true)
event_of lfd (rests fd) = (fd, false)

abbrev pub turn_answers : Turn → List Answer → List Answer
turn_answers (comes cfd) w = ret cfd ∷ w
turn_answers (asks fd method name protocol more o) w =
    bytes (request_text method name protocol more) ∷ given o (ends o ∷ w)
turn_answers (leaves fd) w = bytes [] ∷ fail 9 ∷ w
turn_answers (rests fd) w = w

abbrev pub answers_of : List Turn → List Answer → List Answer
answers_of [] w = w
answers_of (turn ∷ turns) w = turn_answers turn (answers_of turns w)

-- What a descriptor is to be given: the responses to the requests that came on it, in order.
abbrev pub turn_response : ℕ → Turn → Bytes
turn_response x (asks fd method name protocol more o) = if fd == x then response name o else []
turn_response x _ = []

abbrev pub responses : ℕ → List Turn → Bytes
responses x [] = []
responses x (turn ∷ turns) = turn_response x turn ++ responses x turns

-- The returns of `epoll_wait`: a failure, or events.
pub data Report : Type 0 where
  none_ready : Report
  events : List Turn → Report

abbrev pub wait_of : ℕ → Report → Wait
wait_of lfd none_ready = failed
wait_of lfd (events turns) = ready (map (event_of lfd) turns)

abbrev pub turns_of : List Report → List Turn
turns_of [] = []
turns_of (none_ready ∷ reports) = turns_of reports
turns_of (events turns ∷ reports) = turns ++ turns_of reports
