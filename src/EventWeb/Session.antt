-- ===== src/EventWeb/Session.antt =====
-- A whole run of WebServer/Libevent_Web/webServer.c, from its start to the interrupt signal.
use unix_net.Common.{
  arith, ℕ, ◌+◌, ◌<◌, ◌≡◌, refl, ap, ◌∙◌, sym, false, some, List, [], ◌∷◌, ◌++◌, Bytes, codes, ◌==◌,
  if◌then◌else◌, length, All, append_assoc, append-nil, lt→ltb,
}
use unix_net.Sys.{Answer, ret, bytes, Action, Log, ok, exited}
use unix_net.Sys.Trace.{buffered}
use unix_net.CString.{equal}
use unix_net.Files.{Files}
use unix_net.Files.Array.{NoZero}
use unix_net.BufferEcho.{Event, connection, readable, closed, interrupt, go_on, dispatch}
use unix_net.EventWeb.{processing_requests, read_cb}
use unix_net.EventWeb.Server.{listener_cb, callback, main}
use unix_net.EventWeb.Request.{IsWord, request, run_if, read_cb-request}
use unix_net.EventWeb.Answered.{Outcome, Holds, given, response, answered}
use unix_net.EventWeb.Gets.{Adds, Adds-nothing, Adds-then, Adds-silent}

-- What happens while the dispatcher runs: a client comes, and gets a buffered event; it sends a
-- request line; or it leaves.
pub data Turn : Type 0 where
  comes : (cfd bev : ℕ) → Turn
  asks : (bev : ℕ) (method path protocol rest : Bytes) → Outcome → Turn
  leaves : (bev : ℕ) → Turn

-- A word for an array of `size` bytes.
pub record IsField (size : ℕ) (word : Bytes) : Type 0 where
  pub not_empty : 0 < length word
  pub is_word : IsWord word
  pub fits : length word < size

-- The request fits into the read buffer and its words into their arrays, and the outcome is that
-- of the files.
pub record IsRequest (files : Files) (method path protocol rest : Bytes) (o : Outcome)
    : Type 0 where
  pub method_word : IsField 10 method
  pub path_word : IsField 256 path
  pub protocol_word : IsField 10 protocol
  pub text_fits : length (request method path protocol rest) < 256
  pub no_zero : NoZero (request method path protocol rest)
  pub outcome : Holds files method path o

abbrev pub IsTurn : Files → Turn → Type 0
IsTurn files (comes cfd bev) = Unit
IsTurn files (asks bev method path protocol rest o) = IsRequest files method path protocol rest o
IsTurn files (leaves bev) = Unit

-- The callbacks that libevent makes, and the answers of the system.
abbrev pub event_of : Turn → Event
event_of (comes cfd bev) = connection cfd
event_of (asks bev method path protocol rest o) = readable bev
event_of (leaves bev) = closed bev

abbrev pub events_of : List Turn → List Event
events_of [] = interrupt ∷ []
events_of (turn ∷ turns) = event_of turn ∷ events_of turns

abbrev pub turn_answers : Turn → List Answer → List Answer
turn_answers (comes cfd bev) w = ret bev ∷ w
turn_answers (asks bev method path protocol rest o) w =
    bytes (request method path protocol rest) ∷ bytes [] ∷ given path o w
turn_answers (leaves bev) w = w

abbrev pub answers_of : List Turn → List Answer → List Answer
answers_of [] w = w
answers_of (turn ∷ turns) w = turn_answers turn (answers_of turns w)

-- What a client's buffered event is to be given: the responses to its own requests, in order.
abbrev pub turn_response : ℕ → Turn → Bytes
turn_response x (asks bev method path protocol rest o) = if bev == x then response path o else []
turn_response x _ = []

abbrev pub responses : ℕ → List Turn → Bytes
responses x [] = []
responses x (turn ∷ turns) = turn_response x turn ++ responses x turns

-- The run of one turn adds to what the buffered events are given as the turn says.
record Gains (turn_text : ℕ → Bytes) (log log' : Log) : Type 0 where
  seen : (x : ℕ) → buffered x log' ≡ buffered x log ++ turn_text x

module _ (files : Files) where
  read_request :
      (bev : ℕ) (method path protocol rest : Bytes) (o : Outcome) (w : List Answer) (log : Log)
      → IsRequest files method path protocol rest o
      → (log' : Log) × (read_cb files bev
            (bytes (request method path protocol rest) ∷ bytes [] ∷ given path o w)
            log
          ≡ ok tt w log')
        × Adds bev (response path o) log log'
  read_request bev [] path protocol rest o w log h = absurd (omega (arith, h.method_word.not_empty))
  read_request bev (m ∷ method) [] protocol rest o w log h =
      absurd (omega (arith, h.path_word.not_empty))
  read_request bev (m ∷ method) (p ∷ path) [] rest o w log h =
      absurd (omega (arith, h.protocol_word.not_empty))
  read_request bev (m ∷ method) (p ∷ path) (q ∷ protocol) rest o w log h =
      let read_log = Action.bev_read bev 256 ∷ Action.bev_read bev 256 ∷ log in
      let (log', e, adds) = answered files bev (p ∷ path) w read_log (m ∷ method) o h.outcome in
      let reads =
        read_cb-request files bev (given (p ∷ path) o w) log m p q method path protocol rest
          h.method_word.is_word h.path_word.is_word h.protocol_word.is_word h.method_word.fits
          h.protocol_word.fits h.text_fits h.no_zero in
      (
        log',
        reads
            ∙ sym (
                run_if (equal (m ∷ method) (codes "GET")) (processing_requests files bev (p ∷ path))
                  (given (p ∷ path) o w) read_log)
            ∙ e,
        Adds-then (Adds-silent (Adds-nothing bev log) (λ x. append-nil _ ∙ append-nil _)) adds,
      )

  turn_lem :
      (turn : Turn) (w : List Answer) (log : Log)
      → IsTurn files turn
      → (log' : Log) × (callback files (event_of turn) (turn_answers turn w) log ≡ ok go_on w log')
        × Gains (λ x. turn_response x turn) log log'
  unfolding callback listener_cb
  turn_lem (comes cfd bev) w log h = (_, refl, record { seen = λ x. append-nil _ })
  turn_lem (leaves bev) w log h = (log, refl, record { seen = λ x. sym (append-nil _) })
  turn_lem (asks bev method path protocol rest o) w log h =
      let (log', e, adds) = read_request bev method path protocol rest o w log h in
      (log', rw e refl, record { seen = λ x. adds.seen x })

  dispatch-turns :
      (turns : List Turn) (w : List Answer) (log : Log)
      → All (IsTurn files) turns
      → (log' : Log) × (dispatch (callback files) false (events_of turns) (answers_of turns w) log
          ≡ exited 130 log')
        × Gains (λ x. responses x turns) log log'
  unfolding dispatch
  dispatch-turns [] w log h =
      (log, unfold callback in refl, record { seen = λ x. sym (append-nil _) })
  dispatch-turns (turn ∷ turns) w log h =
      let (log₁, e, one) = turn_lem turn (answers_of turns w) log h.0 in
      let (log₂, d, others) = dispatch-turns turns w log₁ h.1 in
      (
        log₂,
        rw e d,
        record {
          seen = λ x.
              others.seen x
              ∙ ap (λ t. t ++ responses x turns) (one.seen x)
              ∙ append_assoc (buffered x log) (turn_response x turn) (responses x turns);
        },
      )

  -- Started in a directory with a short enough name and given its listener, the server runs through
  -- any sequence of clients that come, send a request, or leave, until the interrupt signal ends
  -- it. A request comes in one read of fewer than 256 bytes with no zero, begins with three words
  -- that fit their arrays, and the files and pages that it leads to can be opened.
  -- `bufferevent_write` has then been called, for each client, with exactly the responses to its
  -- own requests, in order: a file's header and its first 5060 bytes, the error page behind its
  -- header, the list of a directory between its two pages, or nothing where the method is not GET.
  -- What libevent has passed on of it when the server frees the buffered event, right behind the
  -- response, is not said.
  pub main-turns :
      (pwd : Bytes) (turns : List Turn) (listener : ℕ) (w : List Answer)
      → length pwd + 8 < 256
      → All (IsTurn files) turns
      → (log' : Log) × (main files
            (some pwd)
            (events_of turns)
            (ret listener ∷ answers_of turns w)
            []
          ≡ exited 130 log')
        × ((x : ℕ) → buffered x log' ≡ responses x turns)
  unfolding main
  main-turns pwd turns listener w short h =
      let start =
        Action.listener_new 8889 ∷ Action.base_new ∷ Action.chdir (pwd ++ codes "/WebData") ∷ [] in
      let (log', e, all) = dispatch-turns turns w start h in
      (log', rw (lt→ltb _ _ short, e) refl, all.seen)
