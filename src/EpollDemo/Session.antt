-- ===== src/EpollDemo/Session.antt =====
-- A whole run of WebServer/Epoll_Web/webdemo01.c.
use unix_net.Common.{
  ℕ, ◌≡◌, refl, sym, ap, ◌∙◌, append_assoc, append-nil, Bool, true, false, Option, none, some, List,
  [], ◌∷◌, ◌++◌, Bytes, map, ◌==◌, if◌then◌else◌, length, All, arith,
}
use unix_net.Sys.{Answer, ret, bytes, Action, Log, Run, ok, exited, blocked, halt}
use unix_net.Sys.Trace.{written}
use unix_net.Wrap.{accept, listen, read, write, tcp4bind, network_order}
use unix_net.EpollWeb.Server.{Wait, failed, ready}
use unix_net.EpollDemo.{for_events, reports_loop}
use unix_net.EpollDemo.Echo.{add_client, handle_event, main}

-- An event of a report: a client comes and gets a descriptor, one sends something, or one leaves.
pub data Turn : Type 0 where
  comes : (cfd : ℕ) → Turn
  sends : (fd b : ℕ) → Bytes → Turn
  leaves : (fd : ℕ) → Turn

-- A client's descriptor is not the listening one.
abbrev pub IsTurn : ℕ → Turn → Type 0
IsTurn lfd (comes cfd) = Unit
IsTurn lfd (sends fd b bs) = (fd == lfd) ≡ false
IsTurn lfd (leaves fd) = (fd == lfd) ≡ false

abbrev pub event_of : ℕ → Turn → ℕ × Bool
event_of lfd (comes cfd) = (lfd, true)
event_of lfd (sends fd b bs) = (fd, true)
event_of lfd (leaves fd) = (fd, true)

-- The answers of the system, where each write takes all.
abbrev pub answers_of : List Turn → List Answer → List Answer
answers_of [] w = w
answers_of (comes cfd ∷ turns) w = ret cfd ∷ answers_of turns w
answers_of (sends fd b bs ∷ turns) w =
    bytes (b ∷ bs) ∷ ret (length (b ∷ bs)) ∷ ret (length (b ∷ bs)) ∷ answers_of turns w
answers_of (leaves fd ∷ turns) w = bytes [] ∷ answers_of turns w

abbrev pub all_answers : List (List Turn) → List Answer → List Answer
all_answers [] w = w
all_answers (turns ∷ rounds) w = answers_of turns (all_answers rounds w)

-- How the reports end: the server waits for another one, or `epoll_wait` fails and others are never
-- asked for.
abbrev pub Ending : Type 0
Ending = Option (List Wait)

abbrev pub last_waits : Ending → List Wait
last_waits none = []
last_waits (some more) = failed ∷ more

abbrev pub waits_of : ℕ → List (List Turn) → Ending → List Wait
waits_of lfd [] ending = last_waits ending
waits_of lfd (turns ∷ rounds) ending = ready (map (event_of lfd) turns) ∷ waits_of lfd rounds ending

abbrev pub finish : Ending → Log → Run (Unit {0})
finish none log = blocked log
finish (some more) log = exited 1 log

-- What a descriptor is to be written: what came on it, and on the standard output, which is 1, what
-- came on any.
abbrev pub turn_echo : ℕ → Turn → Bytes
turn_echo x (sends fd b bs) = (if 1 == x then b ∷ bs else []) ++ (if fd == x then b ∷ bs else [])
turn_echo x _ = []

abbrev pub echoes : ℕ → List Turn → Bytes
echoes x [] = []
echoes x (turn ∷ turns) = turn_echo x turn ++ echoes x turns

abbrev pub all_echoes : ℕ → List (List Turn) → Bytes
all_echoes x [] = []
all_echoes x (turns ∷ rounds) = echoes x turns ++ all_echoes x rounds

-- The calls that take a descriptor off the tree or close it, in order.
abbrev pub ending_call : Action → List Action
ending_call (Action.epoll_del fd) = Action.epoll_del fd ∷ []
ending_call (Action.close fd) = Action.close fd ∷ []
ending_call _ = []

abbrev pub ending_calls : Log → List Action
ending_calls [] = []
ending_calls (act ∷ log) = ending_calls log ++ ending_call act

-- For each client that leaves, in order: it is taken off the tree, and then closed.
abbrev pub farewells : List Turn → List Action
farewells [] = []
farewells (leaves fd ∷ turns) = Action.epoll_del fd ∷ Action.close fd ∷ farewells turns
farewells (_ ∷ turns) = farewells turns

abbrev pub all_farewells : List (List Turn) → List Action
all_farewells [] = []
all_farewells (turns ∷ rounds) = farewells turns ++ all_farewells rounds

record Did (text : ℕ → Bytes) (calls : List Action) (log log' : Log) : Type 0 where
  echoed : (x : ℕ) → written x log' ≡ written x log ++ text x
  ended : ending_calls log' ≡ ending_calls log ++ calls

Did-none : (log : Log) → Did (λ x. []) [] log log
Did-none log = record { echoed = λ x. sym (append-nil _); ended = sym (append-nil _) }

Did-then :
    {s t : ℕ → Bytes} {c d : List Action} {log log' log'' : Log}
    → Did s c log log'
    → Did t d log' log''
    → Did (λ x. s x ++ t x) (c ++ d) log log''
Did-then {s} {t} {c} {d} {log} h k = record {
  echoed =
      λ x. k.echoed x ∙ ap (λ u. u ++ t x) (h.echoed x) ∙ append_assoc (written x log) (s x) (t x);
  ended = k.ended ∙ ap (λ u. u ++ d) h.ended ∙ append_assoc (ending_calls log) c d;
}

module _ (lfd : ℕ) where
  for_events-turns :
      (turns : List Turn) (w : List Answer) (log : Log)
      → All (IsTurn lfd) turns
      → (log' : Log) × (for_events
            (handle_event lfd)
            (map (event_of lfd) turns)
            (answers_of turns w)
            log
          ≡ ok tt w log')
        × Did (λ x. echoes x turns) (farewells turns) log log'
  unfolding for_events handle_event add_client accept read write
  for_events-turns [] w log h = (log, refl, Did-none log)
  for_events-turns (comes cfd ∷ turns) w log h =
      let same : (lfd == lfd) ≡ true = ground arith in
      let (log', e, did) =
        for_events-turns turns w (Action.epoll_add cfd 1 ∷ Action.accept lfd ∷ log) h.1 in
      (
        log',
        rw same e,
        record {
          echoed = λ x. did.echoed x ∙ simp append-nil;
          ended = did.ended ∙ simp append-nil;
        },
      )
  for_events-turns (sends fd b bs ∷ turns) w log h =
      let (log', e, did) =
        for_events-turns turns w
          (Action.write fd (b ∷ bs) ∷ Action.write 1 (b ∷ bs) ∷ Action.read fd 1024 ∷ log) h.1 in
      (
        log',
        rw h.0 e,
        record {
          echoed = λ x. did.echoed x ∙ simp (append-nil, append_assoc);
          ended = did.ended ∙ simp append-nil;
        },
      )
  for_events-turns (leaves fd ∷ turns) w log h =
      let (log', e, did) =
        for_events-turns turns w (Action.close fd ∷ Action.epoll_del fd ∷ Action.read fd 1024 ∷ log)
          h.1 in
      (
        log',
        rw h.0 e,
        record {
          echoed = λ x. did.echoed x ∙ simp append-nil;
          ended = did.ended ∙ simp (append-nil, append_assoc);
        },
      )

  reports_loop-rounds :
      (rounds : List (List Turn)) (ending : Ending) (w : List Answer) (log : Log)
      → All (All (IsTurn lfd)) rounds
      → (log' : Log) × (reports_loop
            (halt 1)
            (for_events (handle_event lfd))
            (waits_of lfd rounds ending)
            (all_answers rounds w)
            log
          ≡ finish ending log')
        × Did (λ x. all_echoes x rounds) (all_farewells rounds) log log'
  unfolding reports_loop
  reports_loop-rounds [] none w log h = (log, refl, Did-none log)
  reports_loop-rounds [] (some more) w log h = (log, refl, Did-none log)
  reports_loop-rounds (turns ∷ rounds) ending w log h =
      let (log₁, e, one) = for_events-turns turns (all_answers rounds w) log h.0 in
      let (log₂, d, others) = reports_loop-rounds rounds ending w log₁ h.1 in
      (log₂, rw e d, Did-then one others)

-- Once its socket is bound and listening, the server goes through any reports of `epoll_wait`, each
-- with any events in which clients come, send something, or leave, where each write takes all. Then
-- it waits for another report, or ends with status 1 if `epoll_wait` fails, with nothing read of
-- what would come behind. Each descriptor has been written exactly what came on it, in order,
-- and the standard output what came on any; and the only descriptors that were closed or taken off
-- the tree are those of the clients that left, in their order, each taken off once and then closed.
pub main-rounds :
    (lfd : ℕ) (rounds : List (List Turn)) (ending : Ending) (w : List Answer)
    → All (All (IsTurn lfd)) rounds
    → (log' : Log) × (main
          (waits_of lfd rounds ending)
          (ret lfd ∷ ret 0 ∷ ret 0 ∷ all_answers rounds w)
          []
        ≡ finish ending log')
      × ((x : ℕ) → written x log' ≡ all_echoes x rounds)
      × (ending_calls log' ≡ all_farewells rounds)
unfolding main tcp4bind listen
main-rounds lfd rounds ending w h =
    let start =
      Action.epoll_add lfd 1
      ∷ Action.listen lfd 128
      ∷ Action.bind lfd (0 ∷ 0 ∷ 0 ∷ 0 ∷ []) (network_order 8888)
      ∷ Action.reuse_addr lfd
      ∷ Action.socket 2 1 0
      ∷ [] in
    let (log', e, did) = reports_loop-rounds lfd rounds ending w start h in
    (log', e, did.echoed, did.ended)
