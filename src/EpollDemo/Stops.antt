-- ===== src/EpollDemo/Stops.antt =====
-- A report of the level triggered demo in which a client is gone.
use unix_net.Common.{ℕ, ◌≡◌, Bool, true, false, List, [], ◌∷◌, ◌++◌, Bytes, codes, ◌==◌, map, All}
use unix_net.Sys.{Answer, bytes, Action, Log, ok}
use unix_net.CString.{unterminated, until_zero}
use unix_net.EpollDemo.{for_events, client_close}
use unix_net.EpollDemo.Level.{handle_event}

-- A client that has sent something.
pub record Sender : Type 0 where
  pub fd : ℕ
  pub first : ℕ
  pub more : Bytes

abbrev pub text : Sender → Bytes
text c = c.first ∷ c.more

-- It is not the listening descriptor, and its text can be printed.
abbrev pub Printable : ℕ → Sender → Type 0
Printable lfd c = ((c.fd == lfd) ≡ false) × (unterminated 1024 (text c) ≡ false)

abbrev pub events : List Sender → List (ℕ × Bool)
events clients = map (λ c. (c.fd, true)) clients

abbrev pub arrived : List Sender → List Answer
arrived clients = map (λ c. bytes (text c)) clients

-- The log in which each of these clients was read, shown and answered.
abbrev pub answered : List Sender → Log → Log
answered [] log = log
answered (c ∷ clients) log = answered clients (
    Action.write c.fd (codes "serverReceived\n\0")
    ∷ Action.print (until_zero (text c) ++ codes "\n")
    ∷ Action.read c.fd 1024
    ∷ log)

-- The clients in front of one that is gone are shown and answered, that one is closed and taken
-- off the tree, and the events behind it are dropped: what their clients sent is not read.
pub for_events_gone :
    (lfd x : ℕ) (clients : List Sender) (later : List (ℕ × Bool)) (w : List Answer) (log : Log)
    → All (Printable lfd) clients
    → (x == lfd) ≡ false
    → for_events
        (handle_event lfd)
        (events clients ++ ((x, true) ∷ later))
        (arrived clients ++ (bytes [] ∷ w))
        log
      ≡ ok tt w (
          client_close
          ∷ Action.epoll_del x
          ∷ Action.close x
          ∷ Action.read x 1024
          ∷ answered clients log)
unfolding for_events handle_event
for_events_gone lfd x [] later w log fit other = rw other
for_events_gone lfd x (c ∷ clients) later w log fit other =
    rw (fit.0.0, fit.0.1) (for_events_gone lfd x clients later w _ fit.1 other)
