-- ===== src/BufferEcho/Interleaved.antt =====
-- The two echo servers over buffered events, with clients whose bytes come in any order.
use unix_net.Common.{
  ℕ, ◌≡◌, refl, ◌∙◌, false, List, [], ◌∷◌, ◌++◌, Bytes, codes, ◌==◌, if◌then◌else◌, append_assoc,
  append-nil, map, All, sym,
}
use unix_net.Sys.{Answer, bytes, Action, Log, blocked}
use unix_net.Sys.Trace.{buffered}
use unix_net.CString.{unterminated, until_zero}
use unix_net.BufferEcho.{Event, readable, dispatch}
use unix_net.BufferEcho.Hello as Hello
use unix_net.BufferEcho.Welcome as Welcome

-- Bytes that come on a client, so few that the array ends with a zero, or with a zero in them.
abbrev pub Arrival : Type 0
Arrival = ℕ × Bytes

abbrev pub IsPrintable : Arrival → Type 0
IsPrintable (bev, bs) = unterminated 1500 bs ≡ false

abbrev pub events_of : List Arrival → List Event
events_of arrivals = map (λ a. readable a.0) arrivals

abbrev pub answers_of : List Arrival → List Answer
answers_of arrivals = map (λ a. bytes a.1) arrivals

-- What one client's arrivals give, each through `f`.
abbrev pub from_client : (Bytes → Bytes) → ℕ → List Arrival → Bytes
from_client f x [] = []
from_client f x ((bev, bs) ∷ arrivals) = (if bev == x then f bs else []) ++ from_client f x arrivals

-- The log of a server that prints behind a label and sends back.
abbrev echoed : (Bytes → Bytes) → Bytes → List Arrival → Log → Log
echoed f label [] log = log
echoed f label ((bev, bs) ∷ arrivals) log = echoed f label arrivals (
    Action.bev_write bev (f bs)
    ∷ Action.print (label ++ (until_zero bs ++ codes "\n"))
    ∷ Action.bev_read bev 1500
    ∷ log)

buffered-echoed :
    (f : Bytes → Bytes) (label : Bytes) (x : ℕ) (arrivals : List Arrival) (log : Log)
    → buffered x (echoed f label arrivals log) ≡ buffered x log ++ from_client f x arrivals
buffered-echoed f label x [] log = sym (append-nil _)
buffered-echoed f label x ((bev, bs) ∷ arrivals) log =
    buffered-echoed f label x arrivals _ ∙ simp (append_assoc, append-nil)

hello_dispatch :
    (arrivals : List Arrival) (log : Log)
    → All IsPrintable arrivals
    → dispatch Hello.callback false (events_of arrivals) (answers_of arrivals) log
      ≡ blocked (echoed (λ bs. bs) Hello.arrived arrivals log)
unfolding dispatch Hello.callback Hello.read_cb
hello_dispatch [] log h = refl
hello_dispatch ((bev, bs) ∷ arrivals) log h = rw h.0 (hello_dispatch arrivals _ h.1)

welcome_dispatch :
    (arrivals : List Arrival) (log : Log)
    → All IsPrintable arrivals
    → dispatch Welcome.callback false (events_of arrivals) (answers_of arrivals) log
      ≡ blocked (echoed until_zero Welcome.from_client arrivals log)
unfolding dispatch Welcome.callback Welcome.readcb
welcome_dispatch [] log h = refl
welcome_dispatch ((bev, bs) ∷ arrivals) log h = rw h.0 (welcome_dispatch arrivals _ h.1)

-- Bytes come on any clients in any order, where each arrival is shorter than the array of 1500
-- bytes or has a zero among them: helloworld-change gives the buffered event of each client all the
-- bytes that came on it, in order and nothing of another's, and myWwriteDemo of each arrival the
-- bytes up to its first zero. Both then wait for more.
pub dispatch_interleaved :
    (x : ℕ) (arrivals : List Arrival) (log : Log)
    → All IsPrintable arrivals
    → (hello_log : Log) × (welcome_log : Log) × (dispatch Hello.callback false
          (events_of arrivals)
          (answers_of arrivals)
          log
        ≡ blocked hello_log)
      × (dispatch Welcome.callback false (events_of arrivals) (answers_of arrivals) log
          ≡ blocked welcome_log)
      × (buffered x hello_log ≡ buffered x log ++ from_client (λ bs. bs) x arrivals)
      × (buffered x welcome_log ≡ buffered x log ++ from_client until_zero x arrivals)
dispatch_interleaved x arrivals log h = (
  echoed (λ bs. bs) Hello.arrived arrivals log,
  echoed until_zero Welcome.from_client arrivals log,
  hello_dispatch arrivals log h,
  welcome_dispatch arrivals log h,
  buffered-echoed (λ bs. bs) Hello.arrived x arrivals log,
  buffered-echoed until_zero Welcome.from_client x arrivals log,
)
