-- ===== src/Tests/Demos.antt =====
-- The demos of epoll and select, and the programs that exchange messages, at concrete inputs.
use unix_net.Common.{
  ℕ, if◌then◌else◌, ◌==◌, Bool-cases, inl, inr, some, length, ◌≡◌, refl, true, false, List, [], ◌∷◌,
  ◌++◌, Bytes, codes, map, replicate, arith,
}
use unix_net.Sys.{Answer, fail, ret, bytes, Action, Log, ok, blocked, eagain}
use unix_net.Sys.Alike.{Alike}
use unix_net.Sys.Trace.{messages, printed, in_turn, buffered, written}
use unix_net.Select as Pupil
use unix_net.Select.Teacher as Teacher
use unix_net.Select.Same.{teacher_main-Alike}
use unix_net.EpollDemo.{for_events, client_close}
use unix_net.EpollDemo.Level as Level
use unix_net.EpollDemo.Edge as Edge
use unix_net.EpollDemo.Reads.{
  EndsWith, behind_end, read_loop_ends, Piece, arrivals, shown, read_loop-arrivals,
}
use unix_net.EpollDemo.Stops.{Sender, answered, events, arrived, for_events_gone}
use unix_net.Udp as Udp
use unix_net.Udp.Exchange as UdpLines
use unix_net.Udp.Exchange.{client_server_exchange}
use unix_net.LocalSocket as LocalSocket
use unix_net.LocalSocket.Exchange as SocketLines
use unix_net.LocalSocket.Exchange.{socket_exchange}
use unix_net.CString.{until_zero}
use unix_net.CString.Decimal.{decimal}
use unix_net.CString.Integer.{pos, negsuc, ◌+ℤ◌, ◌-ℤ◌}
use unix_net.BufferEcho.{dispatch}
use unix_net.BufferEcho.Hello as Hello
use unix_net.BufferEcho.Welcome as Welcome
use unix_net.BufferEcho.Interleaved.{
  Arrival, events_of, answers_of, from_client, dispatch_interleaved,
}
use unix_net.EventTable.{init_event_arr}
use unix_net.EventTable.Refines.{add, get, replies, expected, replies-init_event_arr}
use unix_net.Cgi as Cgi
use unix_net.Cgi.Query as Query
use unix_net.Cgi.Same.{query_main-body_main}
use unix_net.Cgi.Answers.{body, answered as answered_with, main-body}
use unix_net.Select.Served.{Conduct, sends, leaves, IsPlain}

abbrev answers : List Answer
answers = ret 3 ∷ ret 0 ∷ ret 0 ∷ ret 5 ∷ bytes (codes "abc") ∷ bytes [] ∷ []

read_loop_ends_example :
    EndsWith
      (behind_end (bytes (codes "abcd") ∷ fail 5 ∷ fail 11 ∷ ret 9 ∷ []))
      (Edge.read_loop 5 (bytes (codes "abcd") ∷ fail 5 ∷ fail 11 ∷ ret 9 ∷ []) [])
read_loop_ends_example = read_loop_ends 5 (bytes (codes "abcd") ∷ fail 5 ∷ fail 11 ∷ ret 9 ∷ []) []

abbrev pieces : List Piece
pieces = (b'a', codes "bcd") ∷ (b'e', []) ∷ []

read_loop-arrivals_example :
    (log' : Log) × (written 0 log' ≡ [] ++ shown pieces)
    × (Edge.read_loop 5 (arrivals pieces ++ (fail eagain ∷ [])) []
        ≡ ok tt [] (Action.read 5 4 ∷ log'))
    × (Edge.read_loop 5 (arrivals pieces ++ (bytes [] ∷ [])) []
        ≡ ok tt [] (Edge.gone 5 (Action.read 5 4 ∷ log')))
read_loop-arrivals_example = read_loop-arrivals 5 pieces [] []

abbrev senders : List Sender
senders = record { fd = 5; first = b'h'; more = codes "i" } ∷ []

for_events_gone_example :
    for_events
      (Level.handle_event 3)
      (events senders ++ ((6, true) ∷ (7, true) ∷ []))
      (arrived senders ++ (bytes [] ∷ bytes (codes "x") ∷ []))
      []
    ≡ ok tt (bytes (codes "x") ∷ []) (
        client_close
        ∷ Action.epoll_del 6
        ∷ Action.close 6
        ∷ Action.read 6 1024
        ∷ answered senders [])
for_events_gone_example =
    for_events_gone 3 6 senders ((7, true) ∷ []) (bytes (codes "x") ∷ []) [] ((refl, refl), tt) refl

-- The listening descriptor and then the client are ready.
abbrev reports : List Pupil.Report
reports = Pupil.ready 1 (λ i. true) ∷ Pupil.ready 1 (λ i. false) ∷ Pupil.failure ∷ []

teacher_main-Alike_example : Alike (Teacher.main reports answers []) (Pupil.main reports answers [])
teacher_main-Alike_example = teacher_main-Alike reports answers

abbrev lines : List Bytes
lines = codes "long line" ∷ codes "short" ∷ []

client_server_exchange_example :
    (server_log : Log) × (client_log : Log) × (Udp.serve_loop 3 (map bytes (messages client_log)) []
      ≡ blocked server_log)
    × (Udp.client_loop 4 (replicate 1024 0) (in_turn lines (messages server_log)) []
        ≡ blocked client_log)
    × (messages client_log ≡ lines)
    × (printed client_log ≡ UdpLines.shown lines)
client_server_exchange_example = client_server_exchange 3 4 lines (
  (omega arith, (refl, (refl, (refl, (refl, (refl, (refl, (refl, (refl, (refl, tt)))))))))),
  ((omega arith, (refl, (refl, (refl, (refl, (refl, tt)))))), tt),
)

abbrev texts : List SocketLines.Line
texts = (b'h', codes "i") ∷ (b'!', []) ∷ []

socket_exchange_example :
    (server_log : Log) × (client_log : Log) × (LocalSocket.serve_loop 3
        (map bytes (messages client_log))
        []
      ≡ blocked server_log)
    × (LocalSocket.client_loop 4 (in_turn (map SocketLines.text texts) (messages server_log)) []
        ≡ blocked client_log)
    × (messages client_log ≡ SocketLines.sent_arrays texts)
    × (messages server_log ≡ map SocketLines.text texts)
    × (printed client_log ≡ SocketLines.shown texts)
socket_exchange_example =
    socket_exchange 3 4 texts ((omega arith, (refl, (refl, tt))), ((omega arith, (refl, tt)), tt))

-- Two clients whose bytes come in turn; one sends a zero.
abbrev arrivals_of_two : List Arrival
arrivals_of_two = (5, codes "ab") ∷ (6, codes "x\0y") ∷ (5, codes "c") ∷ []

dispatch_interleaved_example :
    (hello_log : Log) × (welcome_log : Log) × (dispatch Hello.callback false
        (events_of arrivals_of_two)
        (answers_of arrivals_of_two)
        []
      ≡ blocked hello_log)
    × (dispatch Welcome.callback false (events_of arrivals_of_two) (answers_of arrivals_of_two) []
        ≡ blocked welcome_log)
    × (buffered 6 hello_log ≡ [] ++ from_client (λ bs. bs) 6 arrivals_of_two)
    × (buffered 6 welcome_log ≡ [] ++ from_client until_zero 6 arrivals_of_two)
dispatch_interleaved_example = dispatch_interleaved 6 arrivals_of_two [] (refl, (refl, (refl, tt)))

replies-init_event_arr_example :
    replies (add 7 101 ∷ get 7 ∷ add 7 102 ∷ get 7 ∷ get 8 ∷ []) init_event_arr
    ≡ expected (add 7 101 ∷ get 7 ∷ add 7 102 ∷ get 7 ∷ get 8 ∷ []) []
replies-init_event_arr_example =
    replies-init_event_arr (add 7 101 ∷ get 7 ∷ add 7 102 ∷ get 7 ∷ get 8 ∷ [])

main-body_example :
    (Cgi.main
        (some (decimal (length (body (pos 12) b'+' (negsuc 29)))))
        (body (pos 12) b'+' (negsuc 29) ++ codes "&")
        []
        []
      ≡ ok tt [] (answered_with (pos 12 +ℤ negsuc 29) []))
    × (Cgi.main
          (some (decimal (length (body (pos 12) b'-' (negsuc 29)))))
          (body (pos 12) b'-' (negsuc 29) ++ codes "&")
          []
          []
        ≡ ok tt [] (answered_with (pos 12 -ℤ negsuc 29) []))
unfolding ◌+ℤ◌ ◌-ℤ◌
main-body_example = main-body (pos 12) (negsuc 29) (codes "&") [] [] refl refl refl refl

-- Of the descriptors 4 to 6, the first sends, the second is not ready and the third is gone.
abbrev third_gone : ℕ → Conduct
third_gone j = if j == 6 then leaves else sends b'h' (codes "i")

third_gone-IsPlain : (j : ℕ) → IsPlain (third_gone j)
third_gone-IsPlain j = elim (Bool-cases (j == 6)) [ inl p ↦ rw p tt | inr p ↦ rw p refl ]

query_main-body_main_example :
    Query.main (some (codes "7-9")) [] []
    ≡ Cgi.main (some (decimal (length (codes "7-9")))) (codes "7-9" ++ codes "\n") [] []
query_main-body_main_example =
    query_main-body_main (codes "7-9") (codes "\n") [] [] (ground arith) (omega arith)
