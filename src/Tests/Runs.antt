-- ===== src/Tests/Runs.antt =====
-- The web servers as whole programs at concrete inputs.
use unix_net.Common.{◌≡◌, refl, some, none, ℕ, List, [], ◌∷◌, codes, arith, if◌then◌else◌}
use unix_net.Sys.{ret, Log, exited}
use unix_net.Sys.Trace.{buffered, written}
use unix_net.CString.{equal}
use unix_net.Files.{Files, missing, regular}
use unix_net.EventWeb.Server as Server
use unix_net.EventWeb.Answered.{found, missed}
use unix_net.Poll.Served.{leaves}
use unix_net.EpollWeb.Server as Epoll
use unix_net.EpollDemo.Echo as Echo
use unix_net.EpollDemo.Session as Events
use unix_net.EpollDemo.Session.{main-rounds}
use unix_net.EpollWeb.Session as Reports
use unix_net.EpollWeb.Answered as Named
use unix_net.EventWeb.Session.{
  Turn, comes, asks, leaves, events_of, answers_of, responses, main-turns,
}

abbrev site : Files
site = record {
  stat = λ p. if equal p (codes "./a.txt") then regular 3 else missing;
  scandir = λ p. none;
}

-- Two clients, who come before either asks.
abbrev turns : List Turn
turns =
    comes 7 70
    ∷ comes 8 80
    ∷ asks 80 (codes "GET") (codes "/b") (codes "HTTP/1.1") (codes "\n") (missed 9 (codes "no"))
    ∷ asks 70 (codes "GET") (codes "/a.txt") (codes "HTTP/1.1") (codes "\n") (found 9 (codes "abc"))
    ∷ leaves 70
    ∷ []

main-turns_example :
    (log' : Log) × (Server.main site
        (some (codes "/srv"))
        (events_of turns)
        (ret 3 ∷ answers_of turns [])
        []
      ≡ exited 130 log')
    × ((x : ℕ) → buffered x log' ≡ responses x turns)
unfolding equal
main-turns_example = main-turns site (codes "/srv") turns 3 [] (omega arith) (
  tt,
  (
    tt,
    (
      record {
        method_word = record {
          not_empty = omega arith;
          is_word = ground arith;
          fits = omega arith;
        };
        path_word = record { not_empty = omega arith; is_word = ground arith; fits = omega arith };
        protocol_word = record {
          not_empty = omega arith;
          is_word = ground arith;
          fits = omega arith;
        };
        text_fits = omega arith;
        no_zero = ground arith;
        outcome = (refl, refl);
      },
      (
        record {
          method_word = record {
            not_empty = omega arith;
            is_word = ground arith;
            fits = omega arith;
          };
          path_word = record {
            not_empty = omega arith;
            is_word = ground arith;
            fits = omega arith;
          };
          protocol_word = record {
            not_empty = omega arith;
            is_word = ground arith;
            fits = omega arith;
          };
          text_fits = omega arith;
          no_zero = ground arith;
          outcome = (refl, refl);
        },
        (tt, tt),
      ),
    ),
  ),
)

-- A client comes; then a wait fails; then the client asks for a file, and another comes, and leaves.
abbrev reports : List Reports.Report
reports =
    Reports.events (Reports.comes 7 ∷ [])
    ∷ Reports.none_ready
    ∷ Reports.events (
        Reports.asks 7 (codes "GET") (codes "/b") (codes "HTTP/1.1\r") (codes "A: b\r\n")
          (Named.missed 9 (codes "no"))
        ∷ Reports.comes 8
        ∷ [])
    ∷ Reports.events (Reports.leaves 8 ∷ [])
    ∷ []

-- A client comes on 5; it sends three bytes while another comes on 6; then both leave. Then
-- `epoll_wait` fails.
abbrev rounds : List (List Events.Turn)
rounds =
    (Events.comes 5 ∷ [])
    ∷ (Events.sends 5 b'a' (codes "bc") ∷ Events.comes 6 ∷ [])
    ∷ (Events.leaves 6 ∷ Events.leaves 5 ∷ [])
    ∷ []

main-rounds_example :
    (log' : Log) × (Echo.main
        (Events.waits_of 3 rounds (some []))
        (ret 3 ∷ ret 0 ∷ ret 0 ∷ Events.all_answers rounds [])
        []
      ≡ Events.finish (some []) log')
    × ((x : ℕ) → written x log' ≡ Events.all_echoes x rounds)
    × (Events.ending_calls log' ≡ Events.all_farewells rounds)
main-rounds_example =
    main-rounds 3 rounds (some []) [] ((tt, tt), ((refl, (tt, tt)), ((refl, (refl, tt)), tt)))
