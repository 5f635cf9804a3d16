-- ===== src/Tests/Echoes.antt =====
-- The echo servers over poll, select and libevent at concrete inputs.
use unix_net.Common.{false, ◌==◌, map, ◌≡◌, refl, some, none, ℕ, List, [], ◌∷◌, codes, arith}
use unix_net.Sys.{Answer, ret, Log, blocked}
use unix_net.Sys.Trace.{written}
use unix_net.Poll as Poll
use unix_net.Poll.Served.{sends, leaves}
use unix_net.Poll.Served.Rounds.{Visit}
use unix_net.Poll.Served.Session as Polled
use unix_net.Poll.Served.Session.{main-visits}
use unix_net.EventTable as Echo
use unix_net.EventTable.Session as Callbacks
use unix_net.EventTable.Session.Run.{main-echoes}
use unix_net.Select as Pupil
use unix_net.Select.Teacher as Teacher
use unix_net.Select.Served as Watched
use unix_net.Select.Session as Watching
use unix_net.EventWeb.Session.{leaves}

-- A client comes; it sends two bytes while another comes.
abbrev first_visit : Visit
first_visit = record { newcomer = some 7; ready = λ i. false; conduct = λ i. leaves; nready = 1 }

abbrev second_visit : Visit
second_visit = record {
  newcomer = some 8;
  ready = λ i. i == 1;
  conduct = λ i. sends b'h' (codes "i");
  nready = 2;
}

abbrev visits : Polled.Visits Poll.initial
unfolding Poll.initial Poll.place
visits =
    Polled.visit first_visit refl (omega arith, omega arith)
      (Polled.visit second_visit refl (omega arith, omega arith) Polled.end)

main-visits_example :
    (log' : Log) × (Poll.main
        (Polled.reports_of visits)
        (ret 3 ∷ ret 0 ∷ ret 0 ∷ Polled.answers_of visits [])
        []
      ≡ blocked log')
    × ((x : ℕ) → written x log' ≡ Polled.echoes x visits)
main-visits_example = main-visits 3 visits []

-- A client comes; nothing is ready; it sends two bytes and then leaves. Then `select` fails.
abbrev watch_turns : List Watching.Turn
watch_turns =
    Watching.busy
      (record { newcomer = some 4; others = λ i. false; conduct = λ i. Watched.leaves; more = 0 })
    ∷ Watching.quiet (λ i. false)
    ∷ Watching.busy (record {
      newcomer = none;
      others = λ i. i == 4;
      conduct = λ i. Watched.sends b'h' (codes "i");
      more = 0;
    })
    ∷ Watching.busy
        (record { newcomer = none; others = λ i. i == 4; conduct = λ i. Watched.leaves; more = 0 })
    ∷ []

abbrev first_watch : Pupil.Watch
first_watch = record { old_set = λ i. i == 3; max_fd = 3 }

abbrev watch_answers : List Answer
watch_answers = ret 3 ∷ ret 0 ∷ ret 0 ∷ Watching.answers_of 3 first_watch watch_turns []

abbrev callbacks : List Callbacks.Turn
callbacks =
    Callbacks.comes 4 101
    ∷ Callbacks.comes 5 102
    ∷ Callbacks.sends 5 b'h' (codes "i")
    ∷ Callbacks.leaves 4
    ∷ []

main-echoes_example :
    (log' : Log) × (Echo.main
        (map Callbacks.ready_of callbacks)
        (ret 3 ∷ ret 0 ∷ ret 0 ∷ ret 100 ∷ Callbacks.answers_of callbacks [])
        []
      ≡ blocked log')
    × ((x : ℕ) → written x log' ≡ Callbacks.echoes x callbacks)
    × (Callbacks.removed log' ≡ Callbacks.removals ((3, 100) ∷ []) callbacks)
main-echoes_example =
    main-echoes 3 100 callbacks []
      (refl, omega arith, (refl, omega arith, (refl, ((λ p. ground (arith, p)), tt))))
