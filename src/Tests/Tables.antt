-- ===== src/Tests/Tables.antt =====
-- The tables of the poll and libevent servers, and the message log, at concrete inputs.
use unix_net.Common.{
  ℕ, zero, suc, ◌≤◌, ◌<◌, ◌≡◌, ◌≢◌, refl, Bool, true, none, some, [], ◌∷◌, Bytes, codes, arith,
  ◌==◌, ◌||◌, get_elem?, false, List, ◌++◌, ◌+◌, length, map,
}
use unix_net.Sys.{Log, ret, bytes, Action, crashed}
use unix_net.Sys.Ensures.{Ensures}
use unix_net.Wrap.{accept}
use unix_net.Poll as Poll
use unix_net.Poll.Clients.{Step, initial-IsTable, round-Step}
use unix_net.EventTable as Table
use unix_net.EventTable.Usage.{Fills, dispatch-Fills}
use unix_net.EventTable.Session.{
  Turn, comes, Seen, event_of, IsRun, ready_of, answers_of, echoes, removals, seen_after, removed,
}
use unix_net.EventTable.Session.Late.{sends_all, late_client_crashes}
use unix_net.Sys.Trace.{written}
use unix_net.Select as Select
use unix_net.Select.Bounded.{IsWatch, rounds_of-IsWatch}
use unix_net.CString.Decimal.{decimal}
use unix_net.MessageLog as Message
use unix_net.MessageLog.{◌>>=◌}
use unix_net.MessageLog.Closed.{started, shut, msg_log_open-msg_log_close}

-- The listening descriptor is ready, and so is the first client.
abbrev ready : ℕ → Bool
ready i = i == 0 || i == 1

round-Step_example :
    Ensures
      (Step 7 (some 7) Poll.initial [])
      (Poll.round 3 2 ready Poll.initial (ret 7 ∷ bytes (codes "hi") ∷ ret 2 ∷ []) [])
unfolding accept
round-Step_example =
    round-Step 7 3 2 ready Poll.initial (ret 7 ∷ bytes (codes "hi") ∷ ret 2 ∷ []) [] (some 7)
      initial-IsTable (refl, (_, _, refl))

abbrev report : Poll.Report
report = record { nready = 2; revents = ready }

abbrev taken : Poll.Table
taken = record { slots = some 5 ∷ []; maxi = 1 }

none_free : (s : ℕ) → get_elem? taken.slots s ≢ some none
none_free zero p = ground arith
none_free (suc s) p = ground arith

-- An array with one element in use and one free.
abbrev half : Table.Events
half = Table.used 3 100 ∷ Table.unused ∷ []

dispatch-Fills_example :
    Ensures
      (λ arr' _. Fills 1 half arr')
      (Table.dispatch 3
        (Table.listening ∷ Table.client 4 ∷ [])
        half
        (ret 4 ∷ ret 101 ∷ bytes (codes "hi") ∷ ret 2 ∷ [])
        [])
dispatch-Fills_example =
    dispatch-Fills 3 (Table.listening ∷ Table.client 4 ∷ []) half
      (ret 4 ∷ ret 101 ∷ bytes (codes "hi") ∷ ret 2 ∷ []) []

-- So many clients come, with the descriptors from a number on.
abbrev fill : ℕ → ℕ → List Turn
fill zero i = []
fill (suc n) i = comes i i ∷ fill n (i + 1)

-- None of them has come yet.
abbrev IsNew : ℕ → Seen → Type 0
IsNew i seen = (x : ℕ) → i ≤ x → event_of x seen ≡ none

next-IsNew : (i ev : ℕ) (seen : Seen) → IsNew i seen → IsNew (i + 1) ((i, ev) ∷ seen)
next-IsNew i ev seen h x p =
    let other : (i == x) ≡ false = ground (arith, p) in rw other (h x (omega (arith, p)))

fill-IsRun : (n i : ℕ) (seen : Seen) → IsNew i seen → length seen + n ≤ 1024 → IsRun seen (fill n i)
fill-IsRun zero i seen h room = tt
fill-IsRun (suc n) i seen h room = (
  h i (omega arith),
  omega (arith, room),
  fill-IsRun n (i + 1) ((i, i) ∷ seen) (next-IsNew i i seen h) (omega (arith, room)),
)

fill-seen :
    (n i : ℕ) (seen : Seen)
    → IsNew i seen
    → (length (seen_after seen (fill n i)) ≡ length seen + n)
      × IsNew (i + n) (seen_after seen (fill n i))
fill-seen zero i seen h = (omega arith, λ x p. h x (omega (arith, p)))
fill-seen (suc n) i seen h =
    let (size, new) = fill-seen n (i + 1) ((i, i) ∷ seen) (next-IsNew i i seen h) in
    (omega (arith, size), λ x p. new x (omega (arith, p)))

first-IsNew : IsNew 4 ((3, 100) ∷ [])
first-IsNew x p = ground (arith, p)

-- Clients on 4 to 1026 fill the array; one more comes on 1027, sends two bytes and leaves.
late_client_crashes_example :
    let late = sends_all 1027 ((b'h', codes "i") ∷ []) in
    (log' : Log) × (Table.main
        (map ready_of (fill 1023 4)
          ++ (Table.listening ∷ (map ready_of late ++ (Table.client 1027 ∷ []))))
        (ret 3
          ∷ ret 0
          ∷ ret 0
          ∷ ret 100
          ∷ answers_of (fill 1023 4) (ret 1027 ∷ ret 7 ∷ answers_of late (bytes [] ∷ [])))
        []
      ≡ crashed (Action.read 1027 1500 ∷ log'))
    × ((x : ℕ) → written x log' ≡ echoes x (fill 1023 4) ++ echoes x late)
    × (removed log' ≡ removals ((3, 100) ∷ []) (fill 1023 4))
late_client_crashes_example =
    late_client_crashes 3 100 1027 7 (fill 1023 4) ((b'h', codes "i") ∷ []) (bytes []) [] []
      (fill-IsRun 1023 4 ((3, 100) ∷ []) first-IsNew (omega arith))
      (fill-seen 1023 4 ((3, 100) ∷ []) first-IsNew).0
      ((fill-seen 1023 4 ((3, 100) ∷ []) first-IsNew).1 1027 (omega arith)) (refl, tt) tt

abbrev host : Message.Host
host = record {
  strftime = λ format. codes "11-26";
  getpid = 42;
  fopen = λ name. true;
  fileno = λ name. 3;
}

abbrev live : Bytes → Message.Stream
live name = record { name = name; live = true }

abbrev open_log : Message.State
open_log = record {
  msgopt = 17;
  wanopt = 17;
  msgdatefmt = Message.default_format;
  wandatefmt = Message.default_format;
  ident_name = codes "demo";
  msgfile = some (live (codes "m"));
  wanfile = some (live (codes "w"));
  out = [];
}

abbrev closed_log : Message.State
closed_log = record open_log {
  msgfile = some (shut (live (codes "m")));
  wanfile = some (shut (live (codes "w")));
}

msg_log_open-msg_log_close_example :
    (Message.msg_log_open host (codes "demo") (codes "m") [] (codes "w") [] open_log
      ≡ some (
        record (started (codes "demo") open_log) {
          msgfile = some (live (codes "m"));
          wanfile = some (live (codes "w"));
          out =
              (
                Message.file (codes "m"),
                Message.log_line
                    (codes "11-26 demo [    42]")
                    (Message.opened_text host (live (codes "m")) (live (codes "w"))),
              )
              ∷ [];
        },
        true,
      ))
    × (Message.msg_log_close open_log ≡ some closed_log)
    × (Message.msg_log_open host (codes "demo") (codes "m") [] (codes "w") [] closed_log ≡ none)
unfolding Message.logprefix decimal
msg_log_open-msg_log_close_example =
    msg_log_open-msg_log_close host (codes "demo") (codes "m") [] (codes "w") []
      (codes "11-26 demo [    42]") open_log (live (codes "m")) (live (codes "w")) refl refl refl
      refl (omega arith) refl

abbrev watch : Select.Watch
watch = record { old_set = λ i. i == 3; max_fd = 3 }

only_three : (j : ℕ) → (j == 3) ≡ true → (j ≤ 3) × (j < 1024)
only_three j h = (ground (arith, h), ground (arith, h))

rounds_of-IsWatch_example :
    Ensures
      (λ t' log'.
        IsWatch 3 t'
        × (Select.rounds_of 3 (Select.ready 1 (λ i. i == 3) ∷ []) t' (ret 1024 ∷ []) log'
            ≡ crashed (Action.accept 3 ∷ log')))
      (Select.rounds_of 3
        (Select.ready 1 (λ i. i == 3) ∷ Select.ready 1 (λ i. i == 4) ∷ [])
        watch
        (ret 4 ∷ bytes (codes "hi") ∷ ret 2 ∷ [])
        [])
rounds_of-IsWatch_example =
    rounds_of-IsWatch 3 (Select.ready 1 (λ i. i == 3) ∷ Select.ready 1 (λ i. i == 4) ∷ []) watch
      (ret 4 ∷ bytes (codes "hi") ∷ ret 2 ∷ []) [] 1024 0 (λ i. i == 3) [] [] (only_three, refl)
      refl (omega arith)
