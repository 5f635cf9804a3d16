-- ===== src/EventTable/Session/Late.antt =====
-- A client of Libevent/libeventServer.c that comes when the array is full.
use unix_net.Common.{
  ℕ, ◌≡◌, refl, ap, ◌∙◌, append-nil, false, none, List, [], ◌∷◌, ◌++◌, Bytes, All, map, arith,
  length, ◌==◌,
}
use unix_net.Sys.{Answer, fail, ret, bytes, Action, Log, crashed, eintr}
use unix_net.Sys.Trace.{written}
use unix_net.CString.{unterminated}
use unix_net.Wrap.{accept, read, tcp4bind, listen, network_order}
use unix_net.EventTable.{
  Events, init_event_arr, add_event, added, cfdcb, lfdcb, Ready, listening, client, dispatch, main,
}
use unix_net.EventTable.Usage.{free, add_event_full}
use unix_net.EventTable.Session.{
  Turn, sends, Seen, event_of, IsRun, ready_of, answers_of, echoes, removals, seen_after, removed,
}
use unix_net.EventTable.Session.Run.{Holds, dispatch-run, init-Holds, comes-Holds}

-- What the read of a client gives that leaves, or whose connection breaks.
abbrev pub IsGone : Answer → Type 0
IsGone (bytes []) = Unit
IsGone (fail e) = (e == eintr) ≡ false
IsGone _ = ⊥

-- Texts, by the first byte and the others, as what a client sends.
abbrev pub Texts : Type 0
Texts = List (ℕ × Bytes)

abbrev pub IsPlain : ℕ × Bytes → Type 0
IsPlain (b, bs) = unterminated 1500 (b ∷ bs) ≡ false

abbrev pub sends_all : ℕ → Texts → List Turn
sends_all cfd [] = []
sends_all cfd ((b, bs) ∷ texts) = sends cfd b bs ∷ sends_all cfd texts

sends_all-IsRun :
    (cfd : ℕ) (seen : Seen) (texts : Texts) → All IsPlain texts → IsRun seen (sends_all cfd texts)
sends_all-IsRun cfd seen [] h = tt
sends_all-IsRun cfd seen ((b, bs) ∷ texts) h = (h.0, sends_all-IsRun cfd seen texts h.1)

sends_all-seen :
    (cfd : ℕ) (seen : Seen) (texts : Texts)
    → (seen_after seen (sends_all cfd texts) ≡ seen) × (removals seen (sends_all cfd texts) ≡ [])
sends_all-seen cfd seen [] = (refl, refl)
sends_all-seen cfd seen ((b, bs) ∷ texts) = sends_all-seen cfd seen texts

-- The callback of a client that is gone, where the array has no element for it.
gone_crashes :
    (lfd cfd : ℕ) (seen : Seen) (arr : Events) (last : Answer) (ready : List Ready)
    (w : List Answer) (log : Log)
    → Holds seen arr
    → event_of cfd seen ≡ none
    → IsGone last
    → dispatch lfd (client cfd ∷ ready) arr (last ∷ w) log ≡ crashed (Action.read cfd 1500 ∷ log)
unfolding dispatch cfdcb read
gone_crashes lfd cfd seen arr (bytes []) ready w log h fresh gone = rw (h.finds cfd, fresh) refl
gone_crashes lfd cfd seen arr (fail e) ready w log h fresh gone = rw (gone, h.finds cfd, fresh) refl
gone_crashes lfd cfd seen arr (bytes (b ∷ bs)) ready w log h fresh gone = absurd gone
gone_crashes lfd cfd seen arr (ret n) ready w log h fresh gone = absurd gone

-- A new client when the array is full changes nothing in it.
late_comes :
    (lfd cfd ev : ℕ) (more : List Ready) (arr : Events) (w : List Answer) (log : Log)
    → free arr ≡ 0
    → dispatch lfd (listening ∷ more) arr (ret cfd ∷ ret ev ∷ w) log
      ≡ dispatch lfd more arr w
          (Action.event_add ev ∷ Action.event_new cfd ∷ Action.accept lfd ∷ log)
unfolding dispatch lfdcb accept
late_comes lfd cfd ev more arr w log full = rw (add_event_full cfd ev arr full) refl

-- The server goes through any sequence of callbacks in which 1023 clients come, each with a new
-- descriptor, and clients send texts that can be printed, or leave, each write taking all; then one
-- more client comes, with a new descriptor. It is served, with any texts that can be printed: up to
-- there each descriptor has been written exactly what came on it. But when it leaves, or its read
-- fails, the callback uses a result of `getEvent` that no `return` gave, whatever was to come
-- behind.
pub late_client_crashes :
    (lfd ev cfd late_ev : ℕ) (turns : List Turn) (texts : Texts) (last : Answer)
    (ready : List Ready) (w : List Answer)
    → let seen = seen_after ((lfd, ev) ∷ []) turns in
      let late = sends_all cfd texts in
      IsRun ((lfd, ev) ∷ []) turns
      → length seen ≡ 1024
      → event_of cfd seen ≡ none
      → All IsPlain texts
      → IsGone last
      → (log' : Log) × (main
            (map ready_of turns ++ (listening ∷ (map ready_of late ++ (client cfd ∷ ready))))
            (ret lfd
              ∷ ret 0
              ∷ ret 0
              ∷ ret ev
              ∷ answers_of turns (ret cfd ∷ ret late_ev ∷ answers_of late (last ∷ w)))
            []
          ≡ crashed (Action.read cfd 1500 ∷ log'))
        × ((x : ℕ) → written x log' ≡ echoes x turns ++ echoes x late)
        × (removed log' ≡ removals ((lfd, ev) ∷ []) turns)
unfolding main tcp4bind listen
late_client_crashes lfd ev cfd late_ev turns texts last ready w run full fresh plain gone =
    let late = sends_all cfd texts in
    let first : Seen = (lfd, ev) ∷ [] in
    let seen : Seen = seen_after first turns in
    let start =
      Action.event_add ev
      ∷ Action.event_new lfd
      ∷ Action.listen lfd 128
      ∷ Action.bind lfd (0 ∷ 0 ∷ 0 ∷ 0 ∷ []) (network_order 8080)
      ∷ Action.reuse_addr lfd
      ∷ Action.socket 2 1 0
      ∷ [] in
    let then_late = map ready_of late ++ (client cfd ∷ ready) in
    let (arr, log₁, e, did) =
      dispatch-run lfd (listening ∷ then_late) turns first
        (added init_event_arr (add_event lfd ev init_event_arr))
        (ret cfd ∷ ret late_ev ∷ answers_of late (last ∷ w)) start
        (comes-Holds lfd ev init_event_arr [] init-Holds refl (omega arith)) run in
    let log₂ = Action.event_add late_ev ∷ Action.event_new cfd ∷ Action.accept lfd ∷ log₁ in
    let (arr', log₃, d, did') =
      dispatch-run lfd (client cfd ∷ ready) late seen arr (last ∷ w) log₂ did.holds
        (sends_all-IsRun cfd seen texts plain) in
    let (same, none_off) = sends_all-seen cfd seen texts in
    let holds : Holds seen arr' = rw same at did'.holds in
    let room = did.holds.room in
    let comes =
      late_comes lfd cfd late_ev then_late arr (answers_of late (last ∷ w)) log₁
        (omega (arith, room, full)) in
    let silent : (x : ℕ) → written x log₂ ≡ written x log₁ = λ x. simp append-nil in
    let crashes = gone_crashes lfd cfd seen arr' last ready w log₃ holds fresh gone in
    (
      log₃,
      rw (e ∙ comes ∙ d ∙ crashes) refl,
      λ x. did'.echoed x ∙ ap (λ b. b ++ echoes x late) (silent x ∙ did.echoed x),
      did'.took_off ∙ (rw none_off (simp append-nil)) ∙ did.took_off,
    )
