-- ===== src/EventTable/Session/Run.antt =====
-- A whole run of Libevent/libeventServer.c.
use unix_net.Common.{
  zero, Option-cases, ℕ, suc, ◌+◌, ◌<◌, ◌≡◌, ◌≢◌, refl, sym, ap, ◌∙◌, append_assoc, append-nil,
  Bool-cases, inl, inr, Option, none, some, List, [], ◌∷◌, ◌++◌, map, arith, length, ◌==◌,
  replicate,
}
use unix_net.Sys.{Answer, ret, Action, Log, blocked}
use unix_net.Sys.Trace.{written}
use unix_net.Wrap.{accept, read, write, tcp4bind, listen, network_order}
use unix_net.EventTable.{
  unused, used, Events, Ready, init_event_arr, add_event, get_event, added, cfdcb, lfdcb, dispatch,
  main,
}
use unix_net.EventTable.Lookup.{HasRoom, AddsEvent, get_event-add_event}
use unix_net.EventTable.Usage.{free, Fills-one}
use unix_net.EventTable.Session.{
  Turn, comes, sends, leaves, Seen, event_of, IsRun, ready_of, answers_of, echoes, removals,
  seen_after, removed,
}

-- The array holds exactly the descriptors that have come.
pub record Holds (seen : Seen) (arr : Events) : Type 0 where
  pub finds : (x : ℕ) → get_event x arr ≡ event_of x seen
  pub room : free arr + length seen ≡ 1024

free-HasRoom : (arr : Events) → 0 < free arr → HasRoom arr
free-HasRoom [] h = absurd (omega (arith, h))
free-HasRoom (unused ∷ arr) h = tt
free-HasRoom (used fd ev ∷ arr) h = free-HasRoom arr h

joins :
    (cfd ev : ℕ) (arr : Events) (seen : Seen) (o : Option Events)
    → AddsEvent cfd ev arr o
    → HasRoom arr
    → event_of cfd seen ≡ none
    → ((x : ℕ) → get_event x arr ≡ event_of x seen)
    → (x : ℕ) → get_event x (added arr o) ≡ event_of x ((cfd, ev) ∷ seen)
joins cfd ev arr seen none h room fresh finds x = absurd (h room)
joins cfd ev arr seen (some arr') h room fresh finds x = elim (Bool-cases (cfd == x)) [
  | inl p ↦ let same : cfd ≡ x = ground (arith, p) in rw (p, ← same) (h.1 (finds cfd ∙ fresh))
  | inr p ↦ let other : x ≢ cfd = λ e. ground (arith, e, p) in rw p (h.2 x other ∙ finds x)
]

pub comes-Holds :
    (cfd ev : ℕ) (arr : Events) (seen : Seen)
    → Holds seen arr
    → event_of cfd seen ≡ none
    → length seen < 1024
    → Holds ((cfd, ev) ∷ seen) (added arr (add_event cfd ev arr))
comes-Holds cfd ev arr seen h fresh short =
    let some_free : 0 < free arr = omega (arith, h.room, short) in
    record {
      finds =
          joins cfd ev arr seen (add_event cfd ev arr) (get_event-add_event cfd ev arr)
            (free-HasRoom arr some_free) fresh h.finds;
      room = omega (arith, (Fills-one cfd ev arr).1, h.room, some_free);
    }

-- What a run did: the array at its end, and its calls.
pub record Did (seen : Seen) (turns : List Turn) (arr : Events) (log log' : Log) : Type 0 where
  pub holds : Holds (seen_after seen turns) arr
  pub echoed : (x : ℕ) → written x log' ≡ written x log ++ echoes x turns
  pub took_off : removed log' ≡ removed log ++ removals seen turns

module _ (lfd : ℕ) where
  -- The callbacks of the turns, and then any others.
  pub dispatch-run :
      (more : List Ready) (turns : List Turn) (seen : Seen) (arr : Events) (w : List Answer)
      (log : Log)
      → Holds seen arr
      → IsRun seen turns
      → (arr' : Events) × (log' : Log) × (dispatch lfd
            (map ready_of turns ++ more)
            arr
            (answers_of turns w)
            log
          ≡ dispatch lfd more arr' w log')
        × Did seen turns arr' log log'
  unfolding dispatch lfdcb cfdcb accept read write
  dispatch-run more [] seen arr w log h run = (
    arr,
    log,
    refl,
    record { holds = h; echoed = λ x. sym (append-nil _); took_off = sym (append-nil _) },
  )
  dispatch-run more (comes cfd ev ∷ turns) seen arr w log h (fresh, short, run) =
      let (arr', log', e, did) =
        dispatch-run more turns ((cfd, ev) ∷ seen) (added arr (add_event cfd ev arr)) w
          (Action.event_add ev ∷ Action.event_new cfd ∷ Action.accept lfd ∷ log)
          (comes-Holds cfd ev arr seen h fresh short) run in
      (
        arr',
        log',
        e,
        record {
          holds = did.holds;
          echoed = λ x. did.echoed x ∙ simp append-nil;
          took_off = did.took_off ∙ simp append-nil;
        },
      )
  dispatch-run more (sends cfd b bs ∷ turns) seen arr w log h (plain, run) =
      let (arr', log', e, did) =
        dispatch-run more turns seen arr w (Action.write cfd (b ∷ bs) ∷ Action.read cfd 1500 ∷ log)
          h run in
      (
        arr',
        log',
        rw plain e,
        record {
          holds = did.holds;
          echoed = λ x. did.echoed x ∙ simp (append-nil, append_assoc);
          took_off = did.took_off ∙ simp append-nil;
        },
      )
  dispatch-run more (leaves cfd ∷ turns) seen arr w log h (came, run) =
      elim (Option-cases (event_of cfd seen)) [
        | inl p ↦ absurd (came p)
        | inr (ev, p) ↦
            let (arr', log', e, did) =
              dispatch-run more turns seen arr w (Action.event_del ev ∷ Action.read cfd 1500 ∷ log)
                h run in
            (
              arr',
              log',
              rw (h.finds cfd, p) e,
              record {
                holds = did.holds;
                echoed = λ x. did.echoed x ∙ simp append-nil;
                took_off = rw p (did.took_off ∙ simp (append-nil, append_assoc));
              },
            )
      ]

get_event-replicate : (n x : ℕ) → get_event x (replicate n unused) ≡ none
unfolding get_event
get_event-replicate zero x = refl
get_event-replicate (suc n) x = get_event-replicate n x

free-replicate : (n : ℕ) → free (replicate n unused) ≡ n
free-replicate zero = refl
free-replicate (suc n) = ap suc (free-replicate n)

pub init-Holds : Holds [] init_event_arr
unfolding init_event_arr
init-Holds = record { finds = λ x. get_event-replicate 1024 x; room = free-replicate 1024 }

-- Once its socket is bound and listening, the server goes through any sequence of callbacks in
-- which at most 1023 clients come, each with a descriptor that none had before it, and clients send
-- texts that can be printed, each written back whole, or leave; then it waits. Each descriptor has been
-- written exactly what came on it, in order, and each client that left had its own event taken
-- off, in order, and no other event was.
pub main-echoes :
    (lfd ev : ℕ) (turns : List Turn) (w : List Answer)
    → IsRun ((lfd, ev) ∷ []) turns
    → (log' : Log) × (main
          (map ready_of turns)
          (ret lfd ∷ ret 0 ∷ ret 0 ∷ ret ev ∷ answers_of turns w)
          []
        ≡ blocked log')
      × ((x : ℕ) → written x log' ≡ echoes x turns)
      × (removed log' ≡ removals ((lfd, ev) ∷ []) turns)
unfolding main tcp4bind listen dispatch
main-echoes lfd ev turns w run =
    let start =
      Action.event_add ev
      ∷ Action.event_new lfd
      ∷ Action.listen lfd 128
      ∷ Action.bind lfd (0 ∷ 0 ∷ 0 ∷ 0 ∷ []) (network_order 8080)
      ∷ Action.reuse_addr lfd
      ∷ Action.socket 2 1 0
      ∷ [] in
    let (arr', log', e, did) =
      dispatch-run lfd [] turns ((lfd, ev) ∷ [])
        (added init_event_arr (add_event lfd ev init_event_arr)) w start
        (comes-Holds lfd ev init_event_arr [] init-Holds refl (omega arith)) run in
    (log', rw (← append-nil (map ready_of turns)) (rw e refl), did.echoed, did.took_off)
