-- ===== src/Poll/Served/Session.antt =====
-- A whole run of PollDemo/pollDemo.c.
use unix_net.Common.{
  ℕ, ◌≡◌, refl, sym, ap, ◌∙◌, append_assoc, append-nil, Option, none, some, List, [], ◌∷◌, ◌++◌,
  Bytes,
}
use unix_net.Sys.{Answer, ret, Action, Log, ok, blocked}
use unix_net.Sys.Trace.{written}
use unix_net.Wrap.{socket, bind, listen}
use unix_net.Poll.{Table, initial, Report, rounds_of, main}
use unix_net.Poll.Served.{all_calls}
use unix_net.Poll.Served.Echoes.{slots_echo, written-all_calls}
use unix_net.Poll.Served.Rounds.{
  Visit, revents_of, report_of, joined, IsCounted, client_answers, newcomer_answers, newcomer_log,
  after_visit, round_lem,
}

-- Visits that a table can take: each finds a free slot for its newcomer, and reports the right
-- number; the next one finds the table that it leaves.
pub data Visits : Table → Type 0 where
  end : {t : Table} → Visits t
  visit :
      {t t' : Table} (v : Visit)
      → joined v.newcomer t ≡ some t'
      → IsCounted v t'
      → Visits (after_visit v t')
      → Visits t

abbrev pub reports_of : {t : Table} → Visits t → List Report
reports_of end = []
reports_of (visit v h c rest) = report_of v ∷ reports_of rest

abbrev pub answers_of : {t : Table} → Visits t → List Answer → List Answer
answers_of end w = w
answers_of (visit {t' = t'} v h c rest) w =
    newcomer_answers v.newcomer ++ (client_answers v t' ++ answers_of rest w)

-- What descriptor `x` is to get: what its client sent in each visit, in capital letters.
abbrev pub echoes : {t : Table} → ℕ → Visits t → Bytes
echoes x end = []
echoes x (visit {t' = t'} v h c rest) =
    slots_echo (revents_of v) v.conduct x t'.maxi 1 t'.slots ++ echoes x rest

newcomer_silent :
    (listenfd : ℕ) (newcomer : Option ℕ) (x : ℕ) (log : Log)
    → written x (newcomer_log listenfd newcomer log) ≡ written x log
newcomer_silent listenfd none x log = refl
newcomer_silent listenfd (some fd) x log = append-nil _

rounds_of-visits :
    (listenfd : ℕ) {t : Table} (visits : Visits t) (w : List Answer) (log : Log)
    → (t' : Table) × (log' : Log) × (rounds_of listenfd
          (reports_of visits)
          t
          (answers_of visits w)
          log
        ≡ ok t' w log')
      × ((x : ℕ) → written x log' ≡ written x log ++ echoes x visits)
unfolding rounds_of
rounds_of-visits listenfd {t} end w log = (t, log, refl, λ x. sym (append-nil _))
rounds_of-visits listenfd {t} (visit {t' = t'} v h c rest) w log =
    let log₁ =
      all_calls (revents_of v) v.conduct t'.maxi 1 t'.slots
        (newcomer_log listenfd v.newcomer log) in
    let one =
      round_lem listenfd v.ready v.conduct v.nready v.newcomer t t' (answers_of rest w) log h c in
    let (t'', log₂, e, echoed) = rounds_of-visits listenfd rest w log₁ in
    (
      t'',
      log₂,
      rw one e,
      λ x.
          echoed x
          ∙ ap (λ b. b ++ echoes x rest)
              (written-all_calls (revents_of v) v.conduct x t'.maxi 1 t'.slots _
                ∙ ap (λ b. b ++ slots_echo (revents_of v) v.conduct x t'.maxi 1 t'.slots)
                    (newcomer_silent listenfd v.newcomer x log))
          ∙ append_assoc (written x log) (slots_echo (revents_of v) v.conduct x t'.maxi 1 t'.slots)
              (echoes x rest),
    )

-- Once its socket is bound and listening, the server runs through any visits that its table can
-- take and whose ready descriptors `poll` counts by a positive `int`, in which new clients come,
-- and any of the clients in the table send, leave or reset, where each write takes all and each
-- close succeeds; then it waits in `poll`. Each descriptor has been written exactly what came on
-- it, in capital letters and in order, and nothing of another's.
pub main-visits :
    (listenfd : ℕ) (visits : Visits initial) (w : List Answer)
    → (log' : Log) × (main
          (reports_of visits)
          (ret listenfd ∷ ret 0 ∷ ret 0 ∷ answers_of visits w)
          []
        ≡ blocked log')
      × ((x : ℕ) → written x log' ≡ echoes x visits)
unfolding main socket bind listen
main-visits listenfd visits w =
    let start =
      Action.listen listenfd 128
      ∷ Action.bind listenfd (0 ∷ 0 ∷ 0 ∷ 0 ∷ []) (31 ∷ 64 ∷ [])
      ∷ Action.reuse_addr listenfd
      ∷ Action.socket 2 1 0
      ∷ [] in
    let (t, log', e, all) = rounds_of-visits listenfd visits w start in (log', rw e refl, all)
