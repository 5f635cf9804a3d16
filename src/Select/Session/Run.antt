-- ===== src/Select/Session/Run.antt =====
-- A whole run of TcpServerDemo/selectFun.c over what `select` reports.
use unix_net.Common.{
  ℕ, zero, suc, ◌+◌, ◌-◌, ◌≤◌, ◌≡◌, refl, sym, ap, ◌∙◌, append_assoc, append-nil, true, Option,
  none, some, List, [], ◌∷◌, ◌++◌, arith, ◌==◌, Bool-cases, inl, inr, lt→ltb,
}
use unix_net.Sys.{Answer, ret, Action, Log, ok}
use unix_net.Sys.Trace.{written}
use unix_net.Wrap.{accept, tcp4bind, listen, network_order}
use unix_net.Select.{FdSet, Watch, add_client, round, rounds_of, main}
use unix_net.Select.Served.{Conduct, IsPlain, all_answers, all_calls, all_watched, serve_ready_all}
use unix_net.Select.Echoes.{range_echo, written-all_calls}
use unix_net.Select.Session.{
  Turn, quiet, busy, Ending, reports_of, Visit, newcomers, newcomer_answers, joined, ready_count,
  rest_of, client_answers, after_visit, HasRoom, IsRun, answers_of, echoes,
}

none_ready :
    (rest : FdSet) (conduct : ℕ → Conduct) (n i : ℕ) (old : FdSet) (log : Log)
    → ready_count rest n i ≡ 0
    → (all_answers rest conduct n i ≡ [])
      × (all_calls rest conduct n i log ≡ log)
      × (all_watched rest conduct n i old ≡ old)
none_ready rest conduct zero i old log h = (refl, refl, refl)
none_ready rest conduct (suc n) i old log h = elim (Bool-cases (rest i)) [
  | inl p ↦ absurd (omega (arith, rw p at h))
  | inr p ↦ rw p (none_ready rest conduct n (i + 1) old log (rw p at h))
]

abbrev newcomer_log : ℕ → Option ℕ → Log → Log
newcomer_log lfd none log = log
newcomer_log lfd (some fd) log = Action.accept lfd ∷ log

newcomer_silent :
    (lfd : ℕ) (newcomer : Option ℕ) (x : ℕ) (log : Log)
    → written x (newcomer_log lfd newcomer log) ≡ written x log
newcomer_silent lfd none x log = refl
newcomer_silent lfd (some fd) x log = append-nil _

module _ (lfd : ℕ) where
  abbrev visit_calls : Visit → Watch → Log → Log
  visit_calls v t log =
      all_calls (rest_of lfd v) v.conduct (t.max_fd - lfd) (lfd + 1)
        (newcomer_log lfd v.newcomer log)

  round_of :
      (others : FdSet) (conduct : ℕ → Conduct) (more : ℕ) (newcomer : Option ℕ) (t : Watch)
      (w : List Answer) (log : Log)
      → let v : Visit = record {
        newcomer = newcomer;
        others = others;
        conduct = conduct;
        more = more;
      } in
        let t' = joined newcomer t in
        HasRoom lfd newcomer
        → newcomers newcomer + ready_count (rest_of lfd v) (t'.max_fd - lfd) (lfd + 1) ≤ suc more
        → ((j : ℕ) → IsPlain (conduct j))
        → round lfd
            (suc more)
            (rest_of lfd v)
            t
            (newcomer_answers newcomer ++ (client_answers lfd v t' ++ w))
            log
          ≡ ok (after_visit lfd v t') w (visit_calls v t' log)
  unfolding round add_client accept
  round_of others conduct more none t w log room counted plain =
      let v : Visit = record { newcomer = none; others = others; conduct = conduct; more = more } in
      let same : (lfd == lfd) ≡ true = ground arith in
      rw same (
        rw
          (serve_ready_all (rest_of lfd v) conduct (t.max_fd - lfd) (lfd + 1) t.old_set w log plain)
          refl)
  round_of others conduct more (some cfd) t w log room counted plain =
      let v : Visit = record {
        newcomer = some cfd;
        others = others;
        conduct = conduct;
        more = more;
      } in
      let t' = joined (some cfd) t in
      let n = t'.max_fd - lfd in
      let log' = Action.accept lfd ∷ log in
      let same : (lfd == lfd) ≡ true = ground arith in
      rw (same, lt→ltb cfd 1024 room)
        (elim (Bool-cases (suc more == 1)) [
          | inl p ↦
              let (a, c, s) =
                none_ready (rest_of lfd v) conduct n (lfd + 1) t'.old_set log'
                  (ground (arith, p, counted)) in
              rw (p, a, c, s) refl
          | inr p ↦ rw p (
              rw (serve_ready_all (rest_of lfd v) conduct n (lfd + 1) t'.old_set w log' plain) refl)
        ])

  rounds_of-run :
      (turns : List Turn) (ending : Ending) (t : Watch) (w : List Answer) (log : Log)
      → IsRun lfd t turns
      → (t' : Watch) × (log' : Log) × (rounds_of lfd
            (reports_of lfd turns ending)
            t
            (answers_of lfd t turns w)
            log
          ≡ ok t' w log')
        × ((x : ℕ) → written x log' ≡ written x log ++ echoes lfd x t turns)
  unfolding rounds_of
  rounds_of-run [] none t w log h = (t, log, refl, λ x. sym (append-nil _))
  rounds_of-run [] (some more) t w log h = (t, log, refl, λ x. sym (append-nil _))
  rounds_of-run (quiet rest ∷ turns) ending t w log h = rounds_of-run turns ending t w log h
  rounds_of-run (busy v ∷ turns) ending t w log h =
      let t' = joined v.newcomer t in
      let left = answers_of lfd (after_visit lfd v t') turns w in
      let one =
        round_of v.others v.conduct v.more v.newcomer t left log h.0.has_room h.0.counted
          h.0.plain in
      let (t'', log₂, e, echoed) =
        rounds_of-run turns ending (after_visit lfd v t') w (visit_calls v t' log) h.1 in
      let text = λ (x : ℕ). range_echo (rest_of lfd v) v.conduct x (t'.max_fd - lfd) (lfd + 1) in
      (
        t'',
        log₂,
        rw one e,
        λ x.
            echoed x
            ∙ ap (λ b. b ++ echoes lfd x (after_visit lfd v t') turns)
                (written-all_calls (rest_of lfd v) v.conduct x (t'.max_fd - lfd) (lfd + 1) _
                  ∙ ap (λ b. b ++ text x) (newcomer_silent lfd v.newcomer x log))
            ∙ append_assoc (written x log) (text x) (echoes lfd x (after_visit lfd v t') turns),
      )

-- Once its socket is bound and listening, the server goes through the reports, with what each
-- descriptor is written.
pub main-run :
    (lfd : ℕ) (turns : List Turn) (ending : Ending) (w : List Answer)
    → let t : Watch = record { old_set = λ i. i == lfd; max_fd = lfd } in
      IsRun lfd t turns
      → (log' : Log) × (main
            (reports_of lfd turns ending)
            (ret lfd ∷ ret 0 ∷ ret 0 ∷ answers_of lfd t turns w)
            []
          ≡ ok tt w log')
        × ((x : ℕ) → written x log' ≡ echoes lfd x t turns)
unfolding main tcp4bind listen
main-run lfd turns ending w h =
    let start =
      Action.listen lfd 128
      ∷ Action.bind lfd (0 ∷ 0 ∷ 0 ∷ 0 ∷ []) (network_order 8888)
      ∷ Action.reuse_addr lfd
      ∷ Action.socket 2 1 0
      ∷ [] in
    let (t', log', e, all) = rounds_of-run lfd turns ending _ w start h in (log', rw e refl, all)
