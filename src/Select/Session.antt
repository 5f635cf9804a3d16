-- ===== src/Select/Session.antt =====
-- What happens to TcpServerDemo/selectFun.c while it runs: the reports of `select`, the answers of the
-- system, and what the clients are to get.
pub mod Run
pub mod Both
use unix_net.Common.{
  ℕ, zero, suc, ◌+◌, ◌-◌, ◌≤◌, ◌<◌, ◌≡◌, refl, sym, ap, ◌∙◌, append_assoc, append-nil, Bool, true,
  false, ◌&&◌, Option, none, some, List, [], ◌∷◌, ◌++◌, Bytes, map, arith, if◌then◌else◌, length,
  leb, ltb, ◌==◌, Bool-cases, inl, inr, lt→ltb,
}
use unix_net.Sys.{Answer, ret, Action, Log, ok}
use unix_net.Sys.Trace.{written}
use unix_net.Wrap.{accept, tcp4bind, listen, network_order}
use unix_net.Select.{
  FdSet, set_fd, Watch, Report, failure, ready, add_client, serve_watch, round, rounds_of, main,
}
use unix_net.Select.Served.{Conduct, IsPlain, all_answers, all_calls, all_watched, serve_ready_all}
use unix_net.Select.Echoes.{range_echo, written-all_calls}

-- One return of `select` with ready descriptors: perhaps a new client, by the descriptor that it
-- gets; the others that are ready, with what their clients do; and one less than the number that is
-- reported.
pub record Visit : Type 0 where
  pub newcomer : Option ℕ
  pub others : FdSet
  pub conduct : ℕ → Conduct
  pub more : ℕ

-- A return of `select`: with no ready descriptor, or a visit.
pub data Turn : Type 0 where
  quiet : FdSet → Turn
  busy : Visit → Turn

-- How the reports end: there are no more, or `select` fails, and others are never asked for.
abbrev pub Ending : Type 0
Ending = Option (List Report)

abbrev pub last_reports : Ending → List Report
last_reports none = []
last_reports (some more) = failure ∷ more

abbrev pub comes : Option ℕ → Bool
comes none = false
comes (some fd) = true

abbrev pub newcomers : Option ℕ → ℕ
newcomers none = 0
newcomers (some fd) = 1

abbrev pub newcomer_answers : Option ℕ → List Answer
newcomer_answers none = []
newcomer_answers (some fd) = ret fd ∷ []

-- The watched set with the new client in it.
abbrev pub joined : Option ℕ → Watch → Watch
joined none t = t
joined (some cfd) t = record {
  old_set = set_fd cfd t.old_set;
  max_fd = if ltb t.max_fd cfd then cfd else t.max_fd;
}

-- The ready ones among `n` descriptors from `i` on.
abbrev pub ready_count : FdSet → ℕ → ℕ → ℕ
ready_count rest zero i = 0
ready_count rest (suc n) i =
    if rest i then suc (ready_count rest n (i + 1)) else ready_count rest n (i + 1)

module _ (lfd : ℕ) where
  -- The set that `select` leaves: the listening descriptor is in it for a new client.
  abbrev pub rest_of : Visit → FdSet
  rest_of v i = if i == lfd then comes v.newcomer else v.others i

  abbrev pub report_of : Visit → Report
  report_of v = ready (suc v.more) (rest_of v)

  abbrev pub turn_report : Turn → Report
  turn_report (quiet rest) = ready 0 rest
  turn_report (busy v) = report_of v

  abbrev pub reports_of : List Turn → Ending → List Report
  reports_of turns ending = map turn_report turns ++ last_reports ending

  abbrev pub client_answers : Visit → Watch → List Answer
  client_answers v t = all_answers (rest_of v) v.conduct (t.max_fd - lfd) (lfd + 1)

  abbrev pub after_visit : Visit → Watch → Watch
  after_visit v t = record t {
    old_set = all_watched (rest_of v) v.conduct (t.max_fd - lfd) (lfd + 1) t.old_set;
  }

  abbrev pub HasRoom : Option ℕ → Type 0
  HasRoom none = Unit
  HasRoom (some cfd) = cfd < 1024

  -- The set has room for a new client, the number counts it and the ready ones, and what they send
  -- can be printed.
  pub record IsVisit (v : Visit) (t : Watch) : Type 0 where
    pub has_room : HasRoom v.newcomer
    pub counted :
        newcomers v.newcomer + ready_count (rest_of v) (t.max_fd - lfd) (lfd + 1) ≤ suc v.more
    pub plain : (j : ℕ) → IsPlain (v.conduct j)

  abbrev pub IsRun : Watch → List Turn → Type 0
  IsRun t [] = Unit
  IsRun t (quiet rest ∷ turns) = IsRun t turns
  IsRun t (busy v ∷ turns) =
      let t' = joined v.newcomer t in IsVisit v t' × IsRun (after_visit v t') turns

  abbrev pub answers_of : Watch → List Turn → List Answer → List Answer
  answers_of t [] w = w
  answers_of t (quiet rest ∷ turns) w = answers_of t turns w
  answers_of t (busy v ∷ turns) w =
      let t' = joined v.newcomer t in
      newcomer_answers v.newcomer ++ (client_answers v t' ++ answers_of (after_visit v t') turns w)

  -- What descriptor `x` is to get: what its client sent in each visit.
  abbrev pub echoes : ℕ → Watch → List Turn → Bytes
  echoes x t [] = []
  echoes x t (quiet rest ∷ turns) = echoes x t turns
  echoes x t (busy v ∷ turns) =
      let t' = joined v.newcomer t in
      range_echo (rest_of v) v.conduct x (t'.max_fd - lfd) (lfd + 1)
      ++ echoes x (after_visit v t') turns
