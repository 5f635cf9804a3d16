-- ===== src/Select.antt =====
-- TcpServerDemo/selectFun.c: a server that sends back what it reads, over `select`.
pub mod Bounded
pub mod Teacher
pub mod Same
pub mod Served
pub mod Echoes
pub mod Session
use unix_net.Common.{
  ℕ, zero, suc, ◌+◌, ◌-◌, Bool, true, false, not, ◌&&◌, ◌||◌, Option, none, some, List, [], ◌∷◌,
  Bytes, ◌==◌, ltb, leb, if◌then◌else◌, length,
}
use unix_net.Sys.{Action, Cmd, ◌>>=◌, ◌>>◌, pure, note, crash}
use unix_net.CString.{unterminated}
use unix_net.Wrap.{ReadResult, got, failed, accept, listen, read, write, tcp4bind}

-- An `fd_set`.
abbrev pub FdSet : Type 0
FdSet = ℕ → Bool

abbrev pub set_fd : ℕ → FdSet → FdSet
set_fd fd s = λ i. i == fd || s i

abbrev pub clear_fd : ℕ → FdSet → FdSet
clear_fd fd s = λ i. not (i == fd) && s i

pub record Watch : Type 0 where
  pub old_set : FdSet
  pub max_fd : ℕ

-- What `select` reports: a failure, or the number of ready descriptors and the set of them.
pub data Report : Type 0 where
  failure : Report
  ready : ℕ → FdSet → Report

-- An `fd_set` has room for the descriptors below 1024. The source does not look at the number: for a
-- larger one its `FD_SET` is undefined.
abbrev pub watch_client : Watch → ℕ → Cmd Watch
watch_client t cfd =
    if ltb cfd 1024
    then pure (record {
      old_set = set_fd cfd t.old_set;
      max_fd = if ltb t.max_fd cfd then cfd else t.max_fd;
    })
    else crash

unfoldable pub add_client : ℕ → Watch → Cmd Watch
add_client lfd t = accept lfd >>= watch_client t

-- The text is printed, up to its zero.
abbrev pub after_read : ℕ → FdSet → ReadResult → Cmd FdSet
after_read i old (failed e) = note (Action.close i) >> pure (clear_fd i old)
after_read i old (got []) = note (Action.close i) >> pure (clear_fd i old)
after_read i old (got (b ∷ bs)) =
    if unterminated 1500 (b ∷ bs) then crash else write i (b ∷ bs) >> pure old

-- The loop over the descriptors from `i` on, with so many rounds.
unfoldable pub serve_ready : FdSet → ℕ → ℕ → FdSet → Cmd FdSet
serve_ready rest zero i old = pure old
serve_ready rest (suc rounds) i old =
    if rest i
    then (do n ← read i 1500; old' ← after_read i old n; serve_ready rest rounds (i + 1) old')
    else serve_ready rest rounds (i + 1) old

abbrev pub serve_watch : ℕ → FdSet → Watch → Cmd Watch
serve_watch lfd rest t = do
  old ← serve_ready rest (t.max_fd - lfd) (lfd + 1) t.old_set
  pure (record t { old_set = old })

-- One report of at least one ready descriptor.
unfoldable pub round : ℕ → ℕ → FdSet → Watch → Cmd Watch
round lfd n rest t =
    if rest lfd
    then (do t' ← add_client lfd t; if n == 1 then pure t' else serve_watch lfd rest t')
    else serve_watch lfd rest t

-- The loop of `main` over the reports: the state behind the last, or at a failure of `select`,
-- which ends it.
unfoldable pub rounds_of : ℕ → List Report → Watch → Cmd Watch
rounds_of lfd [] t = pure t
rounds_of lfd (failure ∷ reports) t = pure t
rounds_of lfd (ready zero rest ∷ reports) t = rounds_of lfd reports t
rounds_of lfd (ready (suc n) rest ∷ reports) t = round lfd (suc n) rest t >>= rounds_of lfd reports

-- What `main` does until the reports are over.
unfoldable pub main : List Report → Cmd (Unit {0})
main reports = do
  lfd ← tcp4bind 8888 none
  listen lfd 128
  t ← rounds_of lfd reports (record { old_set = λ i. i == lfd; max_fd = lfd })
  pure tt
