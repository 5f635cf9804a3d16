-- ===== src/Select/Teacher.antt =====
-- TcpServerDemo/selectFunTeacher.c: the server that selectFun.c was written after. The line that
-- names a new client is left out.
use unix_net.Common.{
  ℕ, zero, suc, ◌+◌, ◌-◌, none, List, [], ◌∷◌, ◌++◌, codes, ◌==◌, ltb, if◌then◌else◌,
}
use unix_net.Sys.{Action, Cmd, ◌>>=◌, ◌>>◌, pure, note, crash}
use unix_net.CString.{unterminated, until_zero}
use unix_net.Wrap.{ReadResult, got, failed, accept, listen, read, write, tcp4bind}
use unix_net.Select.{FdSet, set_fd, clear_fd, Watch, Report, failure, ready}

-- FD_SET and the largest descriptor.
abbrev pub with_client : Watch → ℕ → Watch
with_client t cfd = record {
  old_set = set_fd cfd t.old_set;
  max_fd = if ltb t.max_fd cfd then cfd else t.max_fd;
}

-- A set has 1024 places.
unfoldable pub accept_client : ℕ → Watch → Cmd Watch
accept_client lfd t = do cfd ← accept lfd; if ltb cfd 1024 then pure (with_client t cfd) else crash

unfoldable pub after_ret : ℕ → FdSet → ReadResult → Cmd FdSet
after_ret i old (failed e) = do note (Action.close i); pure (clear_fd i old)
after_ret i old (got []) = do
  note (Action.print (codes "client close\n"))
  note (Action.close i)
  pure (clear_fd i old)
after_ret i old (got (b ∷ bs)) =
    if unterminated 1500 (b ∷ bs)
    then crash
    else (do note (Action.print (until_zero (b ∷ bs) ++ codes "\n")); write i (b ∷ bs); pure old)

-- `n` descriptors from `i` on.
unfoldable pub from_on : ℕ → ℕ → List ℕ
from_on i zero = []
from_on i (suc n) = i ∷ from_on (i + 1) n

unfoldable pub visit : FdSet → List ℕ → FdSet → Cmd FdSet
visit rset [] old = pure old
visit rset (i ∷ is) old =
    if rset i
    then (do r ← read i 1500; old' ← after_ret i old r; visit rset is old')
    else visit rset is old

abbrev pub visit_all : ℕ → FdSet → Watch → Cmd Watch
visit_all lfd rset t = do
  old ← visit rset (from_on (lfd + 1) (t.max_fd - lfd)) t.old_set
  pure (record t { old_set = old })

-- The rounds of the loop over the reports of `select`, which a failure ends.
unfoldable pub select_loop : ℕ → List Report → Watch → Cmd Watch
select_loop lfd [] t = pure t
select_loop lfd (failure ∷ reports) t = pure t
select_loop lfd (ready zero rset ∷ reports) t = select_loop lfd reports t
select_loop lfd (ready (suc n) rset ∷ reports) t =
    (if rset lfd
      then (do t' ← accept_client lfd t; if n == 0 then pure t' else visit_all lfd rset t')
      else visit_all lfd rset t)
    >>= select_loop lfd reports

unfoldable pub main : List Report → Cmd (Unit {0})
main reports = do
  lfd ← tcp4bind 8888 none
  listen lfd 128
  t ← select_loop lfd reports (record { old_set = λ i. i == lfd; max_fd = lfd })
  pure tt
