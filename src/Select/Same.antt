-- ===== src/Select/Same.antt =====
-- TcpServerDemo/selectFun.c against selectFunTeacher.c.
use unix_net.Common.{
  ℕ, zero, suc, ◌+◌, ◌-◌, ◌≡◌, refl, List, [], ◌∷◌, ◌++◌, codes, ◌==◌, ltb, arith,
}
use unix_net.Sys.{Answer, Action}
use unix_net.Sys.Alike.{
  Alike, Simulates, Simulates-bind, Simulates-note, Simulates-pure, Simulates-if, Simulates-print,
  Simulates-crash,
}
use unix_net.CString.{unterminated, until_zero}
use unix_net.Wrap.{ReadResult, got, failed}
use unix_net.Wrap.Alike.{
  accept-Simulates, read-Simulates, write-Simulates, listen-Simulates, tcp4bind-Simulates,
}
use unix_net.Select.{
  FdSet, clear_fd, Watch, Report, failure, ready, watch_client, add_client, after_read, serve_ready,
  serve_watch, round, rounds_of,
}
use unix_net.Select as Pupil
use unix_net.Select.Teacher.{
  with_client, accept_client, after_ret, from_on, visit, visit_all, select_loop,
}
use unix_net.Select.Teacher as Teacher

accept_client-Simulates : (lfd : ℕ) (t : Watch) → Simulates (accept_client lfd t) (add_client lfd t)
unfolding accept_client add_client
accept_client-Simulates lfd t =
    Simulates-bind (accept-Simulates lfd)
      λ cfd. Simulates-if (ltb cfd 1024) (Simulates-pure (with_client t cfd)) Simulates-crash

after_ret-Simulates :
    (i : ℕ) (old : FdSet) (r : ReadResult) → Simulates (after_ret i old r) (after_read i old r)
unfolding after_ret
after_ret-Simulates i old (failed e) =
    Simulates-bind (Simulates-note (Action.close i)) λ _. Simulates-pure (clear_fd i old)
after_ret-Simulates i old (got []) =
    Simulates-print (codes "client close\n")
      (Simulates-bind (Simulates-note (Action.close i)) λ _. Simulates-pure (clear_fd i old))
after_ret-Simulates i old (got (b ∷ bs)) =
    Simulates-if (unterminated 1500 (b ∷ bs)) Simulates-crash (
      Simulates-print (until_zero (b ∷ bs) ++ codes "\n")
        (Simulates-bind (write-Simulates i (b ∷ bs)) λ _. Simulates-pure old))

visit-Simulates :
    (rset : FdSet) (n i : ℕ) (old : FdSet)
    → Simulates (visit rset (from_on i n) old) (serve_ready rset n i old)
unfolding visit from_on serve_ready
visit-Simulates rset zero i old = Simulates-pure old
visit-Simulates rset (suc n) i old =
    Simulates-if (rset i)
      (Simulates-bind (read-Simulates i 1500)
        λ r. Simulates-bind (after_ret-Simulates i old r) (visit-Simulates rset n (i + 1)))
      (visit-Simulates rset n (i + 1) old)

visit_all-Simulates :
    (lfd : ℕ) (rset : FdSet) (t : Watch) → Simulates (visit_all lfd rset t) (serve_watch lfd rset t)
visit_all-Simulates lfd rset t =
    Simulates-bind (visit-Simulates rset (t.max_fd - lfd) (lfd + 1) t.old_set)
      λ old. Simulates-pure _

select_loop-Simulates :
    (lfd : ℕ) (reports : List Report) (t : Watch)
    → Simulates (select_loop lfd reports t) (rounds_of lfd reports t)
unfolding select_loop rounds_of round
select_loop-Simulates lfd [] t = Simulates-pure t
select_loop-Simulates lfd (failure ∷ reports) t = Simulates-pure t
select_loop-Simulates lfd (ready zero rset ∷ reports) t = select_loop-Simulates lfd reports t
select_loop-Simulates lfd (ready (suc n) rset ∷ reports) t =
    Simulates-bind
      (Simulates-if (rset lfd)
        (Simulates-bind (accept_client-Simulates lfd t) λ t'.
          let same : (n == 0) ≡ (suc n == 1) = ground arith in
          rw same (Simulates-if (suc n == 1) (Simulates-pure t') (visit_all-Simulates lfd rset t')))
        (visit_all-Simulates lfd rset t))
      (select_loop-Simulates lfd reports)

-- On the same reports and answers the two select servers make the same calls in the same order
-- and end alike, but for what they print.
pub teacher_main-Alike :
    (reports : List Report) (w : List Answer)
    → Alike (Teacher.main reports w []) (Pupil.main reports w [])
unfolding Teacher.main Pupil.main
teacher_main-Alike reports w = main.from w [] [] refl
  where
    main : Simulates (Teacher.main reports) (Pupil.main reports)
    main = Simulates-bind (tcp4bind-Simulates 8888) λ lfd.
        Simulates-bind (listen-Simulates lfd 128)
          λ _. Simulates-bind (select_loop-Simulates lfd reports _) λ _. Simulates-pure tt
