-- ===== src/EpollDemo/Pipe.antt =====
-- EPollDemo/demo01/test.c: a child writes into a pipe, and its parent waits for that with epoll.
pub mod Shown
use unix_net.Common.{ℕ, zero, suc, List, [], ◌∷◌, ◌++◌, Bytes, codes}
use unix_net.Sys.{
  Answer, fail, ret, bytes, Action, Log, blocked, ok, Cmd, ◌>>=◌, ◌>>◌, pure, call, note, halt,
}
use unix_net.Files.{window}
use unix_net.EpollWeb.Server.{Wait, failed, ready}

-- The array of 128 bytes that the child writes, whole.
abbrev pub child_data : Bytes
child_data = window 128 (codes "Child Write Data")

unfoldable pub child_loop : ℕ → Cmd (Unit {0})
child_loop wfd [] log = blocked (Action.write wfd child_data ∷ log)
child_loop wfd (a ∷ w) log = child_loop wfd w (Action.sleep 5 ∷ Action.write wfd child_data ∷ log)

-- The array is cleared for each read, and all of it is written; both texts are written with their
-- terminating zeros. The result is whether the loop goes on.
abbrev pub shown : Bytes → Log → Log
shown bs log = Action.write 0 (b'\n' ∷ 0 ∷ []) ∷ Action.write 0 (window 128 bs) ∷ log

-- The text says in UTF-8 that the descriptor is closed.
abbrev pub closed_text : Bytes
closed_text =
    230 ∷ 137 ∷ 128 ∷ 231 ∷ 155 ∷ 145 ∷ 229 ∷ 144 ∷ 172 ∷ 231 ∷ 154 ∷ 132 ∷ 230 ∷ 143 ∷ 143 ∷ 232
    ∷ 191 ∷ 176 ∷ 231 ∷ 172 ∷ 166 ∷ 229 ∷ 133 ∷ 179 ∷ 233 ∷ 151 ∷ 173 ∷ 10 ∷ 0 ∷ []

abbrev pub gone : ℕ → Log → Log
gone rfd log = Action.write 0 closed_text ∷ Action.epoll_del rfd ∷ Action.close rfd ∷ log

-- The loop over what the calls of `epoll_wait` report: where there is an event the pipe is read.
unfoldable pub parent_loop : ℕ → List Wait → Cmd (Unit {0})
parent_loop rfd [] w log = blocked log
parent_loop rfd (failed ∷ waits) w log = parent_loop rfd waits w log
parent_loop rfd (ready [] ∷ waits) w log = parent_loop rfd waits w log
parent_loop rfd (ready (e ∷ es) ∷ waits) [] log = blocked (Action.read rfd 128 ∷ log)
parent_loop rfd (ready (e ∷ es) ∷ waits) (bytes (b ∷ bs) ∷ w) log =
    parent_loop rfd waits w (shown (b ∷ bs) (Action.read rfd 128 ∷ log))
parent_loop rfd (ready (e ∷ es) ∷ waits) (a ∷ w) log =
    ok tt w (gone rfd (Action.read rfd 128 ∷ log))

abbrev pub after_fork : (rfd wfd : ℕ) → List Wait → Answer → Cmd (Unit {0})
after_fork rfd wfd waits (fail e) = halt 255
after_fork rfd wfd waits (ret zero) = do note (Action.close rfd); child_loop wfd
after_fork rfd wfd waits _ = do
  note (Action.close wfd)
  note (Action.epoll_add rfd 1)
  parent_loop rfd waits

abbrev pub after_pipe : (rfd wfd : ℕ) → List Wait → Answer → Cmd (Unit {0})
after_pipe rfd wfd waits (fail e) = halt 255
after_pipe rfd wfd waits a = call Action.fork >>= after_fork rfd wfd waits

-- `rfd` and `wfd` are the two ends that `pipe` stores.
unfoldable pub main : (rfd wfd : ℕ) → List Wait → Cmd (Unit {0})
main rfd wfd waits = call Action.pipe >>= after_pipe rfd wfd waits
