-- ===== src/EpollDemo/Pipe/Shown.antt =====
-- What the parent of the pipe demo shows of what comes through the pipe.
use unix_net.Common.{ℕ, ◌≡◌, refl, ◌∙◌, Bool, List, [], ◌∷◌, ◌++◌, Bytes, append_assoc, append-nil}
use unix_net.Sys.{Answer, bytes, Action, Log, ok}
use unix_net.Sys.Trace.{written}
use unix_net.Files.{window}
use unix_net.EpollWeb.Server.{Wait, failed, ready}
use unix_net.EpollDemo.Pipe.{shown, closed_text, gone, parent_loop}

-- The returns of `epoll_wait`: a failure, no event, or an event with what the read then gives.
pub data Turn : Type 0 where
  interrupted idle : Turn
  piece : ℕ × Bool → ℕ → Bytes → Turn

abbrev pub wait_of : Turn → Wait
wait_of interrupted = failed
wait_of idle = ready []
wait_of (piece event b bs) = ready (event ∷ [])

abbrev pub waits_of : List Turn → List Wait → List Wait
waits_of [] waits = waits
waits_of (turn ∷ turns) waits = wait_of turn ∷ waits_of turns waits

abbrev pub turn_answers : Turn → List Answer → List Answer
turn_answers (piece event b bs) w = bytes (b ∷ bs) ∷ w
turn_answers _ w = w

abbrev pub answers_of : List Turn → List Answer → List Answer
answers_of [] w = w
answers_of (turn ∷ turns) w = turn_answers turn (answers_of turns w)

-- What is written to the terminal.
abbrev pub turn_text : Turn → Bytes
turn_text (piece event b bs) = window 128 (b ∷ bs) ++ (b'\n' ∷ 0 ∷ [])
turn_text _ = []

abbrev pub texts : List Turn → Bytes
texts [] = []
texts (turn ∷ turns) = turn_text turn ++ texts turns

-- Each piece that comes through the pipe is shown as a whole array of 128 bytes and an end of line,
-- in order; the end of the pipe closes it, takes it off the tree and ends the loop, with a last
-- text.
pub parent_loop-texts :
    (rfd : ℕ) (turns : List Turn) (event : ℕ × Bool) (waits : List Wait) (w : List Answer)
    (log : Log)
    → (log' : Log) × (parent_loop rfd
          (waits_of turns (ready (event ∷ []) ∷ waits))
          (answers_of turns (bytes [] ∷ w))
          log
        ≡ ok tt w (gone rfd log'))
      × (written 0 (gone rfd log') ≡ written 0 log ++ (texts turns ++ closed_text))
unfolding parent_loop
parent_loop-texts rfd [] event waits w log = (Action.read rfd 128 ∷ log, refl, simp (append-nil))
parent_loop-texts rfd (interrupted ∷ turns) event waits w log =
    parent_loop-texts rfd turns event waits w log
parent_loop-texts rfd (idle ∷ turns) event waits w log =
    parent_loop-texts rfd turns event waits w log
parent_loop-texts rfd (piece e b bs ∷ turns) event waits w log =
    let (log', ends, t) =
      parent_loop-texts rfd turns event waits w (shown (b ∷ bs) (Action.read rfd 128 ∷ log)) in
    (log', ends, t ∙ simp (append_assoc, append-nil))
