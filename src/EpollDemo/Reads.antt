-- ===== src/EpollDemo/Reads.antt =====
-- The loop of EPollDemo/epoll边缘触发/demo03.c that reads a client until nothing is left.
use unix_net.Common.{
  ℕ, ◌≡◌, refl, sym, ap, ◌∙◌, Option, none, some, List, [], ◌∷◌, ◌++◌, Bytes, ◌==◌, if◌then◌else◌,
  Bool-cases, inl, inr, map, append_assoc, append-nil,
}
use unix_net.Sys.{Answer, fail, ret, bytes, Action, Log, Run, ok, blocked, eagain}
use unix_net.Files.{window}
use unix_net.Sys.Trace.{written}
use unix_net.EpollDemo.Edge.{read_loop, gone}

-- The answers behind the first that ends the loop: nothing is there for now, or the end of the
-- stream.
unfoldable pub behind_end : List Answer → Option (List Answer)
behind_end [] = none
behind_end (fail e ∷ w) = if e == eagain then some w else behind_end w
behind_end (ret n ∷ w) = some w
behind_end (bytes [] ∷ w) = some w
behind_end (bytes (b ∷ bs) ∷ w) = behind_end w

-- The loop has come to its end with these answers left, or it waits.
abbrev pub EndsWith : Option (List Answer) → Run (Unit {0}) → Type 0
EndsWith (some w') (ok u w log) = w ≡ w'
EndsWith none (blocked log) = Unit
EndsWith _ _ = ⊥

-- The loop comes to its end exactly at the first `EAGAIN` or end of the stream. No other error
-- ends it: with any number of them it asks again.
pub read_loop_ends :
    (fd : ℕ) (w : List Answer) (log : Log) → EndsWith (behind_end w) (read_loop fd w log)
unfolding read_loop behind_end
read_loop_ends fd [] log = tt
read_loop_ends fd (fail e ∷ w) log = elim (Bool-cases (e == eagain)) [
  | inl p ↦ rw p refl
  | inr p ↦ rw p (read_loop_ends fd w (Action.epoll_del fd ∷ Action.read fd 4 ∷ log))
]
read_loop_ends fd (ret n ∷ w) log = refl
read_loop_ends fd (bytes [] ∷ w) log = refl
read_loop_ends fd (bytes (b ∷ bs) ∷ w) log =
    read_loop_ends fd w (Action.write 0 (window 4 (b ∷ bs)) ∷ Action.read fd 4 ∷ log)

-- A read that gives something.
abbrev pub Piece : Type 0
Piece = ℕ × Bytes

abbrev pub piece_bytes : Piece → Bytes
piece_bytes (b, bs) = b ∷ bs

abbrev pub arrivals : List Piece → List Answer
arrivals pieces = map (λ p. bytes (piece_bytes p)) pieces

-- The whole array for each piece.
abbrev pub shown : List Piece → Bytes
shown [] = []
shown (p ∷ ps) = window 4 (piece_bytes p) ++ shown ps

-- The log behind these reads.
abbrev after_pieces : ℕ → List Piece → Log → Log
after_pieces fd [] log = log
after_pieces fd (p ∷ ps) log =
    after_pieces fd ps (Action.write 0 (window 4 (piece_bytes p)) ∷ Action.read fd 4 ∷ log)

read_pieces :
    (fd : ℕ) (pieces : List Piece) (w : List Answer) (log : Log)
    → read_loop fd (arrivals pieces ++ w) log ≡ read_loop fd w (after_pieces fd pieces log)
unfolding read_loop
read_pieces fd [] w log = refl
read_pieces fd ((b, bs) ∷ ps) w log =
    read_pieces fd ps w (Action.write 0 (window 4 (b ∷ bs)) ∷ Action.read fd 4 ∷ log)

written-after_pieces :
    (fd : ℕ) (pieces : List Piece) (log : Log)
    → written 0 (after_pieces fd pieces log) ≡ written 0 log ++ shown pieces
written-after_pieces fd [] log = sym (append-nil _)
written-after_pieces fd (p ∷ ps) log =
    written-after_pieces fd ps _
    ∙ ap (λ l. (l ++ window 4 (piece_bytes p)) ++ shown ps) (append-nil (written 0 log))
    ∙ append_assoc (written 0 log) _ _

-- A client's event: all that has arrived is read, and of each piece the standard input is written
-- the bytes, filled up with zeros to four. Where nothing more is there for now the client stays;
-- at the end of the stream it is closed and taken off the tree, and a text says so.
pub read_loop-arrivals :
    (fd : ℕ) (pieces : List Piece) (w : List Answer) (log : Log)
    → (log' : Log) × (written 0 log' ≡ written 0 log ++ shown pieces)
      × (read_loop fd (arrivals pieces ++ (fail eagain ∷ w)) log
          ≡ ok tt w (Action.read fd 4 ∷ log'))
      × (read_loop fd (arrivals pieces ++ (bytes [] ∷ w)) log
          ≡ ok tt w (gone fd (Action.read fd 4 ∷ log')))
unfolding read_loop
read_loop-arrivals fd pieces w log = (
  after_pieces fd pieces log,
  written-after_pieces fd pieces log,
  read_pieces fd pieces (fail eagain ∷ w) log,
  read_pieces fd pieces (bytes [] ∷ w) log,
)
