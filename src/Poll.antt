-- ===== src/Poll.antt =====
-- PollDemo/pollDemo.c: a server that sends back what it reads in capital letters, over `poll`.
mod Calls
mod Place
mod Balance
pub mod Clients
pub mod Served
use unix_net.Common.{
  ℕ, zero, suc, ◌+◌, ◌-◌, ◌%◌, Bool, true, false, Option, none, some, List, [], ◌∷◌, Bytes, map,
  ◌==◌, ◌||◌, ltb, leb, if◌then◌else◌, replicate,
}
use unix_net.Sys.{
  Answer, Action, Log, Run, ok, blocked, Cmd, and_then, ◌>>=◌, ◌>>◌, pure, note, econnreset,
}
use unix_net.CString.{to_upper}
use unix_net.Wrap.{
  ReadResult, got, failed, accept, bind, listen, socket, read, write, close, perr_exit,
}

abbrev pub open_max : ℕ
open_max = 1024

abbrev pub maxline : ℕ
maxline = 80

-- `client[1]` to `client[OPEN_MAX - 1]`: the descriptor, or `none` for -1. `client[0]` holds the
-- listening descriptor throughout.
abbrev pub Slots : Type 0
Slots = List (Option ℕ)

pub record Table : Type 0 where
  pub slots : Slots
  pub maxi : ℕ

unfoldable pub initial : Table
initial = record { slots = replicate (open_max - 1) none; maxi = 0 }

-- The first free slot is filled; `none` where there is none. The number is the slot's index.
unfoldable pub place : ℕ → ℕ → Slots → Option (Slots × ℕ)
place fd i [] = none
place fd i (none ∷ slots) = some (some fd ∷ slots, i)
place fd i (some other ∷ slots) = elim (place fd (i + 1) slots) [
  | none ↦ none
  | some (slots', j) ↦ some (some other ∷ slots', j)
]

-- A new connection takes a slot, or the server gives up.
abbrev pub with_slot : Table → Option (Slots × ℕ) → Cmd Table
with_slot t none = perr_exit
with_slot t (some (slots, i)) =
    pure (record { slots = slots; maxi = if ltb t.maxi i then i else t.maxi })

unfoldable pub add_client : ℕ → Table → Cmd Table
add_client listenfd t = do connfd ← accept listenfd; with_slot t (place connfd 1 t.slots)

-- What becomes of a slot whose descriptor was read.
abbrev pub after_read : ℕ → ReadResult → Cmd (Option ℕ)
after_read sockfd (failed e) = if e == econnreset then close sockfd >> pure none else perr_exit
after_read sockfd (got []) = close sockfd >> pure none
after_read sockfd (got (b ∷ bs)) = write sockfd (map to_upper (b ∷ bs)) >> pure (some sockfd)

unfoldable pub serve_client : ℕ → Cmd (Option ℕ)
serve_client sockfd = read sockfd maxline >>= after_read sockfd

-- `nready` is an `int` of 32 bits, kept as its pattern: the -1 of a `poll` that fails is 2 ^ 32 - 1.
-- `--nready`:
unfoldable pub decrement : ℕ → ℕ
decrement nready = (nready + 4294967295) % 4294967296

-- `nready <= 0`:
unfoldable pub none_left : ℕ → Bool
none_left nready = nready == 0 || leb 2147483648 nready

-- The loop over `client[i]` for the `rounds` slots up to `maxi`. It stops when the ready ones have
-- been served.
unfoldable pub serve_clients : (ℕ → Bool) → ℕ → ℕ → ℕ → Slots → Cmd Slots
serve_clients revents zero i nready slots = pure slots
serve_clients revents (suc rounds) i nready [] = pure []
serve_clients revents (suc rounds) i nready (none ∷ slots) = do
  rest ← serve_clients revents rounds (i + 1) nready slots
  pure (none ∷ rest)
serve_clients revents (suc rounds) i nready (some fd ∷ slots) =
    let skipped = serve_clients revents rounds (i + 1) nready slots in
    let left = decrement nready in
    let more = serve_clients revents rounds (i + 1) left slots in
    if revents i
    then (do
      slot ← serve_client fd
      rest ← if none_left left then pure slots else more
      pure (slot ∷ rest))
    else (do rest ← skipped; pure (some fd ∷ rest))

abbrev pub serve_table : (ℕ → Bool) → ℕ → Table → Cmd Table
serve_table revents nready t = do
  slots ← serve_clients revents t.maxi 1 nready t.slots
  pure (record t { slots = slots })

-- One round of the outer loop, for what `poll` reports: its result, which is the number of ready
-- descriptors or -1, and for each index whether it can be read.
unfoldable pub round : ℕ → ℕ → (ℕ → Bool) → Table → Cmd Table
round listenfd nready revents t =
    if revents 0
    then (do
      t' ← add_client listenfd t
      let left = decrement nready in if left == 0 then pure t' else serve_table revents left t')
    else serve_table revents nready t

-- A report of `poll`: its result, as a pattern of 32 bits, and what it leaves in the array.
pub record Report : Type 0 where
  pub nready : ℕ
  pub revents : ℕ → Bool

unfoldable pub rounds_of : ℕ → List Report → Table → Cmd Table
rounds_of listenfd [] t = pure t
rounds_of listenfd (r ∷ reports) t =
    round listenfd r.nready r.revents t >>= rounds_of listenfd reports

-- `main` over the reports that come in turn; behind the last it waits in `poll`.
unfoldable pub main : List Report → Cmd (Unit {0})
main reports = do
  listenfd ← socket 2 1 0
  note (Action.reuse_addr listenfd)
  bind listenfd (0 ∷ 0 ∷ 0 ∷ 0 ∷ []) (31 ∷ 64 ∷ [])
  listen listenfd 128
  t ← rounds_of listenfd reports initial
  λ w log. blocked log
