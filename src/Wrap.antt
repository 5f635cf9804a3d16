-- ===== src/Wrap.antt =====
-- WebServer/Epoll_Web/wrap.c, of which the four other wrap.c files are copies: the wrappers of the
-- socket calls, the loops that read or write a given count, and the line reader with its buffer.
pub mod Retry
pub mod Count
pub mod Written
pub mod Alike
use unix_net.Common.{
  ℕ, zero, suc, ◌+◌, ◌-◌, ◌/◌, ◌%◌, Bool, ◌||◌, Option, none, some, List, [], ◌∷◌, ◌++◌, Bytes,
  ◌==◌, ltb, if◌then◌else◌, length, take, drop,
}
use unix_net.Sys.{
  Answer, fail, ret, bytes, value, Action, Log, Run, ok, blocked, Cmd, ◌>>=◌, ◌>>◌, pure, call,
  note, halt, eintr, econnaborted,
}

-- `exit(-1)`: the low byte of the status is what the parent sees.
unfoldable pub perr_exit : {A : Type 0} → Cmd A
perr_exit = halt 255

-- A failure that a signal or an aborted handshake explains is tried again.
unfoldable pub accept : ℕ → Cmd ℕ
unfolding perr_exit
accept fd [] log = blocked (Action.accept fd ∷ log)
accept fd (fail e ∷ w) log =
    let again = accept fd w (Action.accept fd ∷ log) in
    if e == econnaborted || e == eintr then again else perr_exit w (Action.accept fd ∷ log)
accept fd (a ∷ w) log = ok (value a) w (Action.accept fd ∷ log)

-- The wrappers that try once.
unfoldable pub or_exit : Answer → Cmd ℕ
unfolding perr_exit
or_exit (fail e) = perr_exit
or_exit a = pure (value a)

unfoldable pub bind : ℕ → Bytes → Bytes → Cmd ℕ
unfolding or_exit
bind fd address port = call (Action.bind fd address port) >>= or_exit

unfoldable pub connect : ℕ → Cmd ℕ
unfolding or_exit
connect fd = call (Action.connect fd) >>= or_exit

unfoldable pub listen : ℕ → ℕ → Cmd ℕ
unfolding or_exit
listen fd backlog = call (Action.listen fd backlog) >>= or_exit

unfoldable pub socket : ℕ → ℕ → ℕ → Cmd ℕ
unfolding or_exit
socket family kind protocol = call (Action.socket family kind protocol) >>= or_exit

unfoldable pub close : ℕ → Cmd ℕ
unfolding or_exit
close fd = call (Action.close fd) >>= or_exit

-- The bytes that a read stored: none at the end of the stream.
abbrev pub stored : Answer → Bytes
stored (bytes bs) = bs
stored _ = []

-- What `Read` returns: the bytes that came, or -1, with `errno`.
pub data ReadResult : Type 0 where
  got : Bytes → ReadResult
  failed : ℕ → ReadResult

-- `read` again while a signal interrupts it.
unfoldable pub read : ℕ → ℕ → Cmd ReadResult
read fd n [] log = blocked (Action.read fd n ∷ log)
read fd n (fail e ∷ w) log =
    let again = read fd n w (Action.read fd n ∷ log) in
    if e == eintr then again else ok (failed e) w (Action.read fd n ∷ log)
read fd n (a ∷ w) log = ok (got (stored a)) w (Action.read fd n ∷ log)

unfoldable pub write : ℕ → Bytes → Cmd (Option ℕ)
write fd bs [] log = blocked (Action.write fd bs ∷ log)
write fd bs (fail e ∷ w) log =
    let again = write fd bs w (Action.write fd bs ∷ log) in
    if e == eintr then again else ok none w (Action.write fd bs ∷ log)
write fd bs (a ∷ w) log = ok (some (value a)) w (Action.write fd bs ∷ log)

-- The loop of `Readn`: `left` bytes are still wanted and `acc` is in the buffer. It leaves the
-- loop when nothing is left, at the end of the stream, or at an error, which is `none`.
pub readn_loop : ℕ → ℕ → Bytes → Cmd (Option Bytes)
readn_loop fd zero acc w log = ok (some acc) w log
readn_loop fd (suc left) acc [] log = blocked (Action.read fd (suc left) ∷ log)
readn_loop fd (suc left) acc (fail e ∷ w) log =
    let again = readn_loop fd (suc left) acc w (Action.read fd (suc left) ∷ log) in
    if e == eintr then again else ok none w (Action.read fd (suc left) ∷ log)
readn_loop fd (suc left) acc (ret n ∷ w) log = ok (some acc) w (Action.read fd (suc left) ∷ log)
readn_loop fd (suc left) acc (bytes [] ∷ w) log = ok (some acc) w (Action.read fd (suc left) ∷ log)
readn_loop fd (suc left) acc (bytes (b ∷ bs) ∷ w) log =
    readn_loop fd (suc left - length (b ∷ bs)) (acc ++ (b ∷ bs)) w (Action.read fd (suc left) ∷ log)

-- The result is the count `n - nleft`, which is the length of what was stored.
unfoldable pub readn : ℕ → ℕ → Cmd (Option Bytes)
unfolding readn_loop
readn fd n = readn_loop fd n []

-- The loop of `Writen` over what is left of the buffer; the result is true where all was written.
pub writen_loop : ℕ → Bytes → Cmd Bool
writen_loop fd [] w log = ok Bool.true w log
writen_loop fd (b ∷ bs) [] log = blocked (Action.write fd (b ∷ bs) ∷ log)
writen_loop fd (b ∷ bs) (fail e ∷ w) log =
    let again = writen_loop fd (b ∷ bs) w (Action.write fd (b ∷ bs) ∷ log) in
    if e == eintr then again else ok Bool.false w (Action.write fd (b ∷ bs) ∷ log)
writen_loop fd (b ∷ bs) (a ∷ w) log =
    let rest = writen_loop fd (drop (value a) (b ∷ bs)) w (Action.write fd (b ∷ bs) ∷ log) in
    if value a == 0 then ok Bool.false w (Action.write fd (b ∷ bs) ∷ log) else rest

-- The result of `Writen` is its argument `n`, or -1.
unfoldable pub writen : ℕ → Bytes → Cmd (Option ℕ)
unfolding writen_loop
writen fd bs = do done ← writen_loop fd bs; pure (if done then some (length bs) else none)

-- `tcp4bind`. No address is INADDR_ANY; the port is stored in network order.
abbrev pub network_order : ℕ → Bytes
network_order port = (port / 256) % 256 ∷ port % 256 ∷ []

pub pton : Answer → Cmd Bytes
pton (bytes (b ∷ bs)) = pure (b ∷ bs)
pton _ = halt 1

pub address_of : Option Bytes → Cmd Bytes
unfolding pton
address_of none = pure (0 ∷ 0 ∷ 0 ∷ 0 ∷ [])
address_of (some ip) = call (Action.inet_pton ip) >>= pton

unfoldable pub tcp4bind : ℕ → Option Bytes → Cmd ℕ
unfolding socket address_of bind
tcp4bind port ip = do
  lfd ← socket 2 1 0
  address ← address_of ip
  note (Action.reuse_addr lfd)
  bind lfd address (network_order port)
  pure lfd
