-- ===== src/Sys.antt =====
-- The system calls as the programs see them: a program asks, and the system answers from a list.
-- A call that finds no answer left has not returned: the run is blocked there.
pub mod Ensures
pub mod Preserves
pub mod Alike
pub mod Trace
use unix_net.Common.{ℕ, List, [], ◌∷◌, Bytes, length}

-- What a call returns: -1 with `errno`, a result that is not negative, or a count of bytes with
-- the bytes that were put into the caller's buffer.
pub data Answer : Type 0 where
  fail : ℕ → Answer
  ret : ℕ → Answer
  bytes : Bytes → Answer

-- The result of a call that did not fail, as a number.
abbrev pub value : Answer → ℕ
value (fail e) = 0
value (ret n) = n
value (bytes bs) = length bs

-- The `errno` values that the programs compare with, and the two standard descriptors.
abbrev pub eintr : ℕ
eintr = 4

abbrev pub eagain : ℕ
eagain = 11

abbrev pub econnaborted : ℕ
econnaborted = 103

abbrev pub econnreset : ℕ
econnreset = 104

-- A call with the arguments that the program chose; `pcap_packet` is the wait for a packet. `reply` sends to the address that the last
-- `recvfrom` stored; `print` writes text to the standard output;
-- `loop_exit` ends
-- the dispatcher after so many seconds; `write_oversized` is a `write` of 2 ^ 64 - 1 bytes, which is what a count of -1 becomes.
pub data Action : Type 0 where
  socket : ℕ → ℕ → ℕ → Action
  bind : ℕ → Bytes → Bytes → Action
  listen : ℕ → ℕ → Action
  accept connect reuse_addr set_nonblock close : ℕ → Action
  inet_pton open_file chdir : Bytes → Action
  read recv : ℕ → ℕ → Action
  write send : ℕ → Bytes → Action
  write_oversized : ℕ → Action
  epoll_add : ℕ → ℕ → Action
  epoll_del : ℕ → Action
  event_new event_add event_del bev_free : ℕ → Action
  bev_read : ℕ → ℕ → Action
  bev_write : ℕ → Bytes → Action
  bev_new : ℕ → Action
  bev_enable : ℕ → Action
  base_new base_free listener_free signal_new signal_add signal_free loop_break : Action
  listener_new loop_exit sleep : ℕ → Action
  fork waitpid pipe : Action
  net_init : Bytes → Action
  build_udp : ℕ → ℕ → ℕ → Bytes → ℕ → Action
  build_ipv4 : ℕ → ℕ → ℕ → Bytes → Bytes → ℕ → Action
  build_ethernet : Bytes → Bytes → ℕ → ℕ → Action
  net_write net_destroy : Action
  pcap_lookupdev pcap_setfilter pcap_packet pcap_close : Action
  pcap_open_live pcap_compile pcap_lookupnet : Bytes → Action
  recvfrom : ℕ → ℕ → Action
  sendto : ℕ → Bytes → Bytes → Bytes → Action
  reply : ℕ → Bytes → Action
  unlink print : Bytes → Action
  bind_path : ℕ → Bytes → Action
  connect_path : ℕ → Bytes → Action
  interface_index : ℕ → Bytes → Action
  send_frame : ℕ → ℕ → Bytes → Action

-- The log of the calls has the latest first.
abbrev pub Log : Type 0
Log = List Action

-- How a run ends: with a value, the answers left and the log; in `exit`; waiting in a call; or in
-- behaviour that C leaves undefined.
pub data Run (A : Type 0) : Type 0 where
  ok : A → List Answer → Log → Run A
  exited : ℕ → Log → Run A
  blocked : Log → Run A
  crashed : Log → Run A

abbrev pub Cmd : Type 0 → Type 0
Cmd A = List Answer → Log → Run A

abbrev pub and_then : {A B : Type 0} → Run A → (A → Cmd B) → Run B
and_then (ok a w log) f = f a w log
and_then (exited c log) f = exited c log
and_then (blocked log) f = blocked log
and_then (crashed log) f = crashed log

infixl 5 ◌>>=◌ ◌>>◌
abbrev pub ◌>>=◌ : {A B : Type 0} → Cmd A → (A → Cmd B) → Cmd B
m >>= f = λ w log. and_then (m w log) f

abbrev pub ◌>>◌ : {A B : Type 0} → Cmd A → Cmd B → Cmd B
m >> k = m >>= λ _. k

abbrev pub pure : {A : Type 0} → A → Cmd A
pure a w log = ok a w log

-- A call whose result the program reads.
abbrev pub call : Action → Cmd Answer
call act [] log = blocked (act ∷ log)
call act (a ∷ w) log = ok a w (act ∷ log)

-- A call whose result the program ignores.
abbrev pub note : Action → Cmd (Unit {0})
note act w log = ok tt w (act ∷ log)

abbrev pub crash : {A : Type 0} → Cmd A
crash w log = crashed log

abbrev pub halt : {A : Type 0} → ℕ → Cmd A
halt c w log = exited c log
