-- ===== src/MessageLog.antt =====
-- WebServer/test/log.c: the message log of a program, two files and their line formats, in static
-- variables. Where an array would be overrun, or a stream is used that is closed or not there, an
-- operation has no result.
pub mod Closed
pub mod Append
pub mod Clock
pub mod Demo
use Prim.Native.Nat.{bit_and}
use unix_net.Common.{
  ℕ, ◌-◌, ◌^◌, Bool, true, false, not, Option, none, some, List, [], ◌∷◌, ◌++◌, Bytes, codes, ◌==◌,
  ltb, if◌then◌else◌, length, replicate,
}
use unix_net.CString.Decimal.{decimal}

-- An open stream by its file's name; `live` until it is closed.
pub record Stream : Type 0 where
  pub name : Bytes
  pub live : Bool

-- Where a line goes.
pub data Target : Type 0 where
  file : Bytes → Target
  stderr : Target

-- The static variables, and what was written, the latest first.
pub record State : Type 0 where
  pub msgopt : ℕ
  pub wanopt : ℕ
  pub msgdatefmt : Bytes
  pub wandatefmt : Bytes
  pub ident_name : Bytes
  pub msgfile : Option Stream
  pub wanfile : Option Stream
  pub out : List (Target × Bytes)

-- The system's part: the present time in a format, the process, and the files.
pub record Host : Type 0 where
  pub strftime : Bytes → Bytes
  pub getpid : ℕ
  pub fopen : Bytes → Bool
  pub fileno : Bytes → ℕ

infixl 5 ◌>>=◌
abbrev pub ◌>>=◌ : {A B : Type 0} → Option A → (A → Option B) → Option B
none >>= f = none
some a >>= f = f a

abbrev log_procname : ℕ
log_procname = 1

abbrev log_pid : ℕ
log_pid = 16

abbrev pub log_perror : ℕ
log_perror = 256

abbrev pub msg_info : ℕ
msg_info = 1

abbrev pub msg_warn : ℕ
msg_warn = 16

abbrev pub has : ℕ → ℕ → Bool
has options bit = not (bit_and options bit == 0)

-- The text in an array of so many bytes, with its zero.
abbrev pub fits : ℕ → Bytes → Option Bytes
fits size text = if ltb (length text) size then some text else none

-- `"[%6d]"`
abbrev pid_text : ℕ → Bytes
pid_text pid =
    let digits = decimal pid in b'[' ∷ (replicate (6 - length digits) b' ' ++ (digits ++ b']' ∷ []))

unfoldable pub logprefix : Host → ℕ → Bytes → Bytes → Option Bytes
logprefix host options format ident = do
  time ← fits 1024 (host.strftime format)
  let name = if has options log_procname then ident ++ b' ' ∷ [] else []
  let pid = if has options log_pid then pid_text host.getpid else []
  fits 1024 (time ++ (b' ' ∷ (name ++ pid)))

abbrev pub log_line : Bytes → Bytes → Bytes
log_line prefix text = prefix ++ (codes ": " ++ (text ++ b'\n' ∷ []))

-- `fprintf`, on a stream that is there and not closed.
unfoldable pub put : Option Stream → Bytes → State → Option State
put none line st = none
put (some s) line st =
    if s.live then some (record st { out = (file s.name, line) ∷ st.out }) else none

unfoldable pub msglog_info : Host → Bytes → State → Option State
msglog_info host text st = do
  prefix ← logprefix host st.msgopt st.msgdatefmt st.ident_name
  put st.msgfile (log_line prefix text) st

abbrev pub put_stderr : Bytes → State → State
put_stderr line st =
    if has st.wanopt log_perror then record st { out = (stderr, line) ∷ st.out } else st

unfoldable pub msglog_warn : Host → Bytes → State → Option State
msglog_warn host text st = do
  prefix ← logprefix host st.wanopt st.wandatefmt st.ident_name
  st' ← put st.wanfile (log_line prefix text) st
  some (put_stderr (log_line prefix text) st')

-- `text` is the format with its arguments printed.
unfoldable pub msglog : Host → ℕ → Bytes → State → Option State
msglog host mtype text st = do
  st' ← if has mtype msg_info then msglog_info host text st else some st
  if has mtype msg_warn then msglog_warn host text st' else some st'

-- The name of a log file, in an array of 200 bytes; the date is printed in one of 100.
unfoldable pub openfilename : Host → Bytes → Bytes → Option Bytes
openfilename host pre [] = fits 200 pre
openfilename host pre (c ∷ date) = do
  timestring ← fits 100 (host.strftime (c ∷ date))
  fits 200 (pre ++ (b'.' ∷ timestring))

-- A file that is not open yet is opened where it has a name; the result is false where that fails.
unfoldable pub open_stream : Host → Option Stream → Bytes → Bytes → Option (Option Stream × Bool)
open_stream host (some s) pre date = some (some s, true)
open_stream host none [] date = some (none, true)
open_stream host none (c ∷ pre) date = do
  name ← openfilename host (c ∷ pre) date
  some (
      if host.fopen name then (some (record { name = name; live = true }), true) else (none, false))

abbrev pub default_format : Bytes
default_format = codes "%m-%d %H:%M:%S"

abbrev pub opened_text : Host → Stream → Stream → Bytes
opened_text host m w =
    codes "File is msgfile=["
    ++ (decimal (host.fileno m.name)
        ++ (codes "],wanfile=[" ++ (decimal (host.fileno w.name) ++ codes "].")))

-- The part of `msgLogOpen` behind the two files.
unfoldable pub opened : Host → Bytes → Option Stream → Option Stream → State → Option (State × Bool)
opened host ident (some m) (some w) st = do
  name ← fits 100 ident
  st' ← msglog host msg_info (opened_text host m w) (record st {
    msgopt = 17;
    wanopt = 17;
    msgdatefmt = default_format;
    wandatefmt = default_format;
    ident_name = name;
  })
  some (st', true)
opened host ident _ _ st = some (st, false)

-- The part behind the first file.
unfoldable pub open_warnings :
    Host → (ident wpre wdate : Bytes) → Option Stream → State → Option (State × Bool)
open_warnings host ident wpre wdate m st = do
  (w, ok) ← open_stream host st.wanfile wpre wdate
  let st' = record st { wanfile = w }
  if ok then opened host ident m w st' else some (st', false)

-- The result is true for 0 and false for -1.
unfoldable pub msg_log_open :
    Host → (ident mpre mdate wpre wdate : Bytes) → State → Option (State × Bool)
msg_log_open host ident mpre mdate wpre wdate st = do
  (m, ok) ← open_stream host st.msgfile mpre mdate
  let st₁ = record st { msgfile = m }
  if ok then open_warnings host ident wpre wdate m st₁ else some (st₁, false)

-- An option word that is negative as an `int` clears bits, any other one is taken as it is.
abbrev pub new_option : ℕ → ℕ → ℕ
new_option current opt = if ltb opt (2 ^ 31) then opt else bit_and current opt

abbrev pub new_format : Bytes → Bytes → Option Bytes
new_format current [] = some current
new_format current (c ∷ format) = fits 100 (c ∷ format)

unfoldable pub msg_log_format : ℕ → Bytes → ℕ → Bytes → State → Option State
msg_log_format mopt mdfmt wopt wdfmt st = do
  m ← new_format st.msgdatefmt mdfmt
  w ← new_format st.wandatefmt wdfmt
  some (record st {
    msgopt = new_option st.msgopt mopt;
    wanopt = new_option st.wanopt wopt;
    msgdatefmt = m;
    wandatefmt = w;
  })

-- `fclose` of a closed stream is undefined. The variable keeps pointing at it.
unfoldable pub close_stream : Option Stream → Option (Option Stream)
close_stream none = some none
close_stream (some s) = if s.live then some (some (record s { live = false })) else none

unfoldable pub msg_log_close : State → Option State
msg_log_close st = do
  m ← close_stream st.msgfile
  w ← close_stream st.wanfile
  some (record st { msgfile = m; wanfile = w })

-- `msgInit`, with the file names of log.h.
abbrev pub init_result : State × Bool → Option (State × Bool)
init_result (st, false) = some (st, false)
init_result (st, true) = do
  st' ← msg_log_format 17 default_format 17 default_format st
  some (st', true)

unfoldable pub msg_init : Host → Bytes → State → Option (State × Bool)
msg_init host name st = do
  r ←
      msg_log_open host name (codes "/home/itheima/log/tcpsvr") (codes "%y%m")
        (codes "/home/itheima/log/log.sys_warn") [] st
  init_result r
