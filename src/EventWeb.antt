-- ===== src/EventWeb.antt =====
-- WebServer/Libevent_Web/webServer.c: a web server over the buffered events of libevent, which
-- gives a callback the bytes that came, and takes the bytes of the answer. What the program prints
-- on its terminal is left out, except where printing reads past the end of an array.
pub mod Scan
pub mod Regular
pub mod Request
pub mod Server
pub mod Gets
pub mod Answered
pub mod Session
use Prim.Native.Nat.{bit_and}
use unix_net.Common.{
  ℕ, zero, suc, ◌%◌, ◌^◌, Bool, true, false, not, ◌&&◌, ◌||◌, Option, none, some, List, [], ◌∷◌,
  ◌++◌, Bytes, codes, map, ◌==◌, ltb, leb, if◌then◌else◌, length, take, replicate, get_or,
}
use unix_net.Sys.{
  Answer, fail, ret, bytes, Action, Log, Run, ok, blocked, crashed, Cmd, ◌>>=◌, ◌>>◌, pure, call,
  note, crash,
}
use unix_net.CString.{equal, mem, until_zero}
use unix_net.CString.Decimal.{decimal}
use unix_net.Wrap.{stored}
use unix_net.Pub.{get_mime_type}
use unix_net.Files.{
  Stat, missing, directory, special, regular, Dirent, Files, dt_dir, dt_reg, descriptor, window,
  overlay,
}

-- `bufferevent_write`: false for the result -1.
abbrev pub accepted : Answer → Bool
accepted (fail e) = false
accepted a = true

-- Writes the parts in turn, up to the first that is refused.
unfoldable pub write_parts : ℕ → List Bytes → Cmd (Unit {0})
write_parts bev [] = pure tt
write_parts bev (part ∷ parts) = do
  state ← call (Action.bev_write bev part)
  if accepted state then write_parts bev parts else pure tt

abbrev pub crlf : Bytes
crlf = b'\r' ∷ b'\n' ∷ []

-- `length` is the bit pattern of an `int`.
unfoldable pub header_parts : ℕ → Bytes → Bytes → ℕ → List Bytes
header_parts code msg kind length =
    (codes "HTTP/1.1 " ++ (decimal code ++ (b' ' ∷ (msg ++ crlf))))
    ∷ (codes "Content-Type:" ++ (kind ++ crlf))
    ∷ (if ltb 0 length && ltb length (2 ^ 31)
        then (codes "Content-Length:" ++ (decimal length ++ crlf)) ∷ crlf ∷ []
        else crlf ∷ [])

abbrev pub send_header : ℕ → ℕ → Bytes → Bytes → ℕ → Cmd (Unit {0})
send_header bev code msg kind length = write_parts bev (header_parts code msg kind length)

-- One `read` of 5060 bytes, and one write of what it gave.
abbrev pub forward : ℕ → ℕ → Answer → Cmd (Unit {0})
forward bev fd (fail e) = note (Action.close fd)
forward bev fd a = note (Action.bev_write bev (stored a)) >> note (Action.close fd)

abbrev pub send_opened : ℕ → Answer → Cmd (Unit {0})
send_opened bev (fail e) = note (Action.close (descriptor (fail e)))
send_opened bev a = call (Action.read (descriptor a) 5060) >>= forward bev (descriptor a)

unfoldable pub send_file : ℕ → Bytes → Cmd (Unit {0})
send_file bev path = call (Action.open_file path) >>= send_opened bev

-- The list item of an entry, by the bits of its type; none for other types.
unfoldable pub item : Bytes → Dirent → Option Bytes
item repath d =
    if bit_and d.d_type dt_dir == dt_dir
    then some (
        codes "<li><a href = \""
        ++ (repath ++ (b'/' ∷ (d.d_name ++ (codes "/\">" ++ (d.d_name ++ codes "</a></li>"))))))
    else if bit_and d.d_type dt_reg == dt_reg
    then some (
        codes "<li><a href = \""
        ++ (repath ++ (b'/' ∷ (d.d_name ++ (codes "\">" ++ (d.d_name ++ codes "</a></li>"))))))
    else none

-- The array is cleared for each entry, but the count `n` stays.
abbrev pub cache_after : ℕ → Option Bytes → Bytes × ℕ
cache_after n none = ([], n)
cache_after n (some text) = (text, length text)

unfoldable pub send_items : ℕ → Bytes → List Dirent → ℕ → Cmd (Unit {0})
send_items bev repath [] n = pure tt
send_items bev repath (d ∷ entries) n =
    let (text, n') = cache_after n (item repath d) in
    note (Action.bev_write bev (window n' text)) >> send_items bev repath entries n'

abbrev pub send_listing : ℕ → Bytes → Option (List Dirent) → Cmd (Unit {0})
send_listing bev repath none = pure tt
send_listing bev repath (some namelist) = do
  send_items bev repath namelist 0
  send_file bev (codes "./SanfDir/behind.html")
  note (Action.bev_free bev)

abbrev pub process_by_stat : Files → ℕ → Bytes → Bytes → Stat → Cmd (Unit {0})
process_by_stat files bev path repath missing = do
  send_header bev 404 (codes "Not Found") (get_mime_type (codes "*.html")) 0
  send_file bev (codes "./error.html")
  note (Action.bev_free bev)
process_by_stat files bev path repath (regular size) = do
  send_header bev 200 (codes "OK") (get_mime_type path) (size % 2 ^ 32)
  send_file bev repath
  note (Action.bev_free bev)
process_by_stat files bev path repath directory = do
  send_header bev 200 (codes "OK") (get_mime_type (codes "*.html")) 0
  send_file bev (codes "./SanfDir/front.html")
  send_listing bev repath (files.scandir repath)
process_by_stat files bev path repath special = pure tt

-- `snprintf(repath, 256, ".%s", path)` keeps 255 bytes.
abbrev pub repath_of : Bytes → Bytes
repath_of path = take 255 (b'.' ∷ path)

unfoldable pub processing_requests : Files → ℕ → Bytes → Cmd (Unit {0})
processing_requests files bev path =
    let repath = repath_of path in process_by_stat files bev path repath (files.stat repath)

-- `sscanf`: a field is an array's size and the bytes that end its text.
pub record Field : Type 0 where
  pub size : ℕ
  pub stop : ℕ → Bool

unfoldable pub span : (ℕ → Bool) → Bytes → Bytes × Bytes
span stop [] = ([], [])
span stop (c ∷ s) =
    let (word, rest) = span stop s in if stop c then ([], c ∷ s) else (c ∷ word, rest)

abbrev pub is_space : ℕ → Bool
is_space c = c == b' ' || (leb 9 c && leb c 13)

unfoldable pub skip_space : Bytes → Bytes
skip_space [] = []
skip_space (c ∷ s) = if is_space c then skip_space s else c ∷ s

-- The texts of the fields: the ones from the first that does not match on stay empty. There is no
-- result where a text with its zero is longer than its array.
abbrev pub scan_word : ℕ → List Field → Bytes → Option (List Bytes) → Option (List Bytes)
scan_word size fields [] more = some ([] ∷ map (λ _. []) fields)
scan_word size fields (c ∷ word) none = none
scan_word size fields (c ∷ word) (some texts) =
    if leb size (length (c ∷ word)) then none else some ((c ∷ word) ∷ texts)

unfoldable pub scan : List Field → Bytes → Option (List Bytes)
scan [] s = some []
scan (f ∷ fields) s =
    let (word, rest) = span f.stop s in scan_word f.size fields word (scan fields (skip_space rest))

-- `"%[^ ] %[^ ] %[^ \r\n]"` into `method[10]`, `path[256]` and `protocol[10]`.
abbrev pub request_fields : List Field
request_fields =
    record { size = 10; stop = λ c. c == b' ' }
    ∷ record { size = 256; stop = λ c. c == b' ' }
    ∷ record { size = 10; stop = λ c. c == b' ' || c == b'\r' || c == b'\n' }
    ∷ []

-- Reads off the rest, and prints the array each time: an array that has no zero is read past its
-- end.
unfoldable pub drain : ℕ → Bytes → Cmd (Unit {0})
drain bev buf [] log = blocked (Action.bev_read bev 256 ∷ log)
drain bev buf (bytes (b ∷ bs) ∷ w) log =
    let rest = drain bev (overlay (b ∷ bs) buf) w (Action.bev_read bev 256 ∷ log) in
    if mem 0 (overlay (b ∷ bs) buf) then rest else crashed (Action.bev_read bev 256 ∷ log)
drain bev buf (a ∷ w) log = ok tt w (Action.bev_read bev 256 ∷ log)

abbrev pub serve_scanned : Files → ℕ → Bytes → Option (List Bytes) → Cmd (Unit {0})
serve_scanned files bev buf none = crash
serve_scanned files bev buf (some texts) = do
  drain bev buf
  if equal (get_or texts 0 []) (codes "GET")
      then processing_requests files bev (get_or texts 1 [])
      else pure tt

abbrev pub serve_buffer : Files → ℕ → Bytes → Cmd (Unit {0})
serve_buffer files bev buf =
    if mem 0 buf then serve_scanned files bev buf (scan request_fields (until_zero buf)) else crash

unfoldable pub read_cb : Files → ℕ → Cmd (Unit {0})
read_cb files bev = do
  n ← call (Action.bev_read bev 256)
  serve_buffer files bev (overlay (stored n) (replicate 256 0))
