-- ===== src/EventTest.antt =====
-- WebServer/test/event_wb.c: a web server over buffered events, which decodes the name that it is
-- asked for. What it prints is left out.
pub mod Serve
pub mod Server
pub mod Whole
use mathlib.Core.Option
use unix_net.Common.{
  ℕ, ◌-◌, Bool, true, false, Option, none, some, List, [], ◌∷◌, ◌++◌, Bytes, codes, ◌==◌, ◌||◌, map,
  if◌then◌else◌, length, drop, replicate, get_or,
}
use unix_net.Sys.{
  Answer, fail, ret, bytes, Action, Log, Run, ok, blocked, Cmd, ◌>>=◌, ◌>>◌, pure, call, note,
  crash,
}
use unix_net.CString.{equal, mem, until_zero, to_upper}
use unix_net.CString.Decimal.{decimal}
use unix_net.Wrap.{stored}
use unix_net.Pub.{get_mime_type, strdecode}
use unix_net.Files.{Dirent, dt_dir, dt_reg, descriptor, overlay}
use unix_net.EventWeb.{crlf, scan, request_fields}

-- What `stat` says of a path, with the size.
pub data Node : Type 0 where
  missing : Node
  directory file special : ℕ → Node

-- The system's part: `stat`; what `opendir` and `readdir` give; and the text that
-- `sprintf(buf, "%s...", buf, ...)` leaves in `buf`, of the text that was there and what is printed
-- behind it. The last is a call whose target is one of its arguments: C leaves it undefined, so
-- nothing is known of the text, and there may be none.
pub record Disk : Type 0 where
  pub stat : Bytes → Node
  pub entries : Bytes → Option (List Dirent)
  pub overlapped : Bytes → Bytes → Option Bytes

-- Where there is no size, which is the argument -1, no line is printed.
abbrev pub with_length : Disk → Option ℕ → Bytes → Option Bytes
with_length disk none buf = some buf
with_length disk (some n) buf = disk.overlapped buf (codes "Content-Length:" ++ (decimal n ++ crlf))

-- The text in `buf` when it is written to the client, if the calls of `sprintf` leave one.
unfoldable pub header_text : Disk → ℕ → Bytes → Bytes → Option ℕ → Option Bytes
header_text disk op msg filetype filesize =
    let status = codes "HTTP/1.1 " ++ (decimal op ++ (b' ' ∷ (msg ++ crlf))) in
    elim (disk.overlapped status (codes "Content-Type: " ++ (filetype ++ crlf))) [
      | none ↦ none
      | some buf ↦ Option.map (λ text. text ++ crlf) (with_length disk filesize buf)
    ]

abbrev pub write_header : ℕ → Option Bytes → Cmd (Unit {0})
write_header bev none = crash
write_header bev (some buf) = note (Action.bev_write bev buf)

abbrev pub copy_header : Disk → ℕ → ℕ → Bytes → Bytes → Option ℕ → Cmd (Unit {0})
copy_header disk bev op msg filetype filesize =
    write_header bev (header_text disk op msg filetype filesize)

-- Reads to the end, or to the first failure, and then closes.
unfoldable pub copy_loop : ℕ → ℕ → Cmd (Unit {0})
copy_loop bev fd [] log = blocked (Action.read fd 1024 ∷ log)
copy_loop bev fd (bytes (b ∷ bs) ∷ w) log =
    copy_loop bev fd w (Action.bev_write bev (b ∷ bs) ∷ Action.read fd 1024 ∷ log)
copy_loop bev fd (a ∷ w) log = ok tt w (Action.close fd ∷ Action.read fd 1024 ∷ log)

-- The result of `open` is not looked at.
unfoldable pub copy_file : ℕ → Bytes → Cmd (Unit {0})
copy_file bev path = do fd ← call (Action.open_file path); copy_loop bev (descriptor fd)

-- `%32s` and `%8ld`
abbrev pub padded : ℕ → Bytes → Bytes
padded width text = replicate (width - length text) b' ' ++ text

-- `stat` is called for the bare name; where it fails, a size that was never set is printed.
abbrev pub size_of : Node → Option ℕ
size_of missing = none
size_of (directory n) = some n
size_of (file n) = some n
size_of (special n) = some n

abbrev pub dir_line : Bytes → ℕ → Bytes
dir_line name size =
    codes "<li><a href='"
    ++ (name
        ++ (codes "/'>"
            ++ (padded 32 name ++ (codes "</a>   " ++ (padded 8 (decimal size) ++ codes "</li>")))))

abbrev pub file_line : Bytes → ℕ → Bytes
file_line name size =
    codes "<li><a href='"
    ++ (name
        ++ (codes "'>"
            ++ (padded 32 name
                ++ (codes "</a>     " ++ (padded 8 (decimal size) ++ codes "</li>")))))

abbrev pub write_line : ℕ → Option Bytes → Cmd (Unit {0})
write_line bev none = crash
write_line bev (some line) = note (Action.bev_write bev line)

unfoldable pub send_entry : Disk → ℕ → Dirent → Cmd (Unit {0})
send_entry disk bev d =
    let size = size_of (disk.stat d.d_name) in
    if d.d_type == dt_dir
    then write_line bev (elim size [ none ↦ none | some n ↦ some (dir_line d.d_name n) ])
    else if d.d_type == dt_reg
    then write_line bev (elim size [ none ↦ none | some n ↦ some (file_line d.d_name n) ])
    else pure tt

unfoldable pub send_entries : Disk → ℕ → List Dirent → Cmd (Unit {0})
send_entries disk bev [] = pure tt
send_entries disk bev (d ∷ entries) = send_entry disk bev d >> send_entries disk bev entries

abbrev pub send_listed : Disk → ℕ → Option (List Dirent) → Cmd (Unit {0})
send_listed disk bev none = pure tt
send_listed disk bev (some entries) =
    send_entries disk bev entries >> copy_file bev (codes "html/dir_tail.html")

unfoldable pub send_dir : Disk → ℕ → Bytes → Cmd (Unit {0})
send_dir disk bev path = do
  copy_file bev (codes "html/dir_header.html")
  send_listed disk bev (disk.entries path)

unfoldable pub serve_path : Disk → ℕ → Bytes → Node → Cmd (Unit {0})
serve_path disk bev path missing = do
  copy_header disk bev 404 (codes "NOT FOUND") (get_mime_type (codes "error.html")) none
  copy_file bev (codes "error.html")
serve_path disk bev path (directory n) = do
  copy_header disk bev 200 (codes "OK") (get_mime_type (codes "ww.html")) (some n)
  send_dir disk bev path
serve_path disk bev path (file n) = do
  copy_header disk bev 200 (codes "OK") (get_mime_type path) (some n)
  copy_file bev path
serve_path disk bev path (special n) = pure tt

-- The decoded name is a path below the work directory. It ends at its first zero, which may be a
-- decoded one.
abbrev pub str_path : Bytes → Bytes
str_path path =
    if equal path (codes "/") || equal path (codes "/.") then codes "./" else drop 1 path

unfoldable pub http_request : Disk → ℕ → Bytes → Cmd (Unit {0})
http_request disk bev path =
    let p = str_path (until_zero (strdecode path)) in serve_path disk bev p (disk.stat p)

-- Reads off the rest.
unfoldable pub drain : ℕ → Cmd (Unit {0})
drain bev [] log = blocked (Action.bev_read bev 256 ∷ log)
drain bev (bytes (b ∷ bs) ∷ w) log = drain bev w (Action.bev_read bev 256 ∷ log)
drain bev (a ∷ w) log = ok tt w (Action.bev_read bev 256 ∷ log)

-- `strcasecmp(method, "get") == 0`
abbrev pub is_get : Bytes → Bool
is_get method = equal (map to_upper method) (codes "GET")

-- The arrays are not set before `sscanf`: a word that is not there leaves one undefined.
abbrev pub serve_words : Disk → ℕ → Option (List Bytes) → Cmd (Unit {0})
serve_words disk bev none = crash
serve_words disk bev (some ([] ∷ words)) = crash
serve_words disk bev (some (method ∷ [] ∷ words)) = if is_get method then crash else pure tt
serve_words disk bev (some (method ∷ path ∷ words)) =
    if is_get method then drain bev >> http_request disk bev path else pure tt
serve_words disk bev (some _) = crash

abbrev pub serve_read : Disk → ℕ → Bytes → Cmd (Unit {0})
serve_read disk bev [] = pure tt
serve_read disk bev (c ∷ cs) =
    let buf = overlay (c ∷ cs) (replicate 256 0) in
    if mem 0 buf then serve_words disk bev (scan request_fields (until_zero buf)) else crash

unfoldable pub read_cb : Disk → ℕ → Cmd (Unit {0})
read_cb disk bev = do n ← call (Action.bev_read bev 256); serve_read disk bev (stored n)

-- `bevent_cb`: at the end of the stream, or an error, the client is freed.
unfoldable pub bevent_cb : ℕ → (eof error : Bool) → Cmd (Unit {0})
bevent_cb bev eof error = if eof || error then note (Action.bev_free bev) else pure tt
