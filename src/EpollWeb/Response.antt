-- ===== src/EpollWeb/Response.antt =====
-- `send_header` and `SendData` of WebServer/Epoll_Web/webServer.c. What the program prints on its
-- terminal is left out.
use Prim.Native.Nat.{bit_and}
use unix_net.Common.{
  ℕ, ◌%◌, ◌^◌, Bool, true, false, ◌&&◌, Option, none, some, List, [], ◌∷◌, ◌++◌, Bytes, codes, ◌==◌,
  ltb, if◌then◌else◌, length, take,
}
use unix_net.Sys.{
  Answer, fail, ret, bytes, Action, ok, blocked, Cmd, ◌>>=◌, ◌>>◌, pure, call, note, crash,
}
use unix_net.CString.Decimal.{decimal}
use unix_net.Pub.{get_mime_type}
use unix_net.Files.{
  Stat, missing, directory, special, regular, Dirent, Files, dt_dir, dt_reg, descriptor, window,
  overlay,
}

abbrev pub crlf : Bytes
crlf = b'\r' ∷ b'\n' ∷ []

abbrev pub state_of : ℕ → Bytes
state_of code = if code == 200 then codes "OK" else if code == 404 then codes "Not Found" else []

-- `length` is the bit pattern of an `int`, which is sent where it is positive.
unfoldable pub send_header : ℕ → ℕ → Bytes → ℕ → Cmd (Unit {0})
send_header cfd code kind length = do
  note (Action.send cfd (codes "HTTP/1.1 " ++ (decimal code ++ (b' ' ∷ (state_of code ++ crlf)))))
  note (Action.send cfd (codes "Content-Type:" ++ (kind ++ crlf)))
  if ltb 0 length && ltb length (2 ^ 31)
      then note (Action.send cfd (codes "Content-length:" ++ (decimal length ++ crlf)))
      else pure tt
  note (Action.send cfd crlf)

-- `send(cfd, buf, n, 0)` for the result of a read: with -1 the count is the largest there is.
abbrev pub send_read : ℕ → Answer → Cmd (Unit {0})
send_read cfd (bytes bs) = note (Action.send cfd bs)
send_read cfd (ret n) = note (Action.send cfd [])
send_read cfd (fail e) = crash

-- The loop that copies a file to the client; false where a `send` fails.
unfoldable pub copy_loop : ℕ → ℕ → Cmd Bool
copy_loop file cfd [] log = blocked (Action.read file 2048 ∷ log)
copy_loop file cfd (fail e ∷ w) log = ok true w (Action.read file 2048 ∷ log)
copy_loop file cfd (ret n ∷ w) log = ok true w (Action.read file 2048 ∷ log)
copy_loop file cfd (bytes [] ∷ w) log = ok true w (Action.read file 2048 ∷ log)
copy_loop file cfd (bytes (b ∷ bs) ∷ []) log =
    blocked (Action.send cfd (b ∷ bs) ∷ Action.read file 2048 ∷ log)
copy_loop file cfd (bytes (b ∷ bs) ∷ fail e ∷ w) log =
    ok false w (Action.send cfd (b ∷ bs) ∷ Action.read file 2048 ∷ log)
copy_loop file cfd (bytes (b ∷ bs) ∷ a ∷ w) log =
    copy_loop file cfd w (Action.send cfd (b ∷ bs) ∷ Action.read file 2048 ∷ log)

-- `close(cfd); epoll_ctl(epFd, EPOLL_CTL_DEL, cfd, ev);`
abbrev pub drop_client : ℕ → Cmd (Unit {0})
drop_client cfd = note (Action.close cfd) >> note (Action.epoll_del cfd)

unfoldable pub send_missing : ℕ → Cmd (Unit {0})
send_missing cfd = do
  send_header cfd 404 (get_mime_type (codes "*.html")) 0
  fd ← call (Action.open_file (codes "./error.html"))
  n ← call (Action.read (descriptor fd) 2048)
  send_read cfd n
  note (Action.close (descriptor fd))
  drop_client cfd

abbrev pub finish_file : ℕ → ℕ → Bool → Cmd (Unit {0})
finish_file file cfd true = note (Action.close file) >> drop_client cfd
finish_file file cfd false = note (Action.close file)

abbrev pub copy_opened : ℕ → Answer → Cmd (Unit {0})
copy_opened cfd (fail e) = pure tt
copy_opened cfd a = do whole ← copy_loop (descriptor a) cfd; finish_file (descriptor a) cfd whole

-- `st_size` is passed as an `int`.
unfoldable pub send_regular : ℕ → Bytes → Bytes → ℕ → Cmd (Unit {0})
send_regular cfd path repath size = do
  send_header cfd 200 (get_mime_type path) (size % 2 ^ 32)
  fd ← call (Action.open_file repath)
  copy_opened cfd fd

-- The list item of an entry, by the bits of its type; none for other types.
unfoldable pub item : Bytes → Dirent → Option Bytes
item repath d =
    if bit_and d.d_type dt_dir == dt_dir
    then some (
        codes "<li><a href = \"."
        ++ (repath ++ (d.d_name ++ (codes "/\">" ++ (d.d_name ++ codes "</a></li>")))))
    else if bit_and d.d_type dt_reg == dt_reg
    then some (
        codes "<li><a href = \"."
        ++ (repath ++ (d.d_name ++ (codes "\">" ++ (d.d_name ++ codes "</a></li>")))))
    else none

-- One round over the entries: an entry of another type sends as many zeros as the last text had
-- bytes. The result is the array and its count after the last round.
abbrev pub cache_after : ℕ → Option Bytes → Bytes × ℕ
cache_after j none = ([], j)
cache_after j (some text) = (text, length text)

unfoldable pub send_items : ℕ → Bytes → List Dirent → Bytes → ℕ → Cmd (Bytes × ℕ)
send_items cfd repath [] cache j = pure (cache, j)
send_items cfd repath (d ∷ entries) cache j =
    let (text, n) = cache_after j (item repath d) in
    note (Action.send cfd (window n text)) >> send_items cfd repath entries text n

-- The page footer: the count that is sent is `num`, the number of entries, and the array holds
-- what was read over what the last entry left. An array of 2048 bytes cannot give more.
unfoldable pub send_footer : ℕ → ℕ → Bytes → Answer → Cmd (Unit {0})
send_footer cfd num cache (fail e) =
    if ltb 2048 num then crash else note (Action.send cfd (window num cache))
send_footer cfd num cache (ret n) =
    if ltb 2048 num then crash else note (Action.send cfd (window num cache))
send_footer cfd num cache (bytes bs) =
    if ltb 2048 num then crash else note (Action.send cfd (window num (overlay bs cache)))

abbrev pub read_count : Answer → Bytes
read_count (bytes bs) = bs
read_count _ = []

unfoldable pub send_listing : ℕ → Bytes → Option (List Dirent) → Cmd (Unit {0})
send_listing cfd repath none = pure tt
send_listing cfd repath (some namelist) = do
  ffd ← call (Action.open_file (codes "./SanfDir/front.html"))
  front ← call (Action.read (descriptor ffd) 2048)
  send_read cfd front
  note (Action.close (descriptor ffd))
  (cache, j) ← send_items cfd repath namelist (read_count front) (length (read_count front))
  bfd ← call (Action.open_file (codes "./SanfDir/behind.html"))
  behind ← call (Action.read (descriptor bfd) 2048)
  send_footer cfd (length namelist) cache behind
  note (Action.close (descriptor bfd))
  drop_client cfd

-- The answer to a path, by what `stat` says of it; nothing is done for a special file.
abbrev pub send_by_stat : Files → ℕ → Bytes → Bytes → Stat → Cmd (Unit {0})
send_by_stat files cfd path repath missing = send_missing cfd
send_by_stat files cfd path repath (regular size) = send_regular cfd path repath size
send_by_stat files cfd path repath directory = do
  send_header cfd 200 (get_mime_type (codes "*.html")) 0
  send_listing cfd repath (files.scandir repath)
send_by_stat files cfd path repath special = pure tt

-- `snprintf(repath, 1024, ".%s", path)` keeps 1023 bytes.
abbrev pub repath_of : Bytes → Bytes
repath_of path = take 1023 (b'.' ∷ path)

unfoldable pub send_data : Files → ℕ → Bytes → Cmd (Unit {0})
send_data files cfd path =
    let repath = repath_of path in send_by_stat files cfd path repath (files.stat repath)
