-- ===== src/EpollWeb/Answered.antt =====
-- What a request line to the epoll web server comes to, by its method and its name.
use unix_net.Common.{
  ℕ, ◌≤◌, ◌%◌, ◌^◌, ◌≡◌, refl, sym, ap, ◌∙◌, false, some, List, [], ◌∷◌, ◌++◌, Bytes, codes,
  if◌then◌else◌, length, append_assoc, append-nil,
}
use unix_net.Sys.{Answer, fail, ret, bytes, Action, Log, ok}
use unix_net.CString.{equal}
use unix_net.Pub.{get_mime_type}
use unix_net.Files.{Files, regular, missing, directory, Dirent, window, overlay}
use unix_net.Readline.{newline}
use unix_net.EpollWeb.Response.{repath_of, send_data}
use unix_net.EpollWeb.Server.{serve_result}
use unix_net.EpollWeb.Sent.{handed, header_text}
use unix_net.EpollWeb.Regular.{Chunk, replies, content, send_data_regular, send_data_missing}
use unix_net.EpollWeb.Listing.{items_text, last_cache, send_data_directory}
use unix_net.EpollWeb.Request.{IsWord, request_line, read_line, serve_request}

-- A file of this size, as its reads give it; the page for a file that is not there; a list of a
-- directory between two pages; or nothing. The numbers are sizes and descriptors.
pub data Outcome : Type 0 where
  found : (size file : ℕ) → List Chunk → Outcome
  missed : ℕ → Bytes → Outcome
  listed : ℕ → Bytes → List Dirent → ℕ → Bytes → Outcome
  ignored : Outcome

abbrev pub Holds : Files → (method name : Bytes) → Outcome → Type 0
Holds files method name (found size file cs) =
    (method ≡ codes "GET") × (files.stat (repath_of name) ≡ regular size)
Holds files method name (missed file page) =
    (method ≡ codes "GET") × (files.stat (repath_of name) ≡ missing)
Holds files method name (listed ffd front entries bfd back) =
    (method ≡ codes "GET")
    × (files.stat (repath_of name) ≡ directory)
    × (files.scandir (repath_of name) ≡ some entries)
    × (length entries ≤ 2048)
Holds files method name ignored = equal (codes "GET") method ≡ false

-- The failure that ends the reading behind the request: the connection is closed by then, or the
-- bytes have run out.
abbrev pub ends : Outcome → Answer
ends ignored = fail 11
ends _ = fail 9

-- The answers of the system to serving the line.
abbrev pub given : Outcome → List Answer → List Answer
given (found size file cs) w = ret file ∷ replies cs (bytes [] ∷ w)
given (missed file page) w = ret file ∷ bytes page ∷ w
given (listed ffd front entries bfd back) w = ret ffd ∷ bytes front ∷ ret bfd ∷ bytes back ∷ w
given ignored w = w

-- The bytes that are handed to `send` for the client.
abbrev pub response : Bytes → Outcome → Bytes
response name (found size file cs) =
    header_text 200 (get_mime_type name) (size % 2 ^ 32) ++ content cs
response name (missed file page) = header_text 404 (codes "text/html; charset=utf-8") 0 ++ page
response name (listed ffd front entries bfd back) =
    header_text 200 (codes "text/html; charset=utf-8") 0
    ++ (front
        ++ (items_text (repath_of name) entries (length front)
            ++ window (length entries)
                (overlay back (last_cache (repath_of name) entries front (length front)))))
response name ignored = []

module _ (files : Files) (fd : ℕ) (name : Bytes) (w : List Answer) (log : Log) where
  -- The client has got these bytes when the run comes to its end.
  abbrev pub Sends : Bytes → Log → Type 0
  Sends text log' = handed fd log' ≡ handed fd log ++ text

  abbrev dropped : ℕ → Log → Log
  dropped file log' = Action.epoll_del fd ∷ Action.close fd ∷ Action.close file ∷ log'

  closed_silent :
      (file : ℕ) (text : Bytes) (log' : Log) → Sends text log' → Sends text (dropped file log')
  closed_silent file text log' s = append-nil _ ∙ append-nil _ ∙ append-nil _ ∙ s

  by_method :
      (method : Bytes) (o : Outcome)
      → Holds files method name o
      → (log' : Log) × ((if equal (codes "GET") method
            then send_data files fd name (given o w) log
            else ok tt (given o w) log)
          ≡ ok tt w log')
        × Sends (response name o) log'
  unfolding equal
  by_method method (found size file cs) h =
      let (log', e, s) = send_data_regular files fd name w log size file cs h.1 in
      (dropped file log', rw h.0 e, closed_silent file _ log' s)
  by_method method (missed file page) h =
      let (log', e, s) = send_data_missing files fd name w log file page h.1 in
      (dropped file log', rw h.0 e, closed_silent file _ log' s)
  by_method method (listed ffd front entries bfd back) h =
      let (log', e, s) =
        send_data_directory files fd name entries ffd bfd front back w log h.1 h.2 h.3 in
      (dropped bfd log', rw h.0 e, closed_silent bfd _ log' s)
  by_method method ignored h = (log, rw h refl, sym (append-nil _))

-- A line of a method, a name and a protocol is served by its outcome.
pub served :
    (files : Files) (fd m n : ℕ) (method name protocol more : Bytes) (o : Outcome) (w : List Answer)
    (log : Log)
    → IsWord m method
    → IsWord n name
    → Holds files (m ∷ method) (n ∷ name) o
    → let r = read_line (request_line (m ∷ method) (n ∷ name) protocol ++ newline ∷ []) more in
      (log' : Log) × (serve_result files fd r r.result (given o w) log ≡ ok tt w log')
      × (handed fd log' ≡ handed fd log ++ response (n ∷ name) o)
served files fd m n method name protocol more o w log hm hn holds =
    let (log', e, s) = by_method files fd (n ∷ name) w log (m ∷ method) o holds in
    let (asks, crashes) =
      serve_request files fd m method more (given o w) log n name (protocol ++ newline ∷ []) hm
        hn in
    (
      log',
      ap (λ t. serve_result files fd (read_line t more) (some (length t)) (given o w) log) line_text
          ∙ asks
          ∙ e,
      s,
    )
  where
    line_text :
        request_line (m ∷ method) (n ∷ name) protocol ++ newline ∷ []
        ≡ request_line (m ∷ method) (n ∷ name) (protocol ++ newline ∷ [])
    line_text =
        append_assoc (m ∷ method) _ (newline ∷ [])
        ∙ ap (λ t. (m ∷ method) ++ (b' ' ∷ t)) (append_assoc (n ∷ name) (b' ' ∷ protocol) _)
