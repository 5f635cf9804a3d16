-- ===== src/EventWeb/Answered.antt =====
-- What a request to WebServer/Libevent_Web/webServer.c comes to, by its method and its path.
use unix_net.Common.{
  ℕ, ◌%◌, ◌^◌, ◌≡◌, refl, ap, ◌∙◌, false, some, List, [], ◌∷◌, ◌++◌, Bytes, codes, ◌==◌,
  if◌then◌else◌, length, take, append-nil,
}
use unix_net.Sys.{Answer, ret, bytes, Action, Log, ok, pure}
use unix_net.CString.{equal}
use unix_net.Pub.{get_mime_type}
use unix_net.Files.{Files, regular, missing, directory, Dirent, window}
use unix_net.EventWeb.{
  header_parts, repath_of, send_file, item, cache_after, send_items, processing_requests,
}
use unix_net.EventWeb.Regular.{
  wrote, takes_all, write_parts_all, file_sent, processing_requests_regular,
  processing_requests_missing,
}
use unix_net.EventWeb.Gets.{Adds, Adds-nothing, Adds-then, Adds-write, Adds-silent}

-- A file, a page for a file that is not there, or a list of a directory between two pages, each
-- with the descriptor that it is opened on and what the read of it gives; or nothing.
pub data Outcome : Type 0 where
  found missed : ℕ → Bytes → Outcome
  listed : ℕ → Bytes → List Dirent → ℕ → Bytes → Outcome
  ignored : Outcome

abbrev pub Holds : Files → (method path : Bytes) → Outcome → Type 0
Holds files method path (found file content) =
    (method ≡ codes "GET") × (files.stat (repath_of path) ≡ regular (length content))
Holds files method path (missed file page) =
    (method ≡ codes "GET") × (files.stat (repath_of path) ≡ missing)
Holds files method path (listed head front entries tail behind) =
    (method ≡ codes "GET")
    × (files.stat (repath_of path) ≡ directory)
    × (files.scandir (repath_of path) ≡ some entries)
Holds files method path ignored = equal method (codes "GET") ≡ false

-- The header of each.
abbrev pub page_header : ℕ → Bytes → List Bytes
page_header code msg = header_parts code msg (get_mime_type (codes "*.html")) 0

abbrev pub file_header : Bytes → Bytes → List Bytes
file_header path content =
    header_parts 200 (codes "OK") (get_mime_type path) (length content % 2 ^ 32)

-- The answers of the system.
abbrev pub given : Bytes → Outcome → List Answer → List Answer
given path (found file content) w =
    takes_all (file_header path content) (ret file ∷ bytes (take 5060 content) ∷ w)
given path (missed file page) w =
    takes_all (page_header 404 (codes "Not Found")) (ret file ∷ bytes page ∷ w)
given path (listed head front entries tail behind) w =
    takes_all (page_header 200 (codes "OK")) (ret head ∷ bytes front ∷ ret tail ∷ bytes behind ∷ w)
given path ignored w = w

-- The items of a list: an entry that is neither a file nor a directory repeats the length before it
-- over a cleared array.
abbrev pub items_text : Bytes → List Dirent → ℕ → Bytes
items_text repath [] n = []
items_text repath (d ∷ entries) n =
    let (text, n') = cache_after n (item repath d) in window n' text ++ items_text repath entries n'

abbrev pub joined : List Bytes → Bytes
joined [] = []
joined (part ∷ parts) = part ++ joined parts

-- The bytes that the client's buffered event is given.
abbrev pub response : Bytes → Outcome → Bytes
response path (found file content) = joined (file_header path content) ++ take 5060 content
response path (missed file page) = joined (page_header 404 (codes "Not Found")) ++ page
response path (listed head front entries tail behind) =
    joined (page_header 200 (codes "OK"))
    ++ (front ++ (items_text (repath_of path) entries 0 ++ behind))
response path ignored = []

Adds-wrote :
    (bev : ℕ) (parts : List Bytes) (log : Log) → Adds bev (joined parts) log (wrote bev parts log)
Adds-wrote bev [] log = Adds-nothing bev log
Adds-wrote bev (part ∷ parts) log = Adds-then (Adds-write bev part log) (Adds-wrote bev parts _)

Adds-file_sent :
    (bev file : ℕ) (path bs : Bytes) (log : Log) → Adds bev bs log (file_sent bev file path bs log)
Adds-file_sent bev file path bs log = record {
  seen = λ x.
      append-nil _ ∙ ap (λ t. t ++ (if bev == x then bs else [])) (append-nil _ ∙ append-nil _);
}

-- The list of a directory.
abbrev items_log : ℕ → Bytes → List Dirent → ℕ → Log → Log
items_log bev repath [] n log = log
items_log bev repath (d ∷ entries) n log =
    let (text, n') = cache_after n (item repath d) in
    items_log bev repath entries n' (Action.bev_write bev (window n' text) ∷ log)

send_items_lem :
    (bev : ℕ) (repath : Bytes) (entries : List Dirent) (n : ℕ) (w : List Answer) (log : Log)
    → send_items bev repath entries n w log ≡ ok tt w (items_log bev repath entries n log)
unfolding send_items
send_items_lem bev repath [] n w log = refl
send_items_lem bev repath (d ∷ entries) n w log = send_items_lem bev repath entries _ w _

Adds-items :
    (bev : ℕ) (repath : Bytes) (entries : List Dirent) (n : ℕ) (log : Log)
    → Adds bev (items_text repath entries n) log (items_log bev repath entries n log)
Adds-items bev repath [] n log = Adds-nothing bev log
Adds-items bev repath (d ∷ entries) n log =
    Adds-then (Adds-write bev _ log) (Adds-items bev repath entries _ _)

module _ (files : Files) (bev : ℕ) (path : Bytes) (w : List Answer) (log : Log) where
  abbrev logged : Outcome → Log
  logged (found file content) =
      Action.bev_free bev
      ∷ file_sent bev file (repath_of path) (take 5060 content)
          (wrote bev (file_header path content) log)
  logged (missed file page) =
      Action.bev_free bev
      ∷ file_sent bev file (codes "./error.html") page
          (wrote bev (page_header 404 (codes "Not Found")) log)
  logged (listed head front entries tail behind) =
      Action.bev_free bev
      ∷ file_sent bev tail (codes "./SanfDir/behind.html") behind (
          items_log bev (repath_of path) entries 0 (
            file_sent bev head (codes "./SanfDir/front.html") front
              (wrote bev (page_header 200 (codes "OK")) log)))
  logged ignored = log

  listing :
      (head : ℕ) (front : Bytes) (entries : List Dirent) (tail : ℕ) (behind : Bytes)
      → files.stat (repath_of path) ≡ directory
      → files.scandir (repath_of path) ≡ some entries
      → processing_requests files bev path
          (given path (listed head front entries tail behind) w)
          log
        ≡ ok tt w (logged (listed head front entries tail behind))
  unfolding processing_requests send_file
  listing head front entries tail behind h e =
      rw
        (
          h,
          write_parts_all bev (page_header 200 (codes "OK"))
              (ret head ∷ bytes front ∷ ret tail ∷ bytes behind ∷ w) log,
          e,
          send_items_lem bev (repath_of path) entries 0 (ret tail ∷ bytes behind ∷ w) _,
        )
        refl

  Adds-logged : (o : Outcome) → Adds bev (response path o) log (logged o)
  Adds-logged (found file content) =
      Adds-silent
        (Adds-then (Adds-wrote bev (file_header path content) log)
          (Adds-file_sent bev file (repath_of path) (take 5060 content) _))
        λ x. append-nil _
  Adds-logged (missed file page) =
      Adds-silent
        (Adds-then (Adds-wrote bev (page_header 404 (codes "Not Found")) log)
          (Adds-file_sent bev file (codes "./error.html") page _))
        λ x. append-nil _
  Adds-logged (listed head front entries tail behind) =
      Adds-silent
        (Adds-then (Adds-wrote bev (page_header 200 (codes "OK")) log) (
          Adds-then (Adds-file_sent bev head (codes "./SanfDir/front.html") front _) (
            Adds-then (Adds-items bev (repath_of path) entries 0 _)
              (Adds-file_sent bev tail (codes "./SanfDir/behind.html") behind _))))
        λ x. append-nil _
  Adds-logged ignored = Adds-nothing bev log

  by_method :
      (method : Bytes) (o : Outcome)
      → Holds files method path o
      → (if equal method (codes "GET") then processing_requests files bev path else pure tt)
          (given path o w)
          log
        ≡ ok tt w (logged o)
  unfolding equal
  by_method method (found file content) h =
      rw h.0 (processing_requests_regular files bev path w log file content h.1)
  by_method method (missed file page) h =
      rw h.0 (processing_requests_missing files bev path w log file page h.1)
  by_method method (listed head front entries tail behind) h =
      rw h.0 (listing head front entries tail behind h.1 h.2)
  by_method method ignored h = rw h refl

  -- A request is answered by its outcome: the calls return, and what its buffered event is given is the
  -- response.
  pub answered :
      (method : Bytes) (o : Outcome)
      → Holds files method path o
      → (log' : Log) × ((if equal method (codes "GET")
              then processing_requests files bev path
              else pure tt)
            (given path o w)
            log
          ≡ ok tt w log')
        × Adds bev (response path o) log log'
  answered method o h = (logged o, by_method method o h, Adds-logged o)
