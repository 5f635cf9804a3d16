-- ===== src/EventWeb/Regular.antt =====
-- The answers of WebServer/Libevent_Web/webServer.c to a file and to a missing one.
use unix_net.Common.{
  ℕ, ◌%◌, ◌^◌, ◌≡◌, refl, List, [], ◌∷◌, ◌++◌, Bytes, codes, length, take, replicate, none,
}
use unix_net.Sys.{Answer, fail, ret, bytes, Action, Log, ok}
use unix_net.Pub.{get_mime_type}
use unix_net.Files.{Files, regular, missing, directory}
use unix_net.EventWeb.{write_parts, header_parts, repath_of, send_file, processing_requests}

-- The log after these writes.
abbrev pub wrote : ℕ → List Bytes → Log → Log
wrote bev [] log = log
wrote bev (part ∷ parts) log = wrote bev parts (Action.bev_write bev part ∷ log)

-- The writes of all the parts are taken.
abbrev pub takes_all : List Bytes → List Answer → List Answer
takes_all parts w = replicate (length parts) (ret 0) ++ w

pub write_parts_all :
    (bev : ℕ) (parts : List Bytes) (w : List Answer) (log : Log)
    → write_parts bev parts (takes_all parts w) log ≡ ok tt w (wrote bev parts log)
unfolding write_parts
write_parts_all bev [] w log = refl
write_parts_all bev (part ∷ parts) w log =
    write_parts_all bev parts w (Action.bev_write bev part ∷ log)

-- A write that is refused ends the header: the parts before it and it itself were tried.
pub write_parts_refused :
    (bev e : ℕ) (before : List Bytes) (part : Bytes) (after : List Bytes) (w : List Answer)
    (log : Log)
    → write_parts bev (before ++ (part ∷ after)) (takes_all before (fail e ∷ w)) log
      ≡ ok tt w (Action.bev_write bev part ∷ wrote bev before log)
unfolding write_parts
write_parts_refused bev e [] part after w log = refl
write_parts_refused bev e (b ∷ before) part after w log =
    write_parts_refused bev e before part after w (Action.bev_write bev b ∷ log)

-- A whole file passed on: opened, read once, written and closed.
abbrev pub file_sent : ℕ → ℕ → Bytes → Bytes → Log → Log
file_sent bev file path content log =
    Action.close file
    ∷ Action.bev_write bev content
    ∷ Action.read file 5060
    ∷ Action.open_file path
    ∷ log

module _ (files : Files) (bev : ℕ) (path : Bytes) (w : List Answer) (log : Log) where
  -- A request for a file, when the reads give what the file holds: the header has the whole
  -- length, but the body is the first 5060 bytes, and then the client is freed.
  pub processing_requests_regular :
      (file : ℕ) (content : Bytes)
      → files.stat (repath_of path) ≡ regular (length content)
      → let header = header_parts 200 (codes "OK") (get_mime_type path) (length content % 2 ^ 32) in
        processing_requests files bev path
          (takes_all header (ret file ∷ bytes (take 5060 content) ∷ w))
          log
        ≡ ok tt w (
            Action.bev_free bev
            ∷ file_sent bev file (repath_of path) (take 5060 content) (wrote bev header log))
  unfolding processing_requests send_file
  processing_requests_regular file content h =
      let header = header_parts 200 (codes "OK") (get_mime_type path) (length content % 2 ^ 32) in
      rw (h, write_parts_all bev header (ret file ∷ bytes (take 5060 content) ∷ w) log) refl

  -- A missing file: status 404 with no length, the error page, as one read gives it, and the client
  -- is freed.
  pub processing_requests_missing :
      (file : ℕ) (page : Bytes)
      → files.stat (repath_of path) ≡ missing
      → let header = header_parts 404 (codes "Not Found") (get_mime_type (codes "*.html")) 0 in
        processing_requests files bev path (takes_all header (ret file ∷ bytes page ∷ w)) log
        ≡ ok tt w (
            Action.bev_free bev
            ∷ file_sent bev file (codes "./error.html") page (wrote bev header log))
  unfolding processing_requests send_file
  processing_requests_missing file page h =
      let header = header_parts 404 (codes "Not Found") (get_mime_type (codes "*.html")) 0 in
      rw (h, write_parts_all bev header (ret file ∷ bytes page ∷ w) log) refl

  -- A directory that cannot be listed: the client has the header and the head of the page, and is
  -- not freed.
  pub processing_requests_unlisted :
      (file : ℕ) (page : Bytes)
      → files.stat (repath_of path) ≡ directory
      → files.scandir (repath_of path) ≡ none
      → let header = header_parts 200 (codes "OK") (get_mime_type (codes "*.html")) 0 in
        processing_requests files bev path (takes_all header (ret file ∷ bytes page ∷ w)) log
        ≡ ok tt w (file_sent bev file (codes "./SanfDir/front.html") page (wrote bev header log))
  unfolding processing_requests send_file
  processing_requests_unlisted file page h none_listed =
      let header = header_parts 200 (codes "OK") (get_mime_type (codes "*.html")) 0 in
      rw (h, write_parts_all bev header (ret file ∷ bytes page ∷ w) log, none_listed) refl
