-- ===== src/Tests/Servers.antt =====
-- The web servers and the process server at concrete inputs.
use unix_net.Common.{Bytes, ◌≡◌, refl, none, some, List, [], ◌∷◌, ◌++◌, codes, arith, if◌then◌else◌}
use unix_net.Sys.{fail, ret, bytes, Action, Log, ok, exited, blocked, crashed}
use unix_net.CString.Decimal.{decimal}
use unix_net.CString.{equal, to_upper}
use unix_net.Pub.{get_mime_type, strencode}
use unix_net.Files.{Files, missing, regular, directory, Dirent, window, overlay}
use unix_net.EpollWeb.Response as Epoll
use unix_net.EpollWeb.Server.{drain, serve_result}
use unix_net.EpollWeb.Sent.{handed, header_text}
use unix_net.EpollWeb.Regular.{Chunk}
use unix_net.EpollWeb.Listing.{items_text, last_cache, send_data_directory}
use unix_net.EpollWeb.Drain.{behind_failure, drain_ends}
use unix_net.Readline.{LineResult}
use unix_net.EpollWeb.Request.{request_line, read_line, serve_request}
use unix_net.EventTest as Names
use unix_net.EventTest.Serve.{copied, given}
use unix_net.EventTest.Whole.{read_cb-strencode}
use unix_net.EventWeb.Request.{request}
use unix_net.Process.{reap, child}
use unix_net.Process.Child.{echoed, reap_lem, child_echoes}
use unix_net.Wrap.Retry.{asked}

-- A work directory with one file of three bytes and one directory with two entries.
abbrev site : Files
site = record {
  stat = λ p.
      if equal p (codes "./a.txt")
      then regular 3
      else if equal p (codes "./d")
      then directory
      else missing;
  scandir = λ p.
      some (
        record { d_name = codes "x"; d_type = 8 } ∷ record { d_name = codes "y"; d_type = 4 } ∷ []);
}

-- The same, but no directory can be listed.
abbrev closed_site : Files
closed_site = record { stat = λ p. directory; scandir = λ p. none }

abbrev chunk : Chunk
chunk = record { first = b'a'; more = codes "bc"; taken = 3 }

abbrev entries : List Dirent
entries = record { d_name = codes "x"; d_type = 8 } ∷ record { d_name = codes "y"; d_type = 4 } ∷ []

send_data_directory_example :
    (log' : Log) × (Epoll.send_data site 7
        (codes "/d")
        (ret 9 ∷ bytes (codes "<ul>") ∷ ret 9 ∷ bytes (codes "</ul>") ∷ [])
        []
      ≡ ok tt [] (Action.epoll_del 7 ∷ Action.close 7 ∷ Action.close 9 ∷ log'))
    × (handed 7 log'
        ≡ []
          ++ (header_text 200 (codes "text/html; charset=utf-8") 0
              ++ (codes "<ul>"
                  ++ (items_text (codes "./d") entries 4
                      ++ window 2 (
                          overlay
                            (codes "</ul>")
                            (last_cache (codes "./d") entries (codes "<ul>") 4))))))
unfolding equal
send_data_directory_example =
    send_data_directory site 7 (codes "/d") entries 9 9 (codes "<ul>") (codes "</ul>") [] [] refl
      refl (omega arith)

abbrev get_line_read : LineResult
get_line_read = read_line (request_line (codes "GET") (codes "/b") (codes "x")) []

serve_request_example :
    (serve_result site 7 get_line_read get_line_read.result [] [] ≡ (
      if equal (codes "GET") (codes "GET")
      then Epoll.send_data site 7 (codes "/b") [] []
      else ok tt [] []))
    × (serve_result site 7 (read_line (codes "GET") []) (some 3) [] [] ≡ crashed [])
serve_request_example =
    serve_request site 7 b'G' (codes "ET") [] [] [] b'/' (codes "b") (codes "x")
      ((refl, refl), ((refl, refl), ((refl, refl), tt))) ((refl, refl), ((refl, refl), tt))

drain_ends_example :
    (log' : Log) × (drain 7 (codes "x") (bytes [] ∷ fail 4 ∷ fail 11 ∷ []) [] ≡ ok [] [] log')
unfolding behind_failure
drain_ends_example = drain_ends 7 (codes "x") (bytes [] ∷ fail 4 ∷ fail 11 ∷ []) []

child_echoes_example :
    child 3 4 (bytes (codes "hi") ∷ bytes (codes "you") ∷ bytes [] ∷ []) []
    ≡ exited 0 (
        Action.close 4
        ∷ Action.read 4 1024
        ∷ echoed 4 (codes "hi" ∷ codes "you" ∷ []) (Action.close 3 ∷ []))
child_echoes_example =
    child_echoes 3 4 (codes "hi" ∷ codes "you" ∷ []) [] []
      ((omega arith, omega arith), ((omega arith, omega arith), tt))

reap_lem_example :
    (reap (ret 41 ∷ ret 0 ∷ ret 0 ∷ fail 10 ∷ []) [] ≡ ok tt [] (asked 4 Action.waitpid []))
    × (reap (ret 41 ∷ ret 0 ∷ ret 0 ∷ []) [] ≡ blocked (asked 4 Action.waitpid []))
reap_lem_example = reap_lem (41 ∷ 0 ∷ 0 ∷ []) 10 [] []

abbrev disk : Names.Disk
disk = record {
  stat = λ p. if equal p (codes "a b") then Names.file 3 else Names.missing;
  entries = λ p. none;
  overlapped = λ before printed. some (before ++ printed);
}

abbrev disk_header : Bytes
disk_header =
    codes "HTTP/1.1 200 OK\r\nContent-Type: text/plain; charset=utf-8\r\nContent-Length:3\r\n\r\n"

abbrev disk_request : Bytes
disk_request =
    request (codes "get") (b'/' ∷ strencode 256 (codes "a b")) (codes "HTTP/1.1") (codes "\n")

read_cb-strencode_example :
    Names.read_cb disk 8
      (bytes disk_request ∷ bytes [] ∷ ret 9 ∷ given ((b'a', codes "b") ∷ (b'c', []) ∷ []) [])
      []
    ≡ ok tt [] (
        copied 8 9 ((b'a', codes "b") ∷ (b'c', []) ∷ []) (
          Action.open_file (codes "a b")
          ∷ Action.bev_write 8 disk_header
          ∷ Action.bev_read 8 256
          ∷ Action.bev_read 8 256
          ∷ []))
unfolding equal strencode to_upper decimal get_mime_type Names.header_text
read_cb-strencode_example =
    read_cb-strencode disk 8 256 (codes "a b") [] [] b'g' b'H' (codes "et") (codes "TTP/1.1")
      (codes "\n") 3 9 disk_header ((b'a', codes "b") ∷ (b'c', []) ∷ [])
      (omega arith, (omega arith, (omega arith, tt))) (refl, (refl, (refl, tt))) (omega arith)
      (λ p. ground (arith, p)) (λ p. ground (arith, p)) refl refl refl (ground arith) (ground arith)
      (omega arith) (omega arith) (omega arith) (ground arith)
