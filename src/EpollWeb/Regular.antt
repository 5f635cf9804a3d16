-- ===== src/EpollWeb/Regular.antt =====
-- `SendData` on files that are not directories.
use unix_net.Common.{
  ℕ, ◌%◌, ◌^◌, ◌≡◌, refl, ◌∙◌, true, List, [], ◌∷◌, ◌++◌, Bytes, codes, append_assoc, append-nil,
  ◌==◌, arith,
}
use unix_net.Sys.{Answer, fail, ret, bytes, Action, Log, ok}
use unix_net.Files.{Files, missing, regular}
use unix_net.Pub.{get_mime_type}
use unix_net.EpollWeb.Response.{copy_loop, send_missing, send_regular, send_data, repath_of}
use unix_net.EpollWeb.Sent.{handed, header_text, send_header_lem}

-- A file as its reads return it: at each read some bytes, at least one, and the count that the
-- `send` of these bytes returns.
pub record Chunk : Type 0 where
  pub first : ℕ
  pub more : Bytes
  pub taken : ℕ

abbrev pub replies : List Chunk → List Answer → List Answer
replies [] w = w
replies (c ∷ cs) w = bytes (c.first ∷ c.more) ∷ ret c.taken ∷ replies cs w

abbrev pub content : List Chunk → Bytes
content [] = []
content (c ∷ cs) = (c.first ∷ c.more) ++ content cs

copy_loop_lem :
    (file cfd : ℕ) (cs : List Chunk) (w : List Answer) (log : Log)
    → (log' : Log) × (copy_loop file cfd (replies cs (bytes [] ∷ w)) log ≡ ok true w log')
      × (handed cfd log' ≡ handed cfd log ++ content cs)
unfolding copy_loop
copy_loop_lem file cfd [] w log = (_, refl, refl)
copy_loop_lem file cfd (c ∷ cs) w log =
    let (log', e, s) =
      copy_loop_lem file cfd cs w
        (Action.send cfd (c.first ∷ c.more) ∷ Action.read file 2048 ∷ log) in
    let same : (cfd == cfd) ≡ true = ground arith in
    (log', e, s ∙ rw (same, append-nil, append_assoc))

pub html_type : get_mime_type (codes "*.html") ≡ codes "text/html; charset=utf-8"
unfolding get_mime_type
html_type = refl

module _ (files : Files) (cfd : ℕ) (path : Bytes) (w : List Answer) (log : Log) where
  -- A regular file: the client is given a header with the size, as an `int`, and the type of the
  -- name, then the bytes of the file as they were read, each read handed on whole to one `send`
  -- whatever part of it that call takes; then the file and the connection are closed, and the
  -- connection is taken off the tree.
  pub send_data_regular :
      (size file : ℕ) (cs : List Chunk)
      → files.stat (repath_of path) ≡ regular size
      → (log' : Log) × (send_data files cfd path (ret file ∷ replies cs (bytes [] ∷ w)) log
          ≡ ok tt w (Action.epoll_del cfd ∷ Action.close cfd ∷ Action.close file ∷ log'))
        × (handed cfd log'
            ≡ handed cfd log
              ++ (header_text 200 (get_mime_type path) (size % 2 ^ 32) ++ content cs))
  unfolding send_data send_regular
  send_data_regular size file cs h =
      let (log₁, e₁, s₁) =
        send_header_lem cfd 200 (get_mime_type path) (size % 2 ^ 32)
          (ret file ∷ replies cs (bytes [] ∷ w)) log in
      let (log₂, e₂, s₂) = copy_loop_lem file cfd cs w (Action.open_file (repath_of path) ∷ log₁) in
      (log₂, rw (h, e₁, e₂), s₂ ∙ rw (append-nil, s₁, append_assoc))

  -- Where the file cannot be opened, the client has got the header with the promised length and
  -- nothing else happens: neither is the connection closed nor is it taken off the tree.
  pub send_data_unopened :
      (size e : ℕ)
      → files.stat (repath_of path) ≡ regular size
      → (log' : Log) × (send_data files cfd path (fail e ∷ w) log
          ≡ ok tt w (Action.open_file (repath_of path) ∷ log'))
        × (handed cfd log' ≡ handed cfd log ++ header_text 200 (get_mime_type path) (size % 2 ^ 32))
  unfolding send_data send_regular
  send_data_unopened size e h =
      let (log₁, e₁, s₁) =
        send_header_lem cfd 200 (get_mime_type path) (size % 2 ^ 32) (fail e ∷ w) log in
      (log₁, rw (h, e₁), s₁)

  -- A missing file: the header has status 404 and no length, the body is what one read of the
  -- error page gives, and the connection is closed and taken off the tree.
  pub send_data_missing :
      (file : ℕ) (page : Bytes)
      → files.stat (repath_of path) ≡ missing
      → (log' : Log) × (send_data files cfd path (ret file ∷ bytes page ∷ w) log
          ≡ ok tt w (Action.epoll_del cfd ∷ Action.close cfd ∷ Action.close file ∷ log'))
        × (handed cfd log'
            ≡ handed cfd log ++ (header_text 404 (codes "text/html; charset=utf-8") 0 ++ page))
  unfolding send_data send_missing
  send_data_missing file page h =
      let (log₁, e₁, s₁) =
        send_header_lem cfd 404 (codes "text/html; charset=utf-8") 0 (ret file ∷ bytes page ∷ w)
          log in
      let same : (cfd == cfd) ≡ true = ground arith in
      (
        Action.send cfd page
            ∷ Action.read file 2048
            ∷ Action.open_file (codes "./error.html")
            ∷ log₁,
        rw (h, html_type, e₁),
        simp (same, append-nil, s₁, append_assoc),
      )
