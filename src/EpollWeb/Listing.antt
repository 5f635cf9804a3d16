-- ===== src/EpollWeb/Listing.antt =====
-- `SendData` on a directory.
use unix_net.Common.{
  ℕ, ◌≤◌, ◌≡◌, refl, sym, ◌∙◌, true, false, some, List, [], ◌∷◌, ◌++◌, Bytes, codes, append_assoc,
  append-nil, ◌==◌, ltb, arith, length,
}
use unix_net.Sys.{Answer, ret, bytes, Action, Log, ok}
use unix_net.Files.{Files, directory, Dirent, window, overlay}
use unix_net.EpollWeb.Response.{
  cache_after, item, send_items, send_footer, send_listing, send_data, repath_of,
}
use unix_net.EpollWeb.Sent.{handed, header_text, send_header_lem}
use unix_net.EpollWeb.Regular.{html_type}

-- The text of the list, and the array and its count behind it, from an array with count `j`.
pub items_text : Bytes → List Dirent → ℕ → Bytes
items_text repath [] j = []
items_text repath (d ∷ entries) j =
    let (text, n) = cache_after j (item repath d) in window n text ++ items_text repath entries n

pub last_cache : Bytes → List Dirent → Bytes → ℕ → Bytes
last_cache repath [] cache j = cache
last_cache repath (d ∷ entries) cache j =
    let (text, n) = cache_after j (item repath d) in last_cache repath entries text n

send_items_lem :
    (cfd : ℕ) (repath : Bytes) (entries : List Dirent) (cache : Bytes) (j : ℕ) (w : List Answer)
    (log : Log)
    → (log' : Log) × (n : ℕ) × (send_items cfd repath entries cache j w log
        ≡ ok (last_cache repath entries cache j, n) w log')
      × (handed cfd log' ≡ handed cfd log ++ items_text repath entries j)
unfolding send_items items_text last_cache
send_items_lem cfd repath [] cache j w log = (log, j, refl, sym (append-nil _))
send_items_lem cfd repath (d ∷ entries) cache j w log =
    let (text, n) = cache_after j (item repath d) in
    let (log', m, e, s) =
      send_items_lem cfd repath entries text n w (Action.send cfd (window n text) ∷ log) in
    let same : (cfd == cfd) ≡ true = ground arith in
    (
      log',
      m,
      e,
      s ∙ rw same (append_assoc (handed cfd log) (window n text) (items_text repath entries n)),
    )

-- A directory with at most 2048 entries: what is handed to `send` for the client is a header with no
-- length, the front page, the list, and of the back page only as many bytes as the directory has
-- entries; then the connection is closed and taken off the tree.
pub send_data_directory :
    (files : Files) (cfd : ℕ) (path : Bytes) (entries : List Dirent) (ffd bfd : ℕ)
    (front back : Bytes) (w : List Answer) (log : Log)
    → files.stat (repath_of path) ≡ directory
    → files.scandir (repath_of path) ≡ some entries
    → length entries ≤ 2048
    → (log' : Log) × (send_data files cfd path
          (ret ffd ∷ bytes front ∷ ret bfd ∷ bytes back ∷ w)
          log
        ≡ ok tt w (Action.epoll_del cfd ∷ Action.close cfd ∷ Action.close bfd ∷ log'))
      × (handed cfd log'
          ≡ handed cfd log
            ++ (header_text 200 (codes "text/html; charset=utf-8") 0
                ++ (front
                    ++ (items_text (repath_of path) entries (length front)
                        ++ window (length entries) (
                            overlay back
                              (last_cache (repath_of path) entries front (length front)))))))
unfolding send_data send_listing send_footer
send_data_directory files cfd path entries ffd bfd front back w log hs hd small =
    let same : (cfd == cfd) ≡ true = ground arith in
    let fits : ltb 2048 (length entries) ≡ false = ground arith in
    let (log₁, e₁, s₁) =
      send_header_lem cfd 200 (codes "text/html; charset=utf-8") 0
        (ret ffd ∷ bytes front ∷ ret bfd ∷ bytes back ∷ w) log in
    let (log₂, n, e₂, s₂) =
      send_items_lem cfd (repath_of path) entries front (length front) (ret bfd ∷ bytes back ∷ w) (
        Action.close ffd
        ∷ Action.send cfd front
        ∷ Action.read ffd 2048
        ∷ Action.open_file (codes "./SanfDir/front.html")
        ∷ log₁) in
    (
      Action.send cfd (
            window (length entries)
              (overlay back (last_cache (repath_of path) entries front (length front))))
          ∷ Action.read bfd 2048
          ∷ Action.open_file (codes "./SanfDir/behind.html")
          ∷ log₂,
      rw (hs, html_type, e₁, hd) (rw e₂ (rw fits)),
      simp (same, append-nil, s₂, s₁, append_assoc),
    )
