-- ===== src/EpollWeb/Own.antt =====
-- Whose descriptor the epoll web server sends to while it serves a client: only that client's.
use unix_net.Common.{
  ℕ, ◌%◌, ◌^◌, ◌≡◌, refl, Bool, true, false, ◌&&◌, Option, none, some, zero, suc, List, [], ◌∷◌,
  ◌++◌, Bytes, codes, ltb, length,
}
use unix_net.Sys.{Answer, fail, ret, bytes, Action, Log, ◌>>◌, note, call, crash}
use unix_net.Sys.Preserves.{
  AtEnd, Admits, Preserves, Preserves-bind, Preserves-if, Preserves-pure, Preserves-call,
  Preserves-note,
}
use unix_net.CString.{equal, strtok, until_zero}
use unix_net.CString.Decimal.{decimal}
use unix_net.Pub.{get_mime_type}
use unix_net.Files.{
  Files, Stat, missing, directory, special, regular, Dirent, descriptor, window, overlay,
}
use unix_net.Readline.{LineResult, readline}
use unix_net.EpollWeb.Response.{
  crlf, state_of, send_header, send_read, copy_loop, drop_client, send_missing, finish_file,
  copy_opened, send_regular, item, cache_after, send_items, send_footer, read_count, send_listing,
  send_by_stat, repath_of, send_data,
}
use unix_net.EpollWeb.Server.{serve_name, serve_line, serve_result, serve_client}
use unix_net.EpollWeb.Reads.{readline_from, drain_from}

-- All calls but those that send to another descriptor.
abbrev pub IsOwn : ℕ → Action → Type 0
IsOwn fd (Action.send fd' bs) = fd' ≡ fd
IsOwn fd _ = Unit

-- An invariant that such calls keep.
module _ {P : Log → Type 0} (fd : ℕ) (step : (act : Action) → IsOwn fd act → Admits P act) where
  sends : (bs : Bytes) → Preserves P (note (Action.send fd bs))
  sends bs = Preserves-note (Action.send fd bs) (step (Action.send fd bs) refl)

  closes : (file : ℕ) → Preserves P (note (Action.close file))
  closes file = Preserves-note (Action.close file) (step (Action.close file) tt)

  opens : (path : Bytes) → Preserves P (call (Action.open_file path))
  opens path = Preserves-call (Action.open_file path) (step (Action.open_file path) tt)

  reads : (file : ℕ) → Preserves P (call (Action.read file 2048))
  reads file = Preserves-call (Action.read file 2048) (step (Action.read file 2048) tt)

  nothing : {A : Type 0} → Preserves P (crash {A = A})
  nothing = record { from = λ w log h. h }

  send_header-Preserves :
      (code : ℕ) (kind : Bytes) (n : ℕ) → Preserves P (send_header fd code kind n)
  unfolding send_header
  send_header-Preserves code kind n =
      Preserves-bind
        (sends (codes "HTTP/1.1 " ++ (decimal code ++ (b' ' ∷ (state_of code ++ crlf)))))
        λ _. Preserves-bind (sends (codes "Content-Type:" ++ (kind ++ crlf))) λ _.
          Preserves-bind
            (Preserves-if (ltb 0 n && ltb n (2 ^ 31))
              (sends (codes "Content-length:" ++ (decimal n ++ crlf))) (Preserves-pure tt))
            λ _. sends crlf

  send_read-Preserves : (a : Answer) → Preserves P (send_read fd a)
  send_read-Preserves (bytes bs) = sends bs
  send_read-Preserves (ret n) = sends []
  send_read-Preserves (fail e) = nothing

  drop_client-Preserves : Preserves P (drop_client fd)
  drop_client-Preserves =
      Preserves-bind (closes fd)
        λ _. Preserves-note (Action.epoll_del fd) (step (Action.epoll_del fd) tt)

  copy_from : (file : ℕ) (w : List Answer) (log : Log) → P log → AtEnd P (copy_loop file fd w log)
  unfolding copy_loop
  copy_from file [] log h = step (Action.read file 2048) tt log h
  copy_from file (fail e ∷ w) log h = step (Action.read file 2048) tt log h
  copy_from file (ret n ∷ w) log h = step (Action.read file 2048) tt log h
  copy_from file (bytes [] ∷ w) log h = step (Action.read file 2048) tt log h
  copy_from file (bytes (b ∷ bs) ∷ []) log h =
      step (Action.send fd (b ∷ bs)) refl _ (step (Action.read file 2048) tt log h)
  copy_from file (bytes (b ∷ bs) ∷ fail e ∷ w) log h =
      step (Action.send fd (b ∷ bs)) refl _ (step (Action.read file 2048) tt log h)
  copy_from file (bytes (b ∷ bs) ∷ ret n ∷ w) log h =
      copy_from file w _
        (step (Action.send fd (b ∷ bs)) refl _ (step (Action.read file 2048) tt log h))
  copy_from file (bytes (b ∷ bs) ∷ bytes cs ∷ w) log h =
      copy_from file w _
        (step (Action.send fd (b ∷ bs)) refl _ (step (Action.read file 2048) tt log h))

  finish_file-Preserves : (file : ℕ) (whole : Bool) → Preserves P (finish_file file fd whole)
  finish_file-Preserves file true = Preserves-bind (closes file) λ _. drop_client-Preserves
  finish_file-Preserves file false = closes file

  copy_opened-Preserves : (a : Answer) → Preserves P (copy_opened fd a)
  copy_opened-Preserves (fail e) = Preserves-pure tt
  copy_opened-Preserves (ret n) =
      Preserves-bind {m = copy_loop n fd} (record { from = copy_from n }) (finish_file-Preserves n)
  copy_opened-Preserves (bytes bs) =
      Preserves-bind {m = copy_loop (length bs) fd} (record { from = copy_from (length bs) })
        (finish_file-Preserves (length bs))

  send_missing-Preserves : Preserves P (send_missing fd)
  unfolding send_missing
  send_missing-Preserves =
      Preserves-bind (send_header-Preserves 404 (get_mime_type (codes "*.html")) 0) λ _.
        Preserves-bind (opens (codes "./error.html")) λ a.
          Preserves-bind (reads (descriptor a)) λ n.
            Preserves-bind (send_read-Preserves n)
              λ _. Preserves-bind (closes (descriptor a)) λ _. drop_client-Preserves

  send_regular-Preserves :
      (path repath : Bytes) (size : ℕ) → Preserves P (send_regular fd path repath size)
  unfolding send_regular
  send_regular-Preserves path repath size =
      Preserves-bind (send_header-Preserves 200 (get_mime_type path) (size % 2 ^ 32))
        λ _. Preserves-bind (opens repath) copy_opened-Preserves

  send_items-Preserves :
      (repath : Bytes) (entries : List Dirent) (cache : Bytes) (j : ℕ)
      → Preserves P (send_items fd repath entries cache j)
  unfolding send_items
  send_items-Preserves repath [] cache j = Preserves-pure (cache, j)
  send_items-Preserves repath (d ∷ entries) cache j =
      let (text, n) = cache_after j (item repath d) in
      Preserves-bind (sends (window n text)) λ _. send_items-Preserves repath entries text n

  send_footer-Preserves :
      (num : ℕ) (cache : Bytes) (a : Answer) → Preserves P (send_footer fd num cache a)
  unfolding send_footer
  send_footer-Preserves num cache (fail e) =
      Preserves-if (ltb 2048 num) nothing (sends (window num cache))
  send_footer-Preserves num cache (ret n) =
      Preserves-if (ltb 2048 num) nothing (sends (window num cache))
  send_footer-Preserves num cache (bytes bs) =
      Preserves-if (ltb 2048 num) nothing (sends (window num (overlay bs cache)))

  send_listing-Preserves :
      (repath : Bytes) (namelist : Option (List Dirent))
      → Preserves P (send_listing fd repath namelist)
  unfolding send_listing
  send_listing-Preserves repath none = Preserves-pure tt
  send_listing-Preserves repath (some namelist) =
      Preserves-bind (opens (codes "./SanfDir/front.html")) λ ffd.
        Preserves-bind (reads (descriptor ffd)) λ front.
          Preserves-bind (send_read-Preserves front) λ _.
            Preserves-bind (closes (descriptor ffd)) λ _.
              Preserves-bind
                (send_items-Preserves repath namelist (read_count front)
                  (length (read_count front)))
                λ after. Preserves-bind (opens (codes "./SanfDir/behind.html")) λ bfd.
                  Preserves-bind (reads (descriptor bfd)) λ behind.
                    Preserves-bind (send_footer-Preserves (length namelist) after.0 behind)
                      λ _. Preserves-bind (closes (descriptor bfd)) λ _. drop_client-Preserves

  by_stat-Preserves :
      (files : Files) (path repath : Bytes) (s : Stat)
      → Preserves P (send_by_stat files fd path repath s)
  by_stat-Preserves files path repath missing = send_missing-Preserves
  by_stat-Preserves files path repath (regular size) = send_regular-Preserves path repath size
  by_stat-Preserves files path repath special = Preserves-pure tt
  by_stat-Preserves files path repath directory =
      Preserves-bind (send_header-Preserves 200 (get_mime_type (codes "*.html")) 0)
        λ _. send_listing-Preserves repath (files.scandir repath)

  send_data-Preserves : (files : Files) (path : Bytes) → Preserves P (send_data files fd path)
  unfolding send_data
  send_data-Preserves files path =
      by_stat-Preserves files path (repath_of path) (files.stat (repath_of path))

  serve_name-Preserves :
      (files : Files) (kind : Bytes) (name : Option (Bytes × Bytes))
      → Preserves P (serve_name files fd kind name)
  serve_name-Preserves files kind none = nothing
  serve_name-Preserves files kind (some (name, rest)) =
      Preserves-if (equal (codes "GET") kind) (send_data-Preserves files name) (Preserves-pure tt)

  serve_line-Preserves :
      (files : Files) (method : Option (Bytes × Bytes)) → Preserves P (serve_line files fd method)
  serve_line-Preserves files none = nothing
  serve_line-Preserves files (some (kind, rest)) =
      serve_name-Preserves files kind (strtok b' ' rest)

  gone-Preserves : Preserves P (note (Action.epoll_del fd) >> note (Action.close fd))
  gone-Preserves =
      Preserves-bind (Preserves-note (Action.epoll_del fd) (step (Action.epoll_del fd) tt))
        λ _. closes fd

  serve_result-Preserves :
      (files : Files) (r : LineResult) (n : Option ℕ) → Preserves P (serve_result files fd r n)
  serve_result-Preserves files r none = gone-Preserves
  serve_result-Preserves files r (some zero) = gone-Preserves
  serve_result-Preserves files r (some (suc n)) =
      serve_line-Preserves files (strtok b' ' (until_zero r.text))

  -- Whatever comes on a client's descriptor and however the run ends, serving it makes no call
  -- that sends to another.
  pub serve_client-Preserves :
      (files : Files) (cache : Bytes) → Preserves P (serve_client files fd cache)
  unfolding serve_client
  serve_client-Preserves files cache =
      let read_step = step (Action.read fd 100) tt in
      Preserves-bind {m = readline fd 1500 cache}
        (record { from = readline_from fd read_step 1500 cache })
        λ r.
          Preserves-bind (serve_result-Preserves files r r.result)
            λ _. record { from = drain_from fd read_step r.cache }
