-- ===== src/EventTest/Serve.antt =====
-- The answers of WebServer/test/event_wb.c.
use unix_net.Common.{
  ℕ, ◌+◌, ◌*◌, ◌<◌, ◌≡◌, ◌≢◌, refl, sym, ap, append-nil, ◌∙◌, false, Bool-cases, inl, inr, some,
  List, [], ◌∷◌, Bytes, codes, All, length, drop,
}
use unix_net.Sys.{Answer, ret, bytes, Action, Log, ok}
use unix_net.CString.{equal, until_zero}
use unix_net.Files.Array.{NoZero, until_zero_all}
use unix_net.CString.Equal.{equal_iff}
use unix_net.Pub.{get_mime_type, strdecode, strencode}
use unix_net.Pub.Codec.{strdecode-strencode}
use unix_net.EventTest.{
  file, Disk, header_text, copy_loop, copy_file, serve_path, str_path, http_request,
}

-- The reads of a file, none of which is empty, as pairs of the first byte and the others.
abbrev pub Chunks : Type 0
Chunks = List (ℕ × Bytes)

abbrev pub given : Chunks → List Answer → List Answer
given [] w = bytes [] ∷ w
given ((b, bs) ∷ chunks) w = bytes (b ∷ bs) ∷ given chunks w

-- The log of copying these reads to the client.
abbrev pub copied : ℕ → ℕ → Chunks → Log → Log
copied bev fd [] log = Action.close fd ∷ Action.read fd 1024 ∷ log
copied bev fd ((b, bs) ∷ chunks) log =
    copied bev fd chunks (Action.bev_write bev (b ∷ bs) ∷ Action.read fd 1024 ∷ log)

copy_loop_lem :
    (bev fd : ℕ) (chunks : Chunks) (w : List Answer) (log : Log)
    → copy_loop bev fd (given chunks w) log ≡ ok tt w (copied bev fd chunks log)
unfolding copy_loop
copy_loop_lem bev fd [] w log = refl
copy_loop_lem bev fd ((b, bs) ∷ chunks) w log =
    copy_loop_lem bev fd chunks w (Action.bev_write bev (b ∷ bs) ∷ Action.read fd 1024 ∷ log)

strdecode_slash : (s : Bytes) → strdecode (b'/' ∷ s) ≡ b'/' ∷ strdecode s
unfolding strdecode
strdecode_slash [] = refl
strdecode_slash (a ∷ []) = refl
strdecode_slash (a ∷ b ∷ s) = refl

str_path_name : (name : Bytes) → name ≢ [] → name ≢ codes "." → str_path (b'/' ∷ name) ≡ name
str_path_name name h k =
    let e : equal (b'/' ∷ name) (codes "/") ≡ false =
      differs (b'/' ∷ name) (codes "/") λ p. h (ap (drop 1) p) in
    let d : equal (b'/' ∷ name) (codes "/.") ≡ false =
      differs (b'/' ∷ name) (codes "/.") λ p. k (ap (drop 1) p) in
    rw (e, d) refl
  where
    differs : (s t : Bytes) → s ≢ t → equal s t ≡ false
    differs s t n = elim (Bool-cases (equal s t)) [
      | inl p ↦ absurd (n ((equal_iff s t).0 p))
      | inr p ↦ p
    ]

whole : (s : Bytes) → NoZero s → until_zero s ≡ s
whole s h = ap until_zero (sym (append-nil s)) ∙ until_zero_all s 0 h

module _ (disk : Disk) (bev tosize : ℕ) (name : Bytes) (w : List Answer) (log : Log) where
  -- A request for the coded form of a name, where the disk has a file of that very name: the header,
  -- every read of the file in order until the read that gives none, and the file is closed.
  pub http_request-strencode :
      (size fd : ℕ) (header : Bytes) (chunks : Chunks)
      → All (λ c. c < 256) name
      → NoZero name
      → 3 * length name + 1 < tosize
      → name ≢ []
      → name ≢ codes "."
      → disk.stat name ≡ file size
      → header_text disk 200 (codes "OK") (get_mime_type name) (some size) ≡ some header
      → http_request disk bev (b'/' ∷ strencode tosize name) (ret fd ∷ given chunks w) log
        ≡ ok tt w (copied bev fd chunks (Action.open_file name ∷ Action.bev_write bev header ∷ log))
  unfolding http_request serve_path copy_file
  http_request-strencode size fd header chunks h nz room ne nd e head =
      let decoded : strdecode (b'/' ∷ strencode tosize name) ≡ b'/' ∷ name =
        strdecode_slash _ ∙ ap (◌∷◌ b'/') (strdecode-strencode tosize name h room) in
      let path : str_path (until_zero (strdecode (b'/' ∷ strencode tosize name))) ≡ name =
        ap str_path (ap until_zero decoded ∙ whole (b'/' ∷ name) (refl, nz))
        ∙ str_path_name name ne nd in
      rw (path, e) (rw head (rw (copy_loop_lem bev fd chunks w _) refl))
