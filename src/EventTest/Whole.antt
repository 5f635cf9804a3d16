-- ===== src/EventTest/Whole.antt =====
-- A whole request of WebServer/test/event_wb.c, for the coded form of a name.
use unix_net.Common.{
  ℕ, ◌+◌, ◌*◌, ◌<◌, ◌≤◌, ◌≡◌, ◌≢◌, refl, true, some, List, [], ◌∷◌, Bytes, codes, All, arith,
  length,
}
use unix_net.Sys.{Answer, ret, bytes, Action, Log, ok}
use unix_net.Files.Array.{NoZero}
use unix_net.Pub.{get_mime_type, strencode}
use unix_net.Pub.Coded.{IsVisible, strencode-IsVisible}
use unix_net.EventWeb.Scan.{buffer_text}
use unix_net.EventWeb.Request.{IsWord, request, scan-request, length_middle}
use unix_net.EventTest.{file, Disk, header_text, drain, is_get, read_cb}
use unix_net.EventTest.Serve.{Chunks, given, copied, http_request-strencode}

IsVisible-IsWord : (s : Bytes) → All IsVisible s → IsWord s
IsVisible-IsWord [] h = tt
IsVisible-IsWord (c ∷ s) h =
    let above : 33 ≤ c = h.0.0 in (ground (arith, above), IsVisible-IsWord s h.1)

module _ (disk : Disk) (bev tosize : ℕ) (name : Bytes) (w : List Answer) (log : Log) where
  -- A request by GET, in capital or small letters, for the coded form of a name, in a text of fewer
  -- than 256 bytes with no zero that comes in one read, with a protocol that fits its array. The
  -- name is of bytes other than zero, with room to be coded, and neither empty nor a dot, and the
  -- disk has a file of that very name. The header is put together by calls of `sprintf` that read
  -- the array they write, which C leaves undefined: say that they leave some text. Then the coded
  -- name comes through the scan of the line and is decoded, and the server gives the client's
  -- buffered event that text and then every read of the file in order.
  pub read_cb-strencode :
      (m q : ℕ) (method protocol rest : Bytes) (size fd : ℕ) (header : Bytes) (chunks : Chunks)
      → All (λ c. c < 256) name
      → NoZero name
      → 3 * length name + 1 < tosize
      → name ≢ []
      → name ≢ codes "."
      → disk.stat name ≡ file size
      → header_text disk 200 (codes "OK") (get_mime_type name) (some size) ≡ some header
      → is_get (m ∷ method) ≡ true
      → IsWord (m ∷ method)
      → IsWord (q ∷ protocol)
      → length (m ∷ method) < 10
      → length (q ∷ protocol) < 10
      → let text = request (m ∷ method) (b'/' ∷ strencode tosize name) (q ∷ protocol) rest in
        length text < 256
        → NoZero text
        → read_cb disk bev (bytes text ∷ bytes [] ∷ ret fd ∷ given chunks w) log
          ≡ ok tt w (
              copied bev fd chunks (
                Action.open_file name
                ∷ Action.bev_write bev header
                ∷ Action.bev_read bev 256
                ∷ Action.bev_read bev 256
                ∷ log))
  unfolding read_cb drain
  read_cb-strencode m q method protocol rest size fd header chunks h no_zero room ne nd stat head
        get hm hq lm lq fits nz =
      let coded = strencode tosize name in
      let text = request (m ∷ method) (b'/' ∷ coded) (q ∷ protocol) rest in
      let fits_path : length (b'/' ∷ coded) < 256 =
        omega (arith, fits, length_middle (m ∷ method) (b'/' ∷ coded) _ b' ' b' ') in
      let word : IsWord (b'/' ∷ coded) =
        (refl, IsVisible-IsWord coded (strencode-IsVisible tosize name)) in
      let scanned = scan-request m b'/' q method coded protocol rest hm word hq lm fits_path lq in
      let (zero_in, same) = buffer_text text fits nz in
      rw (zero_in, same, scanned, get)
        (http_request-strencode disk bev tosize name w _ size fd header chunks h no_zero room ne nd
          stat head)
