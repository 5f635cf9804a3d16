-- ===== src/EventWeb/Request.antt =====
-- The read callback of WebServer/Libevent_Web/webServer.c.
use unix_net.Common.{
  ℕ, ◌≤◌, ◌<◌, ◌≡◌, refl, ap, ◌∙◌, Bool, true, false, ◌||◌, some, List, [], ◌∷◌, ◌++◌, Bytes, codes,
  arith, All, length, drop, get_or, length-append, ◌==◌, if◌then◌else◌,
}
use unix_net.Sys.{Answer, bytes, Action, Log, Cmd, ok, crashed, pure}
use unix_net.CString.{equal}
use unix_net.Files.{Files}
use unix_net.EventWeb.{
  read_cb, drain, scan, request_fields, processing_requests, skip_space, is_space,
}
use unix_net.Files.Array.{NoZero}
use unix_net.EventWeb.Scan.{buffer_text, scan_field, scan_overflow}

-- A word of the line: no white space.
abbrev pub IsWord : Bytes → Type 0
IsWord = All λ b. is_space b ≡ false

word_blank : (word : Bytes) → IsWord word → All (λ b. (b == b' ') ≡ false) word
word_blank [] h = tt
word_blank (b ∷ word) h = (ground (arith, h.0), word_blank word h.1)

word_end :
    (word : Bytes) → IsWord word → All (λ b. (b == b' ' || b == b'\r' || b == b'\n') ≡ false) word
word_end [] h = tt
word_end (b ∷ word) h = (ground (arith, h.0), word_end word h.1)

skip_blank : (b : ℕ) (s : Bytes) → is_space b ≡ false → skip_space (b' ' ∷ b ∷ s) ≡ b ∷ s
unfolding skip_space
skip_blank b s h = rw h refl

scan_end : (s : Bytes) → scan [] s ≡ some []
unfolding scan
scan_end s = refl

-- A request of the shape `method path protocol`, with the end of its line and what follows.
abbrev pub request : (method path protocol rest : Bytes) → Bytes
request method path protocol rest =
    method ++ (b' ' ∷ (path ++ (b' ' ∷ (protocol ++ (b'\r' ∷ rest)))))

pub scan-request :
    (m p q : ℕ) (method path protocol rest : Bytes)
    → IsWord (m ∷ method)
    → IsWord (p ∷ path)
    → IsWord (q ∷ protocol)
    → length (m ∷ method) < 10
    → length (p ∷ path) < 256
    → length (q ∷ protocol) < 10
    → scan request_fields (request (m ∷ method) (p ∷ path) (q ∷ protocol) rest)
      ≡ some ((m ∷ method) ∷ (p ∷ path) ∷ (q ∷ protocol) ∷ [])
scan-request m p q method path protocol rest hm hp hq lm lp lq =
    scan_field _ _ m method b' ' _ (word_blank (m ∷ method) hm) refl lm _ (
      ap (scan _) (skip_blank p _ hp.0)
      ∙ scan_field _ _ p path b' ' _ (word_blank (p ∷ path) hp) refl lp _ (
          ap (scan _) (skip_blank q _ hq.0)
          ∙ scan_field _ _ q protocol b'\r' rest (word_end (q ∷ protocol) hq) refl lq []
              (scan_end _)))

pub length_middle : (a b c : Bytes) (x y : ℕ) → length b < length (a ++ (x ∷ (b ++ (y ∷ c))))
length_middle a b c x y =
    omega (arith, length-append a (x ∷ (b ++ (y ∷ c))), length-append b (y ∷ c))

-- A test made before a run or in it.
pub run_if :
    (test : Bool) (c : Cmd (Unit {0})) (w : List Answer) (log : Log)
    → (if test then c else pure tt) w log ≡ (if test then c w log else ok tt w log)
run_if true c w log = refl
run_if false c w log = refl

module _ (files : Files) (bev : ℕ) (w : List Answer) (log : Log) where
  read_cb_scanned :
      (text : Bytes) (texts : List Bytes)
      → length text < 256
      → NoZero text
      → scan request_fields text ≡ some texts
      → read_cb files bev (bytes text ∷ bytes [] ∷ w) log
        ≡ (if equal (get_or texts 0 []) (codes "GET")
              then processing_requests files bev (get_or texts 1 [])
              else pure tt)
            w
            (Action.bev_read bev 256 ∷ Action.bev_read bev 256 ∷ log)
  unfolding read_cb drain
  read_cb_scanned text texts fits nz e =
      let (zero_in, same) = buffer_text text fits nz in rw (zero_in, same, e) refl

  -- A request line of three words, each shorter than its array, in a text with no zero byte that
  -- fits into the read buffer with its final zero: a GET is processed for its path once the rest
  -- is read off, any other method gets no answer.
  pub read_cb-request :
      (m p q : ℕ) (method path protocol rest : Bytes)
      → IsWord (m ∷ method)
      → IsWord (p ∷ path)
      → IsWord (q ∷ protocol)
      → length (m ∷ method) < 10
      → length (q ∷ protocol) < 10
      → let text = request (m ∷ method) (p ∷ path) (q ∷ protocol) rest in
        length text < 256
        → NoZero text
        → let log' = Action.bev_read bev 256 ∷ Action.bev_read bev 256 ∷ log in
          read_cb files bev (bytes text ∷ bytes [] ∷ w) log ≡ (
            if equal (m ∷ method) (codes "GET")
            then processing_requests files bev (p ∷ path) w log'
            else ok tt w log')
  unfolding read_cb drain
  read_cb-request m p q method path protocol rest hm hp hq lm lq fits nz =
      let text = request (m ∷ method) (p ∷ path) (q ∷ protocol) rest in
      let fits_path : length (p ∷ path) < 256 =
        omega (arith, fits, length_middle (m ∷ method) (p ∷ path) _ b' ' b' ') in
      let e =
        read_cb_scanned text _ fits nz
          (scan-request m p q method path protocol rest hm hp hq lm fits_path lq) in
      e ∙ run_if (equal (m ∷ method) (codes "GET")) (processing_requests files bev (p ∷ path)) w _

  -- A method of ten bytes or more runs over its array.
  pub read_cb_overflow :
      (word rest : Bytes)
      → All (λ b. (b == b' ') ≡ false) word
      → 10 ≤ length word
      → length (word ++ rest) < 256
      → NoZero (word ++ rest)
      → read_cb files bev (bytes (word ++ rest) ∷ w) log ≡ crashed (Action.bev_read bev 256 ∷ log)
  unfolding read_cb
  read_cb_overflow word rest h long fits nz =
      let (zero_in, same) = buffer_text (word ++ rest) fits nz in
      let e =
        scan_overflow (record { size = 10; stop = λ c. c == b' ' }) (drop 1 request_fields) word
          rest h (omega arith) long in
      rw (zero_in, same) (rw e refl)
