-- ===== src/LocalSocket/Exchange.antt =====
-- The two programs of LocalSocket together.
use unix_net.Common.{
  ℕ, ◌<◌, ◌≡◌, refl, ap, ◌∙◌, false, List, [], ◌∷◌, ◌++◌, Bytes, codes, append_assoc, append-nil,
  All, length, map, replicate, take,
}
use unix_net.Sys.{Answer, bytes, Action, Log, blocked}
use unix_net.Sys.Trace.{messages, printed, in_turn}
use unix_net.CString.{unterminated, until_zero}
use unix_net.Files.{window}
use unix_net.Files.Array.{NoZero, window-text, window_again}
use unix_net.LocalSocket.{from_client, from_server, serve_loop, client_loop}

-- A line with at least one byte that fits the array, and with no zero in it.
abbrev pub Line : Type 0
Line = ℕ × Bytes

abbrev pub text : Line → Bytes
text (b, bs) = b ∷ bs

abbrev pub Fits : Line → Type 0
Fits line = (length (text line) < 1500) × NoZero (text line)

-- Each line as the client shows what came back.
abbrev pub shown : List Line → Bytes
shown [] = []
shown (line ∷ lines) = from_server ++ (text line ++ codes "\n") ++ shown lines

abbrev answer_to : ℕ → Bytes → Log → Log
answer_to fd line log =
    Action.send fd line
    ∷ Action.print (from_client ++ (line ++ codes "\n"))
    ∷ Action.recv fd 1500
    ∷ log

abbrev served : ℕ → List Line → Log → Log
served fd [] log = Action.recv fd 1500 ∷ log
served fd (line ∷ lines) log = served fd lines (answer_to fd (text line) log)

abbrev talked : ℕ → List Line → Log → Log
talked fd [] log = Action.read 0 1500 ∷ log
talked fd (line ∷ lines) log = talked fd lines (
    Action.print (from_server ++ (text line ++ codes "\n"))
    ∷ Action.recv fd 1500
    ∷ Action.send fd (window 1500 (text line))
    ∷ Action.read 0 1500
    ∷ log)

serve_one :
    (fd b : ℕ) (bs line : Bytes) (w : List Answer) (log : Log)
    → unterminated 1500 (window 1500 (b ∷ bs)) ≡ false
    → until_zero (window 1500 (b ∷ bs)) ≡ line
    → serve_loop fd (bytes (b ∷ bs) ∷ w) log ≡ serve_loop fd w (answer_to fd line log)
unfolding serve_loop
serve_one fd b bs line w log whole same = rw (whole, same)

serve_none : (fd : ℕ) (log : Log) → serve_loop fd [] log ≡ blocked (Action.recv fd 1500 ∷ log)
unfolding serve_loop
serve_none fd log = refl

-- Each line as a whole array of 1500 bytes, with zeros behind it.
abbrev pub sent_arrays : List Line → List Bytes
sent_arrays lines = map (λ line. window 1500 (text line)) lines

serve_loop-lines :
    (fd : ℕ) (lines : List Line) (log : Log)
    → All Fits lines
    → serve_loop fd (map bytes (sent_arrays lines)) log ≡ blocked (served fd lines log)
serve_loop-lines fd [] log h = serve_none fd log
serve_loop-lines fd ((b, bs) ∷ lines) log h =
    let (whole, same) = window-text 1500 (b ∷ bs) h.0.0 h.0.1 in
    let again = window_again 1500 (b ∷ bs) in
    serve_one fd b (take 1499 (bs ++ replicate 1500 0)) (b ∷ bs) (map bytes (sent_arrays lines)) log
      (ap (unterminated 1500) again ∙ whole) (ap until_zero again ∙ same)
    ∙ serve_loop-lines fd lines _ h.1

client_loop-lines :
    (fd : ℕ) (lines : List Line) (log : Log)
    → All Fits lines
    → client_loop fd (in_turn (map text lines) (map text lines)) log ≡ blocked (talked fd lines log)
unfolding client_loop
client_loop-lines fd [] log h = refl
client_loop-lines fd ((b, bs) ∷ lines) log h =
    let (whole, same) = window-text 1500 (b ∷ bs) h.0.0 h.0.1 in
    rw (whole, same) (client_loop-lines fd lines _ h.1)

served-sends :
    (fd : ℕ) (lines : List Line) (log : Log)
    → messages (served fd lines log) ≡ messages log ++ map text lines
served-sends fd [] log = refl
served-sends fd (line ∷ lines) log = served-sends fd lines _ ∙ simp (append_assoc, append-nil)

talked-sends :
    (fd : ℕ) (lines : List Line) (log : Log)
    → (messages (talked fd lines log) ≡ messages log ++ sent_arrays lines)
      × (printed (talked fd lines log) ≡ printed log ++ shown lines)
talked-sends fd [] log = (refl, refl)
talked-sends fd (line ∷ lines) log =
    let (sends, prints) = talked-sends fd lines _ in
    (sends ∙ simp (append_assoc, append-nil), prints ∙ simp (append_assoc, append-nil))

-- For lines that are not empty, fit and hold no zero, where each message arrives whole: the
-- messages that the client sends are its whole arrays of 1500 bytes, each a line with zeros behind
-- it; the server, given these, goes on waiting and has sent back each line without the zeros. The
-- client, given what was typed and what the server sent back in turn, goes on waiting and has
-- printed each line behind its label.
pub socket_exchange :
    (server_fd client_fd : ℕ) (lines : List Line)
    → All Fits lines
    → (server_log : Log) × (client_log : Log) × (serve_loop server_fd
          (map bytes (messages client_log))
          []
        ≡ blocked server_log)
      × (client_loop client_fd (in_turn (map text lines) (messages server_log)) []
          ≡ blocked client_log)
      × (messages client_log ≡ sent_arrays lines)
      × (messages server_log ≡ map text lines)
      × (printed client_log ≡ shown lines)
socket_exchange server_fd client_fd lines h =
    let (sends, prints) = talked-sends client_fd lines [] in
    (
      served server_fd lines [],
      talked client_fd lines [],
      rw sends (serve_loop-lines server_fd lines [] h),
      rw (served-sends server_fd lines []) (client_loop-lines client_fd lines [] h),
      sends,
      served-sends server_fd lines [],
      prints,
    )
