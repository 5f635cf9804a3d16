-- ===== src/Udp/Exchange.antt =====
-- The two UDP programs together: what is typed, sent, sent back and printed.
use unix_net.Common.{
  ℕ, ◌<◌, ◌≡◌, refl, sym, ap, ◌∙◌, List, [], ◌∷◌, ◌++◌, Bytes, codes, append_assoc, append-nil, All,
  length, map, replicate,
}
use unix_net.Sys.{bytes, Action, Log, blocked}
use unix_net.Files.{overlay, window}
use unix_net.Files.Array.{NoZero, length-window, length-replicate, window-text, overlay_full}
use unix_net.Sys.Trace.{messages, printed, in_turn}
use unix_net.Udp.{received, send_line, serve_loop, client_loop}

-- Each line as the client shows what came back.
abbrev pub shown : List Bytes → Bytes
shown [] = []
shown (line ∷ lines) = codes "ServerReturn:" ++ (line ++ codes "\n") ++ shown lines

-- A line that fits the array, with no zero in it.
abbrev pub IsLine : Bytes → Type 0
IsLine line = (length line < 1024) × NoZero line

abbrev served : ℕ → List Bytes → Log → Log
served fd [] log = Action.recvfrom fd 1024 ∷ log
served fd (line ∷ lines) log = served fd lines (
    Action.reply fd (window 1024 line)
    ∷ Action.print (received ++ (line ++ codes "\n"))
    ∷ Action.recvfrom fd 1024
    ∷ log)

serve_loop-lines :
    (fd : ℕ) (lines : List Bytes) (log : Log)
    → All IsLine lines
    → serve_loop fd (map bytes lines) log ≡ blocked (served fd lines log)
unfolding serve_loop
serve_loop-lines fd [] log h = refl
serve_loop-lines fd (line ∷ lines) log h =
    let (whole, text) = window-text 1024 line h.0.0 h.0.1 in
    rw (whole, text) (serve_loop-lines fd lines _ h.1)

messages-served :
    (fd : ℕ) (lines : List Bytes) (log : Log)
    → messages (served fd lines log) ≡ messages log ++ map (window 1024) lines
messages-served fd [] log = refl
messages-served fd (line ∷ lines) log =
    messages-served fd lines _
    ∙ ap (λ l. (l ++ (window 1024 line ∷ [])) ++ map (window 1024) lines)
        (append-nil (messages log ++ []) ∙ append-nil (messages log))
    ∙ append_assoc (messages log) _ _

abbrev talked : ℕ → List Bytes → Log → Log
talked fd [] log = Action.read 0 1024 ∷ log
talked fd (line ∷ lines) log = talked fd lines (
    Action.print (codes "ServerReturn:" ++ (line ++ codes "\n"))
    ∷ Action.recvfrom fd 1024
    ∷ send_line fd line
    ∷ Action.read 0 1024
    ∷ log)

client_loop-lines :
    (fd : ℕ) (lines : List Bytes) (re_buf : Bytes) (log : Log)
    → All IsLine lines
    → length re_buf ≡ 1024
    → client_loop fd re_buf (in_turn lines (map (window 1024) lines)) log
      ≡ blocked (talked fd lines log)
unfolding client_loop
client_loop-lines fd [] re_buf log h k = refl
client_loop-lines fd (line ∷ lines) re_buf log h k =
    let (whole, text) = window-text 1024 line h.0.0 h.0.1 in
    let full : overlay (window 1024 line) re_buf ≡ window 1024 line =
      overlay_full (window 1024 line) re_buf (k ∙ sym (length-window 1024 line)) in
    rw (full, whole, text)
      (client_loop-lines fd lines (window 1024 line) _ h.1 (length-window 1024 line))

talked-sends :
    (fd : ℕ) (lines : List Bytes) (log : Log)
    → All IsLine lines
    → (messages (talked fd lines log) ≡ messages log ++ lines)
      × (printed (talked fd lines log) ≡ printed log ++ shown lines)
talked-sends fd [] log h = (refl, refl)
talked-sends fd (line ∷ lines) log h =
    let (sends, prints) = talked-sends fd lines _ h.1 in
    let (whole, text) = window-text 1024 line h.0.0 h.0.1 in
    (sends ∙ simp (append_assoc, append-nil, text), prints ∙ simp (append_assoc, append-nil))

-- For lines that fit and hold no zero: the server, given the client's datagrams, goes on waiting
-- and has sent one back for each. The client, given what was typed and what the server sent back
-- in turn, goes on waiting, has sent exactly the lines, and has printed each line behind its label
-- with nothing left of the line before, although its array is not cleared.
pub client_server_exchange :
    (server_fd client_fd : ℕ) (lines : List Bytes)
    → All IsLine lines
    → (server_log : Log) × (client_log : Log) × (serve_loop server_fd
          (map bytes (messages client_log))
          []
        ≡ blocked server_log)
      × (client_loop client_fd (replicate 1024 0) (in_turn lines (messages server_log)) []
          ≡ blocked client_log)
      × (messages client_log ≡ lines)
      × (printed client_log ≡ shown lines)
client_server_exchange server_fd client_fd lines h =
    let (sends, prints) = talked-sends client_fd lines [] h in
    (
      served server_fd lines [],
      talked client_fd lines [],
      rw sends (serve_loop-lines server_fd lines [] h),
      rw (messages-served server_fd lines []) (
          client_loop-lines client_fd lines (replicate 1024 0) [] h
            (length-replicate {A = ℕ} 1024 0)),
      sends,
      prints,
    )
