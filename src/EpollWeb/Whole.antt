-- ===== src/EpollWeb/Whole.antt =====
-- A whole request of the epoll web server: from the bytes that a client sends to the closed
-- connection.
use unix_net.Common.{
  ℕ, ◌<◌, ◌%◌, ◌^◌, ◌≡◌, refl, sym, ap, ◌∙◌, true, false, some, List, [], ◌∷◌, ◌++◌, Bytes, codes,
  arith, ◌==◌, if◌then◌else◌, Bool-cases, inl, inr, length, All, append-nil,
}
use unix_net.Sys.{Answer, fail, ret, bytes, Action, Log, ok}
use unix_net.Sys.Preserves.{AtEnd, Admits}
use unix_net.Pub.{get_mime_type}
use unix_net.Files.{Files, regular}
use unix_net.Readline.{newline}
use unix_net.EpollWeb.Response.{repath_of}
use unix_net.EpollWeb.Sent.{handed, header_text}
use unix_net.EpollWeb.Regular.{Chunk, replies, content}
use unix_net.EpollWeb.Server.{drain, serve_client, handle_event}
use unix_net.EpollWeb.Drain.{drain_ends, behind_failure, Drained}
use unix_net.EpollWeb.Request.{IsWord, request_line}
use unix_net.EpollWeb.Reads.{drain_from, readline-line}
use unix_net.EpollWeb.Own.{IsOwn, serve_client-Preserves}
use unix_net.EpollWeb.Answered.{
  Outcome, found, missed, listed, ignored, Holds, ends, given, response, served,
}

-- The text of a request, and what comes behind its line.
abbrev pub request_text : (method name protocol more : Bytes) → Bytes
request_text method name protocol more = request_line method name protocol ++ (newline ∷ more)

abbrev pub IsLine : Bytes → Type 0
IsLine = All λ b. (b == newline) ≡ false

ends_failure : (o : Outcome) (w : List Answer) → behind_failure (ends o ∷ w) ≡ some w
unfolding behind_failure
ends_failure (found size file cs) w = refl
ends_failure (missed file page) w = refl
ends_failure (listed ffd front entries bfd back) w = refl
ends_failure ignored w = refl

-- What is handed to `send` for the other clients stays as it is.
others_step :
    (fd x : ℕ) (text : Bytes)
    → (fd == x) ≡ false
    → (act : Action) → IsOwn fd act
    → Admits (λ l. handed x l ≡ text) act
others_step fd x text other (Action.send fd' bs) own log h = rw (own, other) (append-nil _ ∙ h)
others_step fd x text other _ own log h = append-nil _ ∙ h

module _ (files : Files) (lfd fd m n : ℕ) (method name protocol more : Bytes) (o : Outcome)
    (w : List Answer) (log : Log) where
  abbrev all_answers : List Answer
  all_answers = bytes (request_text (m ∷ method) (n ∷ name) protocol more) ∷ given o (ends o ∷ w)

  drained :
      (log₁ : Log) (text : Bytes)
      → handed fd log₁ ≡ text
      → (log₂ : Log) × (drain fd more (ends o ∷ w) log₁ ≡ ok [] w log₂) × (handed fd log₂ ≡ text)
  drained log₁ text s =
      let ended : Drained (some w) (drain fd more (ends o ∷ w) log₁) =
        rw (ends_failure o w) at (drain_ends fd more (ends o ∷ w) log₁) in
      let kept : AtEnd (λ l. handed fd l ≡ text) (drain fd more (ends o ∷ w) log₁) =
        drain_from fd (λ l h. append-nil (handed fd l) ∙ h) more (ends o ∷ w) log₁ s in
      (ended.0, ended.1, rw ended.1 at kept)

  module _ (other : (fd == lfd) ≡ false) (hm : IsWord m method) (hn : IsWord n name)
      (lines : IsLine (request_line (m ∷ method) (n ∷ name) protocol))
      (short : length (request_line (m ∷ method) (n ∷ name) protocol) < 1499)
      (holds : Holds files (m ∷ method) (n ∷ name) o) where
    handled :
        (log' : Log) × (handle_event files lfd [] (fd, true) all_answers log ≡ ok [] w log')
        × (handed fd log' ≡ handed fd log ++ response (n ∷ name) o)
    unfolding handle_event serve_client
    handled =
        let read_log = Action.read fd 100 ∷ log in
        let (log₁, serves, s₁) =
          served files fd m n method name protocol more o (ends o ∷ w) read_log hm hn holds in
        let (log₂, drains, s₂) =
          drained log₁ (handed fd log ++ response (n ∷ name) o)
            (s₁ ∙ ap (λ t. t ++ response (n ∷ name) o) (append-nil _)) in
        let reads =
          readline-line fd m (method ++ (b' ' ∷ ((n ∷ name) ++ (b' ' ∷ protocol)))) more
            (given o (ends o ∷ w)) log lines short in
        (log₂, rw (other, reads, serves, drains), s₂)

    others_kept :
        (x : ℕ)
        → (fd == x) ≡ false
        → AtEnd
            (λ l. handed x l ≡ handed x log)
            (handle_event files lfd [] (fd, true) all_answers log)
    unfolding handle_event
    others_kept x different =
        let kept =
          serve_client-Preserves {P = λ l. handed x l ≡ handed x log} fd
            (others_step fd x (handed x log) different) files [] in
        rw other (kept.from all_answers log refl)

    -- An event of a client whose request comes in one read, with anything behind its line: the
    -- response of its outcome is handed to `send` for it, and nothing for others, the rest of what it
    -- sent is read off, and the server goes on with an empty buffer.
    pub handle_event-request :
        (log' : Log) × (handle_event files lfd [] (fd, true) all_answers log ≡ ok [] w log')
        × ((x : ℕ)
            → handed x log' ≡ handed x log ++ (if fd == x then response (n ∷ name) o else []))
    handle_event-request =
        let (log', e, s) = handled in
        (
          log',
          e,
          λ x. elim (Bool-cases (fd == x)) [
            | inl p ↦ let same : fd ≡ x = ground arith in rw (p, ← same) s
            | inr p ↦ rw p (rw e at (others_kept x p) ∙ sym (append-nil _))
          ],
        )

-- A request by GET for a regular file that is there and can be read: the header and the
-- bytes of the file are handed to `send`.
pub handle_event-get :
    (files : Files) (lfd fd n : ℕ) (name protocol more : Bytes) (size file : ℕ) (cs : List Chunk)
    (w : List Answer) (log : Log)
    → (fd == lfd) ≡ false
    → IsWord n name
    → IsLine (request_line (codes "GET") (n ∷ name) protocol)
    → length (request_line (codes "GET") (n ∷ name) protocol) < 1499
    → files.stat (repath_of (n ∷ name)) ≡ regular size
    → (log' : Log) × (handle_event files lfd []
          (fd, true)
          (bytes (request_text (codes "GET") (n ∷ name) protocol more)
            ∷ ret file
            ∷ replies cs (bytes [] ∷ fail 9 ∷ w))
          log
        ≡ ok [] w log')
      × (handed fd log'
          ≡ handed fd log
            ++ (header_text 200 (get_mime_type (n ∷ name)) (size % 2 ^ 32) ++ content cs))
handle_event-get files lfd fd n name protocol more size file cs w log other hn lines short stat =
    let (log', e, s) =
      handle_event-request files lfd fd b'G' n (codes "ET") name protocol more (found size file cs)
        w log other ((refl, refl), ((refl, refl), ((refl, refl), tt))) hn lines short
        (refl, stat) in
    let same : (fd == fd) ≡ true = ground arith in (log', e, rw same at (s fd))
