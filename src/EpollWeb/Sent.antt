-- ===== src/EpollWeb/Sent.antt =====
-- What is handed to `send` for a client, and the text of a response header.
use unix_net.Common.{
  ℕ, ◌^◌, ◌≡◌, refl, ap, true, ◌&&◌, List, [], ◌∷◌, ◌++◌, Bytes, codes, append_assoc, ◌==◌, ltb,
  if◌then◌else◌, Bool-cases, inl, inr, arith,
}
use unix_net.Sys.{Answer, Action, Log, ok}
use unix_net.CString.Decimal.{decimal}
use unix_net.EpollWeb.Response.{crlf, state_of, send_header}

-- The bytes that one call hands to a descriptor.
abbrev pub payload : ℕ → Action → Bytes
payload fd (Action.send fd' bs) = if fd' == fd then bs else []
payload fd _ = []

-- All bytes that `send` was called with for a descriptor, in order; the log has the latest call
-- first. A call may take fewer: the server does not look at the number, and it is not counted here.
abbrev pub handed : ℕ → Log → Bytes
handed fd [] = []
handed fd (act ∷ log) = handed fd log ++ payload fd act

-- The header lines of a response, and the empty line.
abbrev pub line : Bytes → Bytes
line text = text ++ crlf

abbrev pub length_line : ℕ → Bytes
length_line n =
    if ltb 0 n && ltb n (2 ^ 31) then line (codes "Content-length:" ++ decimal n) else []

pub header_text : ℕ → Bytes → ℕ → Bytes
header_text code kind n =
    line (codes "HTTP/1.1 " ++ (decimal code ++ (b' ' ∷ state_of code)))
    ++ (line (codes "Content-Type:" ++ kind) ++ (length_line n ++ crlf))

same_fd : (fd : ℕ) (bs : Bytes) → payload fd (Action.send fd bs) ≡ bs
same_fd fd bs = let e : (fd == fd) ≡ true = ground arith in rw e

handed-send :
    (fd : ℕ) (bs : Bytes) (log : Log) → handed fd (Action.send fd bs ∷ log) ≡ handed fd log ++ bs
handed-send fd bs log = ap (◌++◌ (handed fd log)) (same_fd fd bs)

-- `send_header` makes its calls and returns; the header is handed to `send`.
pub send_header_lem :
    (fd code : ℕ) (kind : Bytes) (n : ℕ) (w : List Answer) (log : Log)
    → (log' : Log) × (send_header fd code kind n w log ≡ ok tt w log')
      × (handed fd log' ≡ handed fd log ++ header_text code kind n)
unfolding send_header header_text
send_header_lem fd code kind n w log =
    let same : (fd == fd) ≡ true = ground arith in
    elim (Bool-cases (ltb 0 n && ltb n (2 ^ 31))) [
      | inl p ↦ rw p (_, refl, rw same (simp append_assoc))
      | inr p ↦ rw p (_, refl, rw same (simp append_assoc))
    ]
