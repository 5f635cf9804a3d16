-- ===== src/Cgi.antt =====
-- CGI协议/CGI的Pull方式/Syn/post-cgi.c, of which the file in ASyn is a copy: two numbers with an
-- operator between them come as the body of a request, and the answer is their sum or difference.
pub mod Answers
pub mod Query
pub mod Same
use unix_net.Common.{
  ℕ, zero, suc, ◌+◌, Bool, Option, none, some, ◌&&◌, List, [], ◌∷◌, ◌++◌, Bytes, codes, ◌==◌, ltb,
  if◌then◌else◌, length,
}
use unix_net.Sys.{Action, Cmd, ◌>>=◌, ◌>>◌, pure, note, crash}
use unix_net.CString.{until_zero}
use unix_net.CString.Integer.{ℤ, pos, negsuc, ◌+ℤ◌, ◌-ℤ◌, is_int, decimal_ℤ, scan_int}

-- `fgets(data, size, stdin)` for `room` = size - 1: the line, up to and with its newline, and at most
-- `room` bytes of it.
unfoldable pub fgets : ℕ → Bytes → Bytes
fgets zero input = []
fgets (suc room) [] = []
fgets (suc room) (c ∷ input) = if c == b'\n' then c ∷ [] else c ∷ fgets room input

-- `atoi(len) + 1`: the room for `fgets`. Without a number `atoi` gives 0, and for a negative one
-- nothing is read.
abbrev pub room_of : Option (ℤ × Bytes) → ℕ
room_of (some (pos n, rest)) = n
room_of _ = 0

-- What `sscanf(data, "%d%c%d", ...)` stores: a conversion that fails ends it, and leaves the
-- initial value of its variable and of those behind it.
pub record Parsed : Type 0 where
  pub data1 : ℤ
  pub ch : ℕ
  pub data2 : ℤ

abbrev second : ℤ → ℕ → Option (ℤ × Bytes) → Parsed
second a c none = record { data1 = a; ch = c; data2 = pos 0 }
second a c (some (b, rest)) = record { data1 = a; ch = c; data2 = b }

abbrev first : Option (ℤ × Bytes) → Parsed
first none = record { data1 = pos 0; ch = 0; data2 = pos 0 }
first (some (a, [])) = record { data1 = a; ch = 0; data2 = pos 0 }
first (some (a, c ∷ rest)) = second a c (scan_int rest)

unfoldable pub parse : Bytes → Parsed
parse text = first (scan_int text)

abbrev pub print_int : ℤ → Cmd (Unit {0})
print_int a = note (Action.print (decimal_ℤ a ++ codes "\n"))

-- A number or a result that is no `int` of 32 bits is undefined.
unfoldable pub calculate : Parsed → Cmd (Unit {0})
calculate p =
    if is_int p.data1 && is_int p.data2
    then (if p.ch == b'+'
        then (if is_int (p.data1 +ℤ p.data2) then print_int (p.data1 +ℤ p.data2) else crash)
        else if p.ch == b'-'
        then (if is_int (p.data1 -ℤ p.data2) then print_int (p.data1 -ℤ p.data2) else crash)
        else pure tt)
    else crash

-- The length goes to `atoi` unchecked, and bounds what is read into an array of 512 bytes.
abbrev pub handle : Option Bytes → Bytes → Cmd (Unit {0})
handle none input = crash
handle (some len) input =
    let line = fgets (room_of (scan_int len)) input in
    if ltb (length line) 512 then calculate (parse (until_zero line)) else crash

-- `main`, for the environment's CONTENT_LENGTH and what is on the standard input.
unfoldable pub main : Option Bytes → Bytes → Cmd (Unit {0})
main content_length input = do
  note (Action.print (codes "Content-Type:text/html\n\n"))
  handle content_length input
