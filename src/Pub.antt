-- ===== src/Pub.antt =====
-- WebServer/Epoll_Web/pub.c, of which the four other pub.c files are copies: the type of a file by
-- its name, a line from a socket, and the coding of names in a URL.
pub mod Mime
pub mod Line
pub mod Codec
pub mod Coded
use unix_net.Common.{
  ℕ, zero, suc, ◌+◌, ◌-◌, ◌*◌, ◌/◌, ◌%◌, Bool, ◌&&◌, ◌||◌, Option, none, some, List, [], ◌∷◌, ◌++◌,
  Bytes, codes, ◌==◌, ltb, if◌then◌else◌,
}
use unix_net.CString.{equal, mem, strrchr, within, is_xdigit, is_alnum, hex_digit}

abbrev pub plain : Bytes
plain = codes "text/plain; charset=utf-8"

-- The chain of `strcmp` tests on the text from the last dot on.
pub type_of_suffix : Bytes → Bytes
type_of_suffix dot =
    if equal dot (codes ".html") || equal dot (codes ".htm")
    then codes "text/html; charset=utf-8"
    else if equal dot (codes ".jpg") || equal dot (codes ".jpeg")
    then codes "image/jpeg"
    else if equal dot (codes ".gif")
    then codes "image/gif"
    else if equal dot (codes ".png")
    then codes "image/png"
    else if equal dot (codes ".css")
    then codes "text/css"
    else if equal dot (codes ".au")
    then codes "audio/basic"
    else if equal dot (codes ".wav")
    then codes "audio/wav"
    else if equal dot (codes ".avi")
    then codes "video/x-msvideo"
    else if equal dot (codes ".mov") || equal dot (codes ".qt")
    then codes "video/quicktime"
    else if equal dot (codes ".mpeg") || equal dot (codes ".mpe")
    then codes "video/mpeg"
    else if equal dot (codes ".vrml") || equal dot (codes ".wrl")
    then codes "model/vrml"
    else if equal dot (codes ".midi") || equal dot (codes ".mid")
    then codes "audio/midi"
    else if equal dot (codes ".mp3")
    then codes "audio/mpeg"
    else if equal dot (codes ".ogg")
    then codes "application/ogg"
    else if equal dot (codes ".pac")
    then codes "application/x-ns-proxy-autoconfig"
    else plain

type_of_dot : Option Bytes → Bytes
unfolding type_of_suffix
type_of_dot none = plain
type_of_dot (some dot) = type_of_suffix dot

unfoldable pub get_mime_type : Bytes → Bytes
unfolding type_of_dot strrchr equal
get_mime_type name = type_of_dot (strrchr b'.' name)

-- The byte that is peeked at behind a carriage return is taken if it is a newline.
pub after_return : Bytes → Bytes
after_return [] = []
after_return (d ∷ input) = if d == b'\n' then input else d ∷ input

-- The rounds of `get_line` that are left, `size - 1 - i`, and what the socket will still give. A
-- byte is stored in each round; at the end of the input the loop stops without one. The result is
-- the stored text and the input behind it.
pub get_line_loop : ℕ → Bytes → Bytes × Bytes
unfolding after_return
get_line_loop zero input = ([], input)
get_line_loop (suc rounds) [] = ([], [])
get_line_loop (suc rounds) (c ∷ input) =
    let (text, rest) = get_line_loop rounds input in
    if c == b'\r'
    then (b'\n' ∷ [], after_return input)
    else if c == b'\n'
    then (b'\n' ∷ [], input)
    else (c ∷ text, rest)

unfoldable pub get_line : ℕ → Bytes → Bytes × Bytes
unfolding get_line_loop
get_line size = get_line_loop (size - 1)

unfoldable pub hexit : ℕ → ℕ
hexit c =
    if within b'0' b'9' c
    then c - b'0'
    else if within b'a' b'f' c
    then c - b'a' + 10
    else if within b'A' b'F' c
    then c - b'A' + 10
    else 0

-- The text that `strdecode` writes, from the text that it reads.
unfoldable pub strdecode : Bytes → Bytes
unfolding hexit is_xdigit
strdecode [] = []
strdecode (c ∷ []) = c ∷ []
strdecode (c ∷ a ∷ []) = c ∷ a ∷ []
strdecode (c ∷ a ∷ b ∷ from) =
    let plain_rest = strdecode (a ∷ b ∷ from) in
    let escaped_rest = strdecode from in
    if c == b'%' && (is_xdigit a && is_xdigit b)
    then (hexit a * 16 + hexit b) % 256 ∷ escaped_rest
    else c ∷ plain_rest

pub kept : ℕ → Bool
unfolding is_alnum mem
kept c = is_alnum c || mem c (codes "/_.-~")

-- `sprintf(to, "%%%02x", (int) *from & 0xff)`
pub percent : ℕ → Bytes
unfolding hex_digit
percent c = b'%' ∷ hex_digit (c % 256 / 16) ∷ hex_digit (c % 16) ∷ []

strencode_loop : ℕ → ℕ → Bytes → Bytes
unfolding kept percent
strencode_loop tosize tolen [] = []
strencode_loop tosize tolen (c ∷ from) =
    let rest = strencode_loop tosize (tolen + (if kept c then 1 else 3)) from in
    if ltb (tolen + 4) tosize then (if kept c then c ∷ rest else percent c ++ rest) else []

unfoldable pub strencode : ℕ → Bytes → Bytes
unfolding strencode_loop
strencode tosize = strencode_loop tosize 0
