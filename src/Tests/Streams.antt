-- ===== src/Tests/Streams.antt =====
-- The wrappers of wrap.c and the texts of pub.c at concrete inputs.
use unix_net.Common.{All, ◌+◌, ◌≤◌, ◌≡◌, refl, some, List, [], ◌∷◌, ◌++◌, codes, arith, length}
use unix_net.Sys.{Answer, fail, ret, bytes, Log, ok, eintr}
use unix_net.CString.{mem}
use unix_net.Wrap.{writen}
use unix_net.Wrap.Count.{ending}
use unix_net.Wrap.Written.{Takes, done, again, part, transferred, writen_all}
use unix_net.Readline.{readline}
use unix_net.Readline.Stream.{
  Finds, RunsOut, first_line, holds_line, readline_found, readline-RunsOut,
}
use unix_net.Pub.{get_mime_type, get_line, strdecode, strencode, plain}
use unix_net.Pub.Mime.{mime_table, type_in, mime_by_suffix}
use unix_net.Pub.Line.{get_line_ends}
use unix_net.Pub.Coded.{IsVisible, strencode-IsVisible}
use unix_net.Pub.Codec.{strdecode-strencode, coded_lengths}
use mathlib.Core.List.{reverse_aux}

-- Two reads with a signal between them, which give the bytes of one line and of the next.
abbrev two_reads : List Answer
two_reads = bytes (codes "GE") ∷ fail eintr ∷ bytes (codes "T\nX") ∷ []

abbrev three_reads : List Answer
three_reads = bytes (codes "GE") ∷ fail eintr ∷ bytes (codes "T\n") ∷ bytes (codes "X") ∷ []

-- The first bytes, then an error.
abbrev broken : List Answer
broken = bytes (codes "GE") ∷ fail 104 ∷ []

readline_found_example :
    Finds
      (readline 5 100 (codes "A") two_reads [])
      []
      (first_line 99 (codes "AGET\nX"))
      1
      (codes "AGET\nX")
unfolding holds_line
readline_found_example = readline_found 5 100 (codes "A") two_reads [] refl

readline-RunsOut_example :
    RunsOut (readline 5 100 (codes "A") broken []) (codes "AGE") 3 (ending broken)
unfolding holds_line
readline-RunsOut_example = readline-RunsOut 5 100 (codes "A") broken [] refl

-- Three bytes, of which the system takes one, and after a signal two.
abbrev some_taken : List Answer
some_taken = ret 1 ∷ fail eintr ∷ ret 2 ∷ []

Takes-three : Takes (codes "abc") some_taken
Takes-three =
    part (omega arith) (omega arith)
      (again (λ e. ground arith) (part (omega arith) (omega arith) done))

writen_all_example :
    (used left : List Answer) × (acts : Log) × (some_taken ≡ used ++ left)
    × (writen 5 (codes "abc") some_taken [] ≡ ok (some 3) left (reverse_aux acts []))
    × (transferred used acts ≡ codes "abc")
writen_all_example = writen_all 5 [] Takes-three

mime_by_suffix_example :
    (get_mime_type (codes "a.b.png") ≡ type_in mime_table (codes "png"))
    × (get_mime_type (codes "png") ≡ plain)
unfolding mem
mime_by_suffix_example = mime_by_suffix (codes "a.b") (codes "png") refl

get_line_ends_example :
    (get_line 80 (codes "Host" ++ (b'\r' ∷ b'\n' ∷ codes "A")) ≡ (codes "Host\n", codes "A"))
    × (get_line 80 (codes "Host" ++ (b'\n' ∷ codes "A")) ≡ (codes "Host\n", codes "A"))
    × (get_line 80 (codes "Host" ++ (b'\r' ∷ b':' ∷ codes "A")) ≡ (codes "Host\n", codes ":A"))
    × (get_line 80 (codes "Host\r") ≡ (codes "Host\n", []))
    × (get_line 80 (codes "Host") ≡ (codes "Host", []))
get_line_ends_example =
    get_line_ends 80 (codes "Host") b':' (codes "A") (refl, (refl, (refl, (refl, tt))))
      (omega arith) (omega arith)

strdecode-strencode_example : strdecode (strencode 20 (codes "a b%")) ≡ codes "a b%"
strdecode-strencode_example =
    strdecode-strencode 20 (codes "a b%")
      (omega arith, (omega arith, (omega arith, (omega arith, tt)))) (omega arith)

coded_lengths_example :
    (length (strencode 4 (codes "a b%")) + 1 ≤ 4)
    × (length (strdecode (codes "a b%")) ≤ length (codes "a b%"))
coded_lengths_example = coded_lengths 4 (codes "a b%") (omega arith)

strencode-IsVisible_example : All IsVisible (strencode 20 (codes "a b\n"))
strencode-IsVisible_example = strencode-IsVisible 20 (codes "a b\n")
