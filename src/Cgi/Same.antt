-- ===== src/Cgi/Same.antt =====
-- The two CGI programs on the same text.
use unix_net.Common.{◌<◌, ◌≡◌, refl, lt→ltb, length, List, some, ◌++◌, Bytes}
use unix_net.Sys.{Answer, Log}
use unix_net.CString.Decimal.{decimal}
use unix_net.Cgi as Post
use unix_net.Cgi.Query as Get
use unix_net.Cgi.Answers.{IsPlain, fgets-plain, until_zero-plain, room_of-decimal}

-- Any text, a request or not, with no newline and no zero in it and shorter than the array of
-- post-cgi.c: test_cgi.c given it in QUERY_STRING behaves as post-cgi.c given it as the body of a
-- request with its length in CONTENT_LENGTH, whatever follows the body.
pub query_main-body_main :
    (text more : Bytes) (w : List Answer) (log : Log)
    → IsPlain text
    → length text < 512
    → Get.main (some text) w log ≡ Post.main (some (decimal (length text))) (text ++ more) w log
unfolding Get.main Post.main
query_main-body_main text more w log plain fits =
    rw
      (
        room_of-decimal (length text),
        fgets-plain text more plain,
        lt→ltb (length text) 512 fits,
        until_zero-plain text plain,
      )
      refl
