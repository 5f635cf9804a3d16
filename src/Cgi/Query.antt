-- ===== src/Cgi/Query.antt =====
-- CGI协议/CGI的Get方式/CGI异步方式/test_cgi.c: the same calculation, on the text behind the question
-- mark of the address, which comes in QUERY_STRING.
use unix_net.Common.{Option, none, some, Bytes, codes}
use unix_net.Sys.{Action, Cmd, ◌>>◌, note, crash}
use unix_net.Cgi.{parse, calculate}

-- Where the variable is not set, `sscanf` is given a null pointer.
abbrev pub handle : Option Bytes → Cmd (Unit {0})
handle none = crash
handle (some text) = calculate (parse text)

unfoldable pub main : Option Bytes → Cmd (Unit {0})
main query_string = do note (Action.print (codes "Content-Type:text/html\n\n")); handle query_string
