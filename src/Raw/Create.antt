-- ===== src/Raw/Create.antt =====
-- SockRaw原始套接字/createDemo.c: a raw socket, its number and its end. A socket that is not there is
-- printed and closed all the same.
use unix_net.Common.{◌++◌, Bytes, codes}
use unix_net.Sys.{Answer, fail, value, Action, Cmd, ◌>>=◌, ◌>>◌, call, note}
use unix_net.CString.Decimal.{decimal}
use unix_net.ByteOrder.{Host, htons}
use unix_net.Files.{descriptor}

abbrev pub number_text : Answer → Bytes
number_text (fail e) = codes "-1"
number_text a = decimal (value a)

-- `socket(PF_PACKET, SOCK_RAW, htons(ETH_P_ALL))`
unfoldable pub create_main : Host → Cmd (Unit {0})
create_main host = do
  sock ← call (Action.socket 17 3 (htons host 3))
  note (Action.print (codes "create sock_raw:" ++ (number_text sock ++ codes "\n")))
  note (Action.close (descriptor sock))
