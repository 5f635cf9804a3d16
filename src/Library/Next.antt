-- ===== src/Library/Next.antt =====
-- libnetAndLibpcap网络库/LibPcap/pcapNext.c: the device, its network, and the lengths of the packets.
use unix_net.Common.{[], ◌∷◌, ◌++◌, Bytes, codes}
use unix_net.Sys.{
  Answer, fail, bytes, value, Action, blocked, crashed, Cmd, ◌>>=◌, ◌>>◌, call, note, halt, crash,
}
use unix_net.CString.Decimal.{decimal}
use unix_net.Raw.Frame.{ip_text}

-- The length is printed whether a packet came or not; where none came it was never set.
unfoldable pub next_loop : Cmd (Unit {0})
next_loop [] log = blocked (Action.pcap_packet ∷ log)
next_loop (fail e ∷ w) log = crashed (Action.pcap_packet ∷ log)
next_loop (a ∷ w) log =
    next_loop w (
      Action.print (codes "len = " ++ (decimal (value a) ++ codes "\n")) ∷ Action.pcap_packet ∷ log)

abbrev pub network_text : Bytes → Bytes
network_text bs = codes "ip=" ++ (ip_text bs 0 ++ (codes " mask=" ++ (ip_text bs 4 ++ codes "\n")))

-- `pcap_lookupnet` stores an address and a mask, of four bytes each. Where it fails, they are
-- printed without having been set.
abbrev pub with_network : Answer → Cmd (Unit {0})
with_network (bytes bs) = do note (Action.print (network_text bs)); next_loop
with_network _ = crash

abbrev pub with_handle : Bytes → Answer → Cmd (Unit {0})
with_handle name (fail e) = halt 255
with_handle name a = call (Action.pcap_lookupnet name) >>= with_network

-- Where there is no device a null pointer is printed.
abbrev pub with_device : Answer → Cmd (Unit {0})
with_device (bytes name) = do
  note (Action.print (codes "dev_name:" ++ (name ++ codes "\n")))
  pcap ← call (Action.pcap_open_live name)
  with_handle name pcap
with_device _ = crash

unfoldable pub main : Cmd (Unit {0})
main = call Action.pcap_lookupdev >>= with_device
