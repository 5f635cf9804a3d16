-- ===== src/Library/Capture.antt =====
-- LibPcap/pcapLoop.c and pcapRules.c: the lengths of the packets that are captured.
use unix_net.Common.{[], ◌∷◌, ◌++◌, Bytes, codes}
use unix_net.Sys.{
  Answer, fail, bytes, value, Action, ok, blocked, Cmd, ◌>>=◌, ◌>>◌, call, note, halt,
}
use unix_net.CString.Decimal.{decimal}

-- `pcap_loop` without a bound, and the handler that both programs give it. A failure ends it.
unfoldable pub pcap_loop : Cmd (Unit {0})
pcap_loop [] log = blocked (Action.pcap_packet ∷ log)
pcap_loop (fail e ∷ w) log = ok tt w (Action.pcap_packet ∷ log)
pcap_loop (a ∷ w) log =
    pcap_loop w (
      Action.print (codes "len -> " ++ (decimal (value a) ++ codes "\n"))
      ∷ Action.pcap_packet
      ∷ log)

abbrev pub or_exit : Answer → Cmd (Unit {0}) → Cmd (Unit {0})
or_exit (fail e) next = halt 255
or_exit a next = next

abbrev pub capture : Cmd (Unit {0})
capture = do pcap_loop; note Action.pcap_close

-- The device that `pcap_lookupdev` names, or none, which stands for all of them.
abbrev pub device : Answer → Bytes
device (bytes name) = name
device _ = []

-- `main` of pcapLoop.c.
unfoldable pub loop_main : Cmd (Unit {0})
loop_main = do
  dev_name ← call Action.pcap_lookupdev
  pcap ← call (Action.pcap_open_live (device dev_name))
  or_exit pcap capture

-- `main` of pcapRules.c.
unfoldable pub rules_main : Cmd (Unit {0})
rules_main = do
  pcap ← call (Action.pcap_open_live (codes "eth0"))
  or_exit pcap (do
    compiled ← call (Action.pcap_compile (codes "udp port 8000"))
    or_exit compiled (do set ← call Action.pcap_setfilter; or_exit set capture))
