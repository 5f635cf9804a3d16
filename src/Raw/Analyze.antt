-- ===== src/Raw/Analyze.antt =====
-- analyzeMac.c: what it reports of one received frame.
pub mod Ports
use unix_net.Common.{
  ℕ, ◌+◌, ◌*◌, ◌/◌, ◌%◌, Bytes, [], ◌∷◌, Option, none, some, ◌==◌, if◌then◌else◌, drop,
}
use unix_net.CString.{until_zero}
use unix_net.ByteOrder.{Host, htons, load16}
use unix_net.Raw.Frame.{byte, field16, mac_text, ip_text}

-- What is printed for the protocol of an IP packet: for TCP and UDP the two ports and the data.
pub data Protocol : Type 0 where
  icmp igmp other : Protocol
  tcp udp : ℕ → ℕ → Bytes → Protocol

pub data Payload : Type 0 where
  ip : Protocol → (src_ip dst_ip : Bytes) → Payload
  arp rarp unknown : Payload

pub record Report : Type 0 where
  pub dst_mac : Bytes
  pub src_mac : Bytes
  pub payload : Payload

-- `(Ip[0] & 0x0f) * 4` and `(((Tcp[12] & 0xf0) >> 4) & 0x0f) * 4`
abbrev pub ip_head_len : Bytes → ℕ
ip_head_len buf = byte buf 14 % 16 * 4

abbrev pub tcp_head_len : Bytes → ℕ
tcp_head_len segment = byte segment 12 / 16 % 16 * 4

-- `ntohs(*(unsigned short *) Tcp)` and `ntohs(*(unsigned short *) Tcp + 2)`
abbrev pub src_port : Host → Bytes → ℕ
src_port host segment = field16 host segment 0

abbrev pub dst_port : Host → Bytes → ℕ
dst_port host segment = htons host (load16 host (byte segment 0) (byte segment 1) + 2)

-- The segment starts behind the IP header.
unfoldable pub protocol : Host → Bytes → Protocol
protocol host buf =
    let ip_type = byte buf 23 in
    let segment = drop (14 + ip_head_len buf) buf in
    if ip_type == 1
    then icmp
    else if ip_type == 2
    then igmp
    else if ip_type == 6
    then tcp (src_port host segment) (dst_port host segment)
        (until_zero (drop (tcp_head_len segment) segment))
    else if ip_type == 17
    then udp (src_port host segment) (dst_port host segment) (until_zero (drop 8 segment))
    else other

unfoldable pub analyze : Host → Bytes → Report
unfolding protocol mac_text
analyze host buf =
    let mac_type = field16 host buf 12 in
    record {
      dst_mac = mac_text buf 0;
      src_mac = mac_text buf 6;
      payload =
          if mac_type == 0x0800
          then ip (protocol host buf) (ip_text buf 26) (ip_text buf 30)
          else if mac_type == 0x0806
          then arp
          else if mac_type == 0x8035
          then rarp
          else unknown;
    }
