-- ===== src/Raw/Udp.antt =====
-- `main` of udpMessage.c: the Ethernet frame with an IP packet and a UDP datagram that it builds
-- around the text that it has read.
pub mod Verify
use unix_net.Common.{ℕ, ◌+◌, ◌%◌, List, [], ◌∷◌, ◌++◌, Bytes, ◌==◌, if◌then◌else◌, length}
use unix_net.ByteOrder.{Host, store16}
use unix_net.Raw.Checksum.{checksum}
use unix_net.Raw.Frame.{be16}

-- `strlen(data) + strlen(data) % 2` bytes of the zeroed array that holds the text.
abbrev pub data_len : Bytes → ℕ
data_len text = length text + length text % 2

abbrev pub padded : Bytes → Bytes
padded text = if length text % 2 == 1 then text ++ 0 ∷ [] else text

abbrev pub saddr : Bytes
saddr = 192 ∷ 168 ∷ 141 ∷ 128 ∷ []

abbrev pub daddr : Bytes
daddr = 192 ∷ 168 ∷ 141 ∷ 1 ∷ []

-- The Ethernet header, for IP.
unfoldable pub ether_header : Host → Bytes
ether_header host =
    (0x00 ∷ 0x50 ∷ 0x56 ∷ 0xc0 ∷ 0x00 ∷ 0x08 ∷ [])
    ++ ((0x00 ∷ 0x0c ∷ 0x29 ∷ 0xc1 ∷ 0xd3 ∷ 0x13 ∷ []) ++ be16 host 0x0800)

-- `struct iphdr` with its check field: version 4 and five words, no service type, the length, the
-- identification and the offset 0, 128 hops, UDP.
unfoldable pub ip_header : Host → ℕ → Bytes → Bytes
ip_header host len check =
    (0x45 ∷ 0 ∷ [])
    ++ (be16 host (20 + 8 + len)
        ++ (be16 host 0 ++ (be16 host 0 ++ ((128 ∷ 17 ∷ []) ++ (check ++ (saddr ++ daddr))))))

-- `struct udphdr` with its check field.
unfoldable pub udp_header : Host → ℕ → Bytes → Bytes
udp_header host len check = be16 host 8000 ++ (be16 host 8000 ++ (be16 host (8 + len) ++ check))

unfoldable pub pseudo_header : Host → ℕ → Bytes
pseudo_header host len = saddr ++ (daddr ++ ((0 ∷ 17 ∷ []) ++ be16 host (8 + len)))

-- Each check field holds zero while its sum is taken; the second sum runs over the pseudo header,
-- the UDP header and the data.
unfoldable pub ip_check : Host → ℕ → ℕ
ip_check host len = checksum host (ip_header host len (be16 host 0)) 20

unfoldable pub udp_check : Host → Bytes → ℕ
udp_check host text =
    let len = data_len text in
    checksum host (pseudo_header host len ++ (udp_header host len (be16 host 0) ++ padded text))
      (8 + 12 + len)

-- What is sent: the three headers and the data.
unfoldable pub udp_frame : Host → Bytes → Bytes
udp_frame host text =
    let len = data_len text in
    ether_header host
    ++ (ip_header host len (store16 host (ip_check host len))
        ++ (udp_header host len (store16 host (udp_check host text)) ++ padded text))
