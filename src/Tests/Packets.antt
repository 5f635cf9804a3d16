-- ===== src/Tests/Packets.antt =====
-- The packets of the raw socket programs and the byte orders at concrete inputs.
use unix_net.Common.{◌+◌, ◌≡◌, refl, some, [], ◌∷◌, ◌++◌, Bytes, codes, arith, length}
use unix_net.ByteOrder.{little, htons, load16}
use unix_net.Raw.Frame.{field16, ip_text, mac_text}
use unix_net.Raw.Checksum.{checksum, flat, word, Words, checksum_verifies}
use unix_net.Raw.Arp.{arp_request, arp_reply, await_reply}
use unix_net.Raw.Arp.Reply.{await-arp_reply}
use unix_net.Raw.Udp.{data_len, saddr, daddr, ether_header, pseudo_header, udp_frame}
use unix_net.Raw.Udp.Verify.{udp_frame_verifies}
use unix_net.Raw.Analyze.{udp, ip, analyze}
use unix_net.Raw.Analyze.Ports.{misread, analyze-udp_frame}
use unix_net.Sys.{ret, fail}
use unix_net.Sys.Preserves.{AtEnd}
use unix_net.Library.Sender as Net
use unix_net.Library.Sender.Lengths.{Counted, sender_main-Counted}

abbrev words : Words
words = (0x45, 0x00) ∷ []

abbrev more_words : Words
more_words = (0xff, 0xff) ∷ (0x12, 0x34) ∷ []

checksum_verifies_example :
    let c = checksum little (flat (words ++ ((0, 0) ∷ more_words))) 8 in
    checksum little (flat (words ++ (word little c ∷ more_words))) 8 ≡ 0
checksum_verifies_example =
    checksum_verifies little words more_words
      (
        (omega arith, omega arith),
        (
          (omega arith, omega arith),
          ((omega arith, omega arith), ((omega arith, omega arith), tt)),
        ),
      )
      (omega arith)

abbrev my_mac : Bytes
my_mac = 2 ∷ 0 ∷ 0 ∷ 0 ∷ 0 ∷ 1 ∷ []

udp_frame_verifies_example :
    (ip' datagram : Bytes) × (udp_frame little (codes "hey")
      ≡ ether_header little ++ (ip' ++ datagram))
    × (length ip' ≡ 20)
    × (field16 little ip' 2 ≡ length ip' + length datagram)
    × (field16 little datagram 4 ≡ length datagram)
    × (checksum little ip' (length ip') ≡ 0)
    × (checksum little
          (pseudo_header little (data_len (codes "hey")) ++ datagram)
          (12 + length datagram)
        ≡ 0)
udp_frame_verifies_example =
    udp_frame_verifies little (codes "hey") (omega arith, (omega arith, (omega arith, tt)))
      (omega arith)

analyze-udp_frame_example :
    (analyze little (udp_frame little (codes "hey"))).payload
    ≡ ip (udp 8000 (misread little) (codes "hey")) (ip_text saddr 0) (ip_text daddr 0)
analyze-udp_frame_example = analyze-udp_frame little (codes "hey") (refl, (refl, (refl, tt)))

-- Two words are typed, and libnet gives tags.
sender_main-Counted_example :
    AtEnd Counted
      (Net.main (codes "abc de") (ret 1 ∷ ret 1 ∷ ret 2 ∷ ret 3 ∷ ret 1 ∷ fail 5 ∷ []) [])
sender_main-Counted_example =
    sender_main-Counted (codes "abc de") (ret 1 ∷ ret 1 ∷ ret 2 ∷ ret 3 ∷ ret 1 ∷ fail 5 ∷ [])

-- The request of getMacAddr.c comes first, and an empty frame.
await-arp_reply_example :
    await_reply little (
      arp_request
      ∷ []
      ∷ arp_reply little (0 ∷ 80 ∷ 86 ∷ 192 ∷ 0 ∷ 8 ∷ []) my_mac (10 ∷ 0 ∷ 0 ∷ 1 ∷ []) []
      ∷ [])
    ≡ some (ip_text (10 ∷ 0 ∷ 0 ∷ 1 ∷ []) 0, mac_text my_mac 0)
unfolding arp_request htons load16
await-arp_reply_example =
    await-arp_reply little 0 80 86 192 0 8 2 0 0 0 0 1 10 0 0 1 [] (arp_request ∷ [] ∷ []) []
      (refl, (refl, tt))
