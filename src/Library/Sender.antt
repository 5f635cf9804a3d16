-- ===== src/Library/Sender.antt =====
-- LibNet/libNetUdp.c: five words that are typed are sent as UDP datagrams, with the headers that
-- libnet builds. A tag names a header that was built; 0 asks for a new one.
pub mod Lengths
use unix_net.Common.{ℕ, zero, suc, ◌+◌, [], ◌∷◌, Bytes, codes, ltb, if◌then◌else◌, length}
use unix_net.Sys.{Answer, fail, value, Action, Cmd, ◌>>=◌, ◌>>◌, pure, call, note, crash, halt}
use unix_net.CString.{until_zero}
use unix_net.CString.Integer.{is_blank, skip_blanks}
use unix_net.Raw.Udp.{data_len, padded, saddr, daddr}

-- `scanf("%s", data)`: the first word, and what is left.
unfoldable pub next_word : Bytes → Bytes × Bytes
next_word [] = ([], [])
next_word (c ∷ s) =
    let (word, rest) = next_word s in if is_blank c then ([], c ∷ s) else (c ∷ word, rest)

-- The tags of the UDP, the IP and the Ethernet header.
pub record Tags : Type 0 where
  pub udp_lpt : ℕ
  pub ip_lpt : ℕ
  pub mac_lpt : ℕ

-- A tag below 0 ends the program with status 255.
abbrev pub tag_or_exit : Answer → Cmd ℕ
tag_or_exit (fail e) = halt 255
tag_or_exit a = pure (value a)

abbrev pub build_headers : Tags → Bytes → ℕ → Cmd Tags
build_headers tags payload len = do
  udp ← call (Action.build_udp 8000 8000 (8 + len) payload tags.udp_lpt) >>= tag_or_exit
  ip ← call (Action.build_ipv4 (20 + 8 + len) 128 17 saddr daddr tags.ip_lpt) >>= tag_or_exit
  mac ←
      call (
        Action.build_ethernet (0x00 ∷ 0x50 ∷ 0x56 ∷ 0xc0 ∷ 0x00 ∷ 0x08 ∷ [])
          (0x00 ∷ 0x0c ∷ 0x29 ∷ 0xc1 ∷ 0xd3 ∷ 0x13 ∷ []) 0x0800 tags.mac_lpt)
      >>= tag_or_exit
  pure (record { udp_lpt = udp; ip_lpt = ip; mac_lpt = mac })

-- The prompt, in UTF-8.
abbrev pub prompt : Bytes
prompt =
    0xe8
    ∷ 0xaf
    ∷ 0xb7
    ∷ 0xe8
    ∷ 0xbe
    ∷ 0x93
    ∷ 0xe5
    ∷ 0x85
    ∷ 0xa5
    ∷ 0xe4
    ∷ 0xbd
    ∷ 0xa0
    ∷ 0xe8
    ∷ 0xa6
    ∷ 0x81
    ∷ 0xe5
    ∷ 0x8f
    ∷ 0x91
    ∷ 0xe9
    ∷ 0x80
    ∷ 0x81
    ∷ 0xe7
    ∷ 0x9a
    ∷ 0x84
    ∷ codes "msg:\n"

-- One datagram, and the word in its array of 128 bytes, of which an even number is sent.
abbrev pub send_word : Tags → Bytes → Cmd Tags
send_word tags word =
    if ltb (length word) 128
    then (do
      tags' ← build_headers tags (padded (until_zero word)) (data_len (until_zero word))
      note Action.net_write
      pure tags')
    else crash

-- The loop with so many rounds left, over what is typed.
unfoldable pub send_words : ℕ → Tags → Bytes → Cmd (Unit {0})
send_words zero tags input = pure tt
send_words (suc count) tags input = do
  note (Action.print prompt)
  tags' ← send_word tags (next_word (skip_blanks input)).0
  send_words count tags' (next_word (skip_blanks input)).1

abbrev pub with_handle : Bytes → Answer → Cmd (Unit {0})
with_handle input (fail e) = halt 255
with_handle input a = do
  send_words 5 (record { udp_lpt = 0; ip_lpt = 0; mac_lpt = 0 }) input
  note Action.net_destroy

unfoldable pub main : Bytes → Cmd (Unit {0})
main input = call (Action.net_init (codes "ens33")) >>= with_handle input
