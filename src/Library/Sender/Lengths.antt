-- ===== src/Library/Sender/Lengths.antt =====
-- The lengths that LibNet/libNetUdp.c gives its headers.
use unix_net.Common.{
  ℕ, zero, suc, ◌+◌, ◌%◌, ◌≡◌, refl, List, [], ◌∷◌, Bytes, codes, ◌==◌, length, length-append,
  arith, ltb, Bool-cases, inl, inr,
}
use unix_net.Sys.{Answer, fail, ret, bytes, Action, Log, ◌>>=◌, ◌>>◌, call, note}
use unix_net.Sys.Preserves.{
  AtEnd, Establishes, Reaches, Preserves, Preserves-bind, Preserves-pure, Preserves-call,
  Preserves-note, Preserves-stronger, Preserves-if,
}
use unix_net.CString.{until_zero}
use unix_net.CString.Integer.{skip_blanks}
use unix_net.Raw.Udp.{data_len, padded, saddr, daddr}
use unix_net.Library.Sender.{
  next_word, Tags, tag_or_exit, build_headers, prompt, send_word, send_words, with_handle, main,
}

-- The length in the last UDP header.
abbrev pub udp_len : Log → ℕ
udp_len [] = 0
udp_len (Action.build_udp sport dport len payload tag ∷ log) = len
udp_len (_ ∷ log) = udp_len log

-- Each UDP header counts itself and its payload, of an even length, and each IP header itself and
-- the UDP datagram that was built before it.
abbrev pub Counted : Log → Type 0
Counted [] = Unit
Counted (Action.build_udp sport dport len payload tag ∷ log) =
    (len ≡ 8 + length payload) × (length payload % 2 ≡ 0) × Counted log
Counted (Action.build_ipv4 len hops protocol src dst tag ∷ log) =
    (len ≡ 20 + udp_len log) × Counted log
Counted (_ ∷ log) = Counted log

length-padded : (text : Bytes) → length (padded text) ≡ data_len text
length-padded text = elim (Bool-cases (length text % 2 == 1)) [
  | inl p ↦ rw p (ground (arith, length-append text (0 ∷ []), p))
  | inr p ↦ rw p (ground (arith, p))
]

tag_or_exit-Preserves : {P : Log → Type 0} (a : Answer) → Preserves P (tag_or_exit a)
tag_or_exit-Preserves (fail e) = record { from = λ w log h. h }
tag_or_exit-Preserves (ret n) = record { from = λ w log h. h }
tag_or_exit-Preserves (bytes bs) = record { from = λ w log h. h }

-- Between the two headers the datagram has this length.
abbrev Datagram : ℕ → Log → Type 0
Datagram len log = (udp_len log ≡ 8 + len) × Counted log

module _ (tags : Tags) (text : Bytes) where
  udp_counted :
      (log : Log)
      → Counted log
      → Counted (Action.build_udp 8000 8000 (8 + data_len text) (padded text) tags.udp_lpt ∷ log)
  udp_counted log h = (omega (arith, length-padded text), omega (arith, length-padded text), h)

  udp_from :
      (w : List Answer) (log : Log)
      → Counted log
      → Reaches Counted (Datagram (data_len text)) (
          (call (Action.build_udp 8000 8000 (8 + data_len text) (padded text) tags.udp_lpt)
              >>= tag_or_exit)
            w log)
  udp_from [] log h = udp_counted log h
  udp_from (fail e ∷ w) log h = udp_counted log h
  udp_from (ret n ∷ w) log h = (refl, udp_counted log h)
  udp_from (bytes bs ∷ w) log h = (refl, udp_counted log h)

  udp-Establishes : Establishes Counted (Datagram (data_len text)) (
      call (Action.build_udp 8000 8000 (8 + data_len text) (padded text) tags.udp_lpt)
      >>= tag_or_exit)
  udp-Establishes = record { from = udp_from }

  build_headers-Preserves : Preserves Counted (build_headers tags (padded text) (data_len text))
  build_headers-Preserves =
      Preserves-stronger {Q = Datagram (data_len text)} (λ log h. h.1) (record { from = udp_from })
        λ udp.
          Preserves-bind
            (Preserves-bind
              (Preserves-call
                (Action.build_ipv4 (20 + 8 + data_len text) 128 17 saddr daddr tags.ip_lpt)
                λ log h. (h.0, (omega (arith, h.0), h.1)))
              tag_or_exit-Preserves)
            λ ip.
              Preserves-bind
                (Preserves-bind
                  (Preserves-call
                    (Action.build_ethernet (0x00 ∷ 0x50 ∷ 0x56 ∷ 0xc0 ∷ 0x00 ∷ 0x08 ∷ [])
                      (0x00 ∷ 0x0c ∷ 0x29 ∷ 0xc1 ∷ 0xd3 ∷ 0x13 ∷ []) 0x0800 tags.mac_lpt)
                    λ log h. h)
                  tag_or_exit-Preserves)
                λ mac. Preserves-pure (record { udp_lpt = udp; ip_lpt = ip; mac_lpt = mac })

send_word-Preserves : (tags : Tags) (word : Bytes) → Preserves Counted (send_word tags word)
send_word-Preserves tags word =
    Preserves-if (ltb (length word) 128)
      (Preserves-bind (build_headers-Preserves tags (until_zero word)) λ tags'.
        Preserves-bind (Preserves-note Action.net_write λ log h. h) λ _. Preserves-pure tags')
      (record { from = λ w log h. h })

send_words-Preserves :
    (count : ℕ) (tags : Tags) (input : Bytes) → Preserves Counted (send_words count tags input)
unfolding send_words
send_words-Preserves zero tags input = Preserves-pure tt
send_words-Preserves (suc count) tags input =
    Preserves-bind (Preserves-note (Action.print prompt) λ log h. h) λ _.
      Preserves-bind (send_word-Preserves tags (next_word (skip_blanks input)).0)
        λ tags'. send_words-Preserves count tags' (next_word (skip_blanks input)).1

opened :
    (input : Bytes)
    → Preserves Counted (do
      send_words 5 (record { udp_lpt = 0; ip_lpt = 0; mac_lpt = 0 }) input
      note Action.net_destroy)
opened input =
    Preserves-bind (send_words-Preserves 5 _ input)
      λ _. Preserves-note Action.net_destroy λ log h. h

with_handle-Preserves : (input : Bytes) (a : Answer) → Preserves Counted (with_handle input a)
with_handle-Preserves input (fail e) = record { from = λ w log h. h }
with_handle-Preserves input (ret n) = opened input
with_handle-Preserves input (bytes bs) = opened input

-- Whatever is typed and whatever libnet answers, and wherever the program stands: the length in
-- each UDP header is that of the header and its payload, the payload has an even length, and the
-- length in each IP header is that of the header and the datagram that was built last.
pub sender_main-Counted : (input : Bytes) (w : List Answer) → AtEnd Counted (main input w [])
unfolding main
sender_main-Counted input w =
    (Preserves-bind (Preserves-call (Action.net_init (codes "ens33")) λ log h. h)
        (with_handle-Preserves input)).from
      w [] tt
