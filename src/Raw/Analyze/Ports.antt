-- ===== src/Raw/Analyze/Ports.antt =====
-- The frame of udpMessage.c under the analyser, and the destination port that it reports.
use unix_net.Common.{
  ℕ, ◌%◌, ◌≡◌, refl, ap, [], ◌∷◌, ◌++◌, append-nil, Bytes, All, ◌==◌, length, Bool-cases, inl, inr,
  false,
}
use unix_net.CString.{until_zero}
use unix_net.ByteOrder.{Host, little, big, store16, load16, htons}
use unix_net.Raw.Frame.{ip_text}
use unix_net.Raw.Udp.{padded, saddr, daddr, ether_header, ip_header, udp_header, udp_frame}
use unix_net.Raw.Analyze.{udp, ip, analyze}

abbrev pub IsText : Bytes → Type 0
IsText text = All (λ c. (c == 0) ≡ false) text

-- A text is read back up to its end, with or without zeros behind it.
until_zero_text :
    (text zeros : Bytes) → IsText text → until_zero zeros ≡ [] → until_zero (text ++ zeros) ≡ text
unfolding until_zero
until_zero_text [] zeros h z = z
until_zero_text (c ∷ text) zeros h z = rw h.0 (ap (◌∷◌ c) (until_zero_text text zeros h.1 z))

until_zero-padded : (text : Bytes) → IsText text → until_zero (padded text) ≡ text
unfolding until_zero
until_zero-padded text h = elim (Bool-cases (length text % 2 == 1)) [
  | inl p ↦ rw p (until_zero_text text (0 ∷ []) h refl)
  | inr p ↦ rw p (rw append-nil at (until_zero_text text [] h refl))
]

-- The destination port that is reported for 8000.
abbrev pub misread : Host → ℕ
misread little = 8512
misread big = 8002

-- The report on the frame of udpMessage.c for a text with no zero: the data is the text, and the
-- addresses and the source port are those of the sender. The destination port is not read from its
-- field: the report gives 8512 for a datagram to port 8000 on a little host, and 8002 on a big one.
pub analyze-udp_frame :
    (host : Host) (text : Bytes)
    → IsText text
    → (analyze host (udp_frame host text)).payload
      ≡ ip (udp 8000 (misread host) text) (ip_text saddr 0) (ip_text daddr 0)
unfolding analyze udp_frame ether_header ip_header udp_header store16 load16 htons ip_text
analyze-udp_frame little text h =
    ap (λ t. ip (udp 8000 8512 t) (ip_text saddr 0) (ip_text daddr 0)) (until_zero-padded text h)
analyze-udp_frame big text h =
    ap (λ t. ip (udp 8000 8002 t) (ip_text saddr 0) (ip_text daddr 0)) (until_zero-padded text h)
