-- ===== src/Raw/Udp/Verify.antt =====
-- A receiver's tests of the frame of udpMessage.c.
use unix_net.Common.{
  ℕ, ◌+◌, ◌*◌, ◌/◌, ◌%◌, ◌<◌, ◌≡◌, refl, sym, ap, ◌∙◌, [], ◌∷◌, ◌++◌, Bytes, arith, All, ◌==◌,
  Bool-cases, inl, inr, length,
}
use unix_net.ByteOrder.{Host, little, big, store16, load16, htons}
use unix_net.ByteOrder.Laws.{store16-htons, htons-load16}
use unix_net.Raw.Checksum.{checksum, checksum_verifies, Words, flat, AreBytes, word}
use unix_net.Raw.Frame.{be16, field16}
use unix_net.Raw.Udp.{
  data_len, padded, ip_header, udp_header, pseudo_header, ip_check, udp_check, udp_frame,
  ether_header,
}

-- The data in words.
pairs : Bytes → Words
pairs [] = []
pairs (a ∷ []) = (a, 0) ∷ []
pairs (a ∷ b ∷ s) = (a, b) ∷ pairs s

padded-flat : (s : Bytes) → padded s ≡ flat (pairs s)
unfolding pairs
padded-flat [] = refl
padded-flat (a ∷ []) = refl
padded-flat (a ∷ b ∷ s) =
    let parity : (length (a ∷ b ∷ s) % 2 == 1) ≡ (length s % 2 == 1) = ground arith in
    rw parity (elim (Bool-cases (length s % 2 == 1)) [
      | inl p ↦ rw p (ap (λ t. a ∷ b ∷ t) (rw p at (padded-flat s)))
      | inr p ↦ rw p (ap (λ t. a ∷ b ∷ t) (rw p at (padded-flat s)))
    ])

length-pairs : (s : Bytes) → 2 * length (pairs s) ≡ data_len s
unfolding pairs
length-pairs [] = refl
length-pairs (a ∷ []) = refl
length-pairs (a ∷ b ∷ s) = omega (arith, length-pairs s)

pairs-AreBytes : (s : Bytes) → All (λ c. c < 256) s → AreBytes (pairs s)
unfolding pairs
pairs-AreBytes [] h = tt
pairs-AreBytes (a ∷ []) h = omega (arith, h.0)
pairs-AreBytes (a ∷ b ∷ s) h = ((h.0, h.1.0), pairs-AreBytes s h.1.1)

abbrev pair16 : ℕ → ℕ × ℕ
pair16 n = (n / 256 % 256, n % 256)

-- The words of the IP header before and behind the check field.
abbrev ip_front : ℕ → Words
ip_front len = (0x45, 0) ∷ pair16 (20 + 8 + len) ∷ (0, 0) ∷ (0, 0) ∷ (128, 17) ∷ []

abbrev ip_back : Words
ip_back = (192, 168) ∷ (141, 128) ∷ (192, 168) ∷ (141, 1) ∷ []

be16_lem : (host : Host) (n : ℕ) → be16 host n ≡ n / 256 % 256 ∷ n % 256 ∷ []
be16_lem host n = store16-htons host n

ip_header-flat :
    (host : Host) (len a b : ℕ)
    → ip_header host len (a ∷ b ∷ []) ≡ flat (ip_front len ++ ((a, b) ∷ ip_back))
unfolding ip_header
ip_header-flat host len a b = simp be16_lem

store_word : (host : Host) (c : ℕ) → store16 host c ≡ (word host c).0 ∷ (word host c).1 ∷ []
unfolding store16
store_word little c = refl
store_word big c = refl

ip_stored :
    (host : Host) (len c : ℕ)
    → ip_header host len (store16 host c) ≡ flat (ip_front len ++ (word host c ∷ ip_back))
ip_stored host len c = ap (ip_header host len) (store_word host c) ∙ ip_header-flat host len _ _

ip_check_lem :
    (host : Host) (len : ℕ)
    → ip_check host len ≡ checksum host (flat (ip_front len ++ ((0, 0) ∷ ip_back))) 20
unfolding ip_check
ip_check_lem host len =
    ap (λ b. checksum host b 20)
      (ap (ip_header host len) (be16_lem host 0) ∙ ip_header-flat host len 0 0)

-- The IP header of the frame passes the receiver's test.
ip_verifies :
    (host : Host) (len : ℕ)
    → checksum host (ip_header host len (store16 host (ip_check host len))) 20 ≡ 0
ip_verifies host len =
    ap (λ b. checksum host b 20) (ip_stored host len (ip_check host len))
    ∙ rw (ip_check_lem host len)
        (checksum_verifies host (ip_front len) ip_back (omega arith) (omega arith))

-- The words that the UDP sum runs over, before and behind the check field.
abbrev udp_front : ℕ → Words
udp_front len =
    (192, 168)
    ∷ (141, 128)
    ∷ (192, 168)
    ∷ (141, 1)
    ∷ (0, 17)
    ∷ pair16 (8 + len)
    ∷ pair16 8000
    ∷ pair16 8000
    ∷ pair16 (8 + len)
    ∷ []

udp_flat :
    (host : Host) (len a b : ℕ) (text : Bytes)
    → pseudo_header host len ++ (udp_header host len (a ∷ b ∷ []) ++ padded text)
      ≡ flat (udp_front len ++ ((a, b) ∷ pairs text))
unfolding pseudo_header udp_header
udp_flat host len a b text = rw (padded-flat text) (simp be16_lem)

udp_words :
    (text : Bytes) (a b : ℕ)
    → 2 * length (udp_front (data_len text) ++ ((a, b) ∷ pairs text)) ≡ 8 + 12 + data_len text
udp_words text a b = omega (arith, length-pairs text)

udp_check_lem :
    (host : Host) (text : Bytes)
    → udp_check host text
      ≡ checksum host
          (flat (udp_front (data_len text) ++ ((0, 0) ∷ pairs text)))
          (8 + 12 + data_len text)
unfolding udp_check
udp_check_lem host text =
    let len = data_len text in
    ap (λ b. checksum host b (8 + 12 + len))
      (ap (λ z. pseudo_header host len ++ (udp_header host len z ++ padded text)) (be16_lem host 0)
        ∙ udp_flat host len 0 0 text)

-- The datagram of the frame passes the receiver's test.
udp_verifies :
    (host : Host) (text : Bytes)
    → All (λ c. c < 256) text
    → length text < 128
    → checksum host
        (pseudo_header host (data_len text)
          ++ (udp_header host (data_len text) (store16 host (udp_check host text)) ++ padded text))
        (8 + 12 + data_len text)
      ≡ 0
udp_verifies host text h short =
    let len = data_len text in
    let c = udp_check host text in
    ap (λ b. checksum host b (8 + 12 + len))
      (ap (λ z. pseudo_header host len ++ (udp_header host len z ++ padded text))
          (store_word host c)
        ∙ udp_flat host len _ _ text)
    ∙ rw (udp_check_lem host text, ← udp_words text 0 0)
        (checksum_verifies host (udp_front len) (pairs text) (tt_bytes (pairs-AreBytes text h))
          (omega (arith, length-pairs text)))
  where
    tt_bytes : AreBytes (pairs text) → AreBytes (udp_front (data_len text) ++ ((0, 0) ∷ pairs text))
    tt_bytes b = (
      omega arith,
      (
        omega arith,
        (
          omega arith,
          (
            omega arith,
            (
              omega arith,
              (omega arith, (omega arith, (omega arith, (omega arith, (omega arith, b))))),
            ),
          ),
        ),
      ),
    )

length-flat : (ws : Words) → length (flat ws) ≡ 2 * length ws
length-flat [] = refl
length-flat (w ∷ ws) = omega (arith, length-flat ws)

datagram_flat :
    (host : Host) (text : Bytes)
    → udp_header host (data_len text) (store16 host (udp_check host text)) ++ padded text
      ≡ flat (
          pair16 8000
          ∷ pair16 8000
          ∷ pair16 (8 + data_len text)
          ∷ word host (udp_check host text)
          ∷ pairs text)
unfolding udp_header
datagram_flat host text =
    rw (padded-flat text, store_word host (udp_check host text)) (simp be16_lem)

-- A length field, read back.
field_pair16 :
    (host : Host) (n : ℕ) → n < 65536 → htons host (load16 host (n / 256 % 256) (n % 256)) ≡ n
field_pair16 host n h = htons-load16 host _ _ (omega arith) (omega arith) ∙ omega arith

-- The frame of udpMessage.c for a text of less than 128 bytes is its Ethernet header, 20 bytes of
-- IP header, and a datagram as long as both length fields say, and a receiver's tests of the
-- header and of the datagram behind its pseudo header both give 0.
pub udp_frame_verifies :
    (host : Host) (text : Bytes)
    → All (λ c. c < 256) text
    → length text < 128
    → (ip datagram : Bytes) × (udp_frame host text ≡ ether_header host ++ (ip ++ datagram))
      × (length ip ≡ 20)
      × (field16 host ip 2 ≡ length ip + length datagram)
      × (field16 host datagram 4 ≡ length datagram)
      × (checksum host ip (length ip) ≡ 0)
      × (checksum host (pseudo_header host (data_len text) ++ datagram) (12 + length datagram) ≡ 0)
unfolding udp_frame
udp_frame_verifies host text h short =
    let len = data_len text in
    let ip = ip_header host len (store16 host (ip_check host len)) in
    let datagram = udp_header host len (store16 host (udp_check host text)) ++ padded text in
    let ip_len : length ip ≡ 20 = ap length (ip_stored host len (ip_check host len)) in
    let udp_len : length datagram ≡ 8 + len =
      ap length (datagram_flat host text)
      ∙ omega (arith, length-flat (pairs text), length-pairs text) in
    (
      ip,
      datagram,
      refl,
      ip_len,
      ap (λ b. field16 host b 2) (ip_stored host len (ip_check host len))
          ∙ field_pair16 host (20 + 8 + len) (omega arith)
          ∙ omega arith,
      ap (λ b. field16 host b 4) (datagram_flat host text)
          ∙ field_pair16 host (8 + len) (omega arith)
          ∙ sym udp_len,
      ap (checksum host ip) ip_len ∙ ip_verifies host len,
      ap (checksum host (pseudo_header host len ++ datagram)) (omega arith)
          ∙ udp_verifies host text h short,
    )
