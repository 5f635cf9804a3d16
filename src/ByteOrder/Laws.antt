-- ===== src/ByteOrder/Laws.antt =====
-- What the conversions do to the bytes in memory.
use unix_net.Common.{ℕ, ◌+◌, ◌*◌, ◌/◌, ◌%◌, ◌<◌, ◌≡◌, refl, Bytes, [], ◌∷◌, some, arith}
use unix_net.ByteOrder.{Host, little, big, store16, load16, htons, detect, htonl_demo, ntohl_demo}

-- The test tells the host that it runs on.
detect_lem : (host : Host) → detect host ≡ some host
unfolding detect
detect_lem little = refl
detect_lem big = refl

-- A converted port lies in memory high byte first, on either host.
pub store16-htons :
    (host : Host) (n : ℕ) → store16 host (htons host n) ≡ n / 256 % 256 ∷ n % 256 ∷ []
unfolding store16 htons
store16-htons little n = ground arith
store16-htons big n = ground arith

pub store16-load16 :
    (host : Host) (a b : ℕ) → a < 256 → b < 256 → store16 host (load16 host a b) ≡ a ∷ b ∷ []
unfolding store16 load16
store16-load16 little a b ha hb = ground arith
store16-load16 big a b ha hb = ground arith

-- `ntohs` reads the bytes of a packet high byte first, on either host.
pub htons-load16 :
    (host : Host) (a b : ℕ) → a < 256 → b < 256 → htons host (load16 host a b) ≡ 256 * a + b
unfolding htons load16
htons-load16 little a b ha hb = omega arith
htons-load16 big a b ha hb = omega arith

abbrev pub reordered : Host → (a b c d : ℕ) → Bytes
reordered little a b c d = d ∷ c ∷ b ∷ a ∷ []
reordered big a b c d = a ∷ b ∷ c ∷ d ∷ []

-- The two conversions print the bytes of the array in the reverse order on a little host and
-- unchanged on a big one.
pub demo_order :
    (host : Host) (a b c d : ℕ)
    → a < 256
    → b < 256
    → c < 256
    → d < 256
    → (htonl_demo host a b c d ≡ reordered host a b c d)
      × (ntohl_demo host a b c d ≡ reordered host a b c d)
unfolding htonl_demo ntohl_demo
demo_order little a b c d ha hb hc hd = (ground arith, ground arith)
demo_order big a b c d ha hb hc hd = (ground arith, ground arith)
