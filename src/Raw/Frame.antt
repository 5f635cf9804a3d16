-- ===== src/Raw/Frame.antt =====
-- What the raw socket programs share: fields of a frame in memory, and how they print addresses.
use unix_net.Common.{ℕ, suc, ◌+◌, Bytes, ◌∷◌, ◌++◌, get_or}
use unix_net.ByteOrder.{Host, load16, store16, htons}
use unix_net.CString.Decimal.{decimal, hex2}

-- The byte at an index of the receiving buffer, whose unused end holds zeros.
abbrev pub byte : Bytes → ℕ → ℕ
byte buf i = get_or buf i 0

-- `ntohs(*(unsigned short *) (buf + i))`
abbrev pub field16 : Host → Bytes → ℕ → ℕ
field16 host buf i = htons host (load16 host (byte buf i) (byte buf (suc i)))

-- A 16-bit field that is stored as `htons(n)`.
abbrev pub be16 : Host → ℕ → Bytes
be16 host n = store16 host (htons host n)

-- `sprintf(mac, "%02x:%02x:%02x:%02x:%02x:%02x", …)` from the byte `i` on.
unfoldable pub mac_text : Bytes → ℕ → Bytes
mac_text buf i =
    hex2 (byte buf i)
    ++ (b':' ∷ hex2 (byte buf (i + 1)))
    ++ (b':' ∷ hex2 (byte buf (i + 2)))
    ++ (b':' ∷ hex2 (byte buf (i + 3)))
    ++ (b':' ∷ hex2 (byte buf (i + 4)))
    ++ (b':' ∷ hex2 (byte buf (i + 5)))

-- `inet_ntop(AF_INET, buf + i, …)`
unfoldable pub ip_text : Bytes → ℕ → Bytes
ip_text buf i =
    decimal (byte buf i)
    ++ (b'.' ∷ decimal (byte buf (i + 1)))
    ++ (b'.' ∷ decimal (byte buf (i + 2)))
    ++ (b'.' ∷ decimal (byte buf (i + 3)))
