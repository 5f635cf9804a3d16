-- ===== src/ByteOrder.antt =====
-- The order of bytes in memory, on a host of either kind: BigOrLittle-Endian大端小端判断 and
-- 字节序转换, and the 16-bit words that the raw socket programs store and load.
pub mod Laws
use unix_net.Common.{
  ℕ, ◌+◌, ◌*◌, ◌/◌, ◌%◌, ◌^◌, Bytes, [], ◌∷◌, Option, none, some, ◌==◌, if◌then◌else◌, get_or,
}

pub data Host : Type 0 where
  little big : Host

-- An `unsigned short` in memory, and read back from two bytes.
unfoldable pub store16 : Host → ℕ → Bytes
store16 little n = n % 256 ∷ n / 256 % 256 ∷ []
store16 big n = n / 256 % 256 ∷ n % 256 ∷ []

unfoldable pub load16 : Host → ℕ → ℕ → ℕ
load16 little a b = a + 256 * b
load16 big a b = 256 * a + b

-- `htons` and `ntohs`: on a little host the two bytes change places.
unfoldable pub htons : Host → ℕ → ℕ
htons little n = n % 256 * 256 + n / 256 % 256
htons big n = n % 65536

-- An `int` in memory.
unfoldable pub store32 : Host → ℕ → Bytes
store32 little n = n % 256 ∷ n / 256 % 256 ∷ n / 65536 % 256 ∷ n / 2 ^ 24 % 256 ∷ []
store32 big n = n / 2 ^ 24 % 256 ∷ n / 65536 % 256 ∷ n / 256 % 256 ∷ n % 256 ∷ []

unfoldable pub load32 : Host → (a b c d : ℕ) → ℕ
load32 little a b c d = a + 256 * b + 65536 * c + 2 ^ 24 * d
load32 big a b c d = d + 256 * c + 65536 * b + 2 ^ 24 * a

-- `htonl` and `ntohl`.
unfoldable pub htonl : Host → ℕ → ℕ
htonl little n =
    n / 2 ^ 24 % 256 + 256 * (n / 65536 % 256) + 65536 * (n / 256 % 256) + 2 ^ 24 * (n % 256)
htonl big n = n % 2 ^ 32

-- Big-EndianAndLittle-Endian.c: the byte at the low address of 0x0102 tells the host; it prints
-- nothing for any other byte.
unfoldable pub detect : Host → Option Host
unfolding store16
detect host =
    let p = get_or (store16 host 0x0102) 0 0 in
    if p == 0x01 then some big else if p == 0x02 then some little else none

-- The bytes that htonl.c prints for the four bytes of its array.
unfoldable pub htonl_demo : Host → (a b c d : ℕ) → Bytes
unfolding htonl load32 store32
htonl_demo host a b c d = store32 host (htonl host (load32 host a b c d))

-- The same of ntohl.c, whose conversion is the same function.
unfoldable pub ntohl_demo : Host → (a b c d : ℕ) → Bytes
unfolding htonl load32 store32
ntohl_demo host a b c d = store32 host (htonl host (load32 host a b c d))
