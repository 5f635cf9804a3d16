-- ===== src/Files.antt =====
-- What the web servers ask of the file system, which is not theirs: what `stat` says of a path and
-- what `scandir` lists. The contents of a file come as the answers to the calls that read it.
pub mod Array
use unix_net.Common.{ℕ, Bytes, List, [], ◌∷◌, ◌++◌, Option, ◌-◌, ◌^◌, take, drop, replicate}
use unix_net.Sys.{Answer, fail, value}

pub data Stat : Type 0 where
  missing directory special : Stat
  regular : ℕ → Stat

pub record Dirent : Type 0 where
  pub d_name : Bytes
  pub d_type : ℕ

pub record Files : Type 0 where
  pub stat : Bytes → Stat
  pub scandir : Bytes → Option (List Dirent)

abbrev pub dt_dir : ℕ
dt_dir = 4

abbrev pub dt_reg : ℕ
dt_reg = 8

-- The descriptor that `open` returned, with the bit pattern of -1 for a failure.
abbrev pub descriptor : Answer → ℕ
descriptor (fail e) = 2 ^ 32 - 1
descriptor a = value a

-- The first `n` bytes of a zeroed array into which `bs` was written.
abbrev pub window : ℕ → Bytes → Bytes
window n bs = take n (bs ++ replicate n 0)

-- The array after `bs` was written over its front.
abbrev pub overlay : Bytes → Bytes → Bytes
overlay [] cache = cache
overlay (b ∷ bs) cache = b ∷ overlay bs (drop 1 cache)
