-- ===== src/Server/Sizes.antt =====
-- The short texts for sizes: the unit exists and the number in front of it is below 1024.
use crate_html.Prelude.{ℕ, ◌+◌, ◌*◌, ◌^◌, ◌≤◌, ◌<◌, ◌≡◌, arith}
use crate_html.Server.Index.{HumanSize, bytes, scaled, scale_size, human_size}

-- A size in bytes below 1024, or scaled by the power of 1024 of one of the six units KMGTPE, with at
-- least one and less than 1024 of that unit.
abbrev pub IsReadable : ℕ → HumanSize → Type 0
IsReadable n (bytes m) = (m ≡ n) × (n < 1024)
IsReadable n (scaled m div exp) =
    (m ≡ n) × (exp < 6) × (div ≡ 1024 ^ (exp + 1)) × (div ≤ n) × (n < 1024 * div)

-- Every size of 63 bits, as an int64 that is not negative has, is shown readably: the index of the
-- unit is within "KMGTPE".
pub human_size-IsReadable : (n : ℕ) → n < 2 ^ 63 → IsReadable n (human_size n)
unfolding human_size scale_size
human_size-IsReadable n h = ground arith
