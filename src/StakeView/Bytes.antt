-- ===== src/StakeView/Bytes.antt =====
-- crates/fusion-stake-view/src/bytes.rs: little-endian readers. `usize` has 64 bits, as on chain.
pub mod Layout
pub mod Cursor
use fusion_core.Prelude.{
  ℕ, ◌+◌, ◌-◌, ◌*◌, ◌^◌, ◌&&◌, Option, none, some, List, [], ◌∷◌, ltb, leb, if◌then◌else◌, length,
  get_elem?, drop, take, checked_add, bind_some, map_some, u64_max,
}
use fusion_core.Prelude.Int.{ℤ, pos, negsuc}

abbrev pub usize_max : ℕ
usize_max = u64_max

-- `data.get(a..b)`
unfoldable pub slice : List ℕ → ℕ → ℕ → Option (List ℕ)
slice xs a b = if leb a b && leb b (length xs) then some (take (b - a) (drop a xs)) else none

-- The number of little-endian bytes.
abbrev pub from_le : List ℕ → ℕ
from_le [] = 0
from_le (b ∷ bs) = b + 256 * from_le bs

unfoldable pub u8_at : List ℕ → ℕ → Option ℕ
u8_at xs off = get_elem? xs off

-- `width` bytes from `off` on.
unfoldable pub read : List ℕ → ℕ → ℕ → Option (List ℕ)
read xs off width = bind_some (checked_add usize_max off width) (λ end. slice xs off end)

unfoldable pub u32_le : List ℕ → ℕ → Option ℕ
u32_le xs off = map_some from_le (read xs off 4)

unfoldable pub u64_le : List ℕ → ℕ → Option ℕ
u64_le xs off = map_some from_le (read xs off 8)

-- The two's complement of 64 bits.
abbrev pub signed : ℕ → ℤ
signed n = if ltb n (2 ^ 63) then pos n else negsuc (u64_max - n)

unfoldable pub i64_le : List ℕ → ℕ → Option ℤ
i64_le xs off = map_some signed (u64_le xs off)

unfoldable pub array32 : List ℕ → ℕ → Option (List ℕ)
array32 xs off = read xs off 32
