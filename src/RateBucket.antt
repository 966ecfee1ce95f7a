-- ===== src/RateBucket.antt =====
-- crates/fusd-math/src/rate_bucket.rs: the bitmap of the redemption buckets, over 64-bit words.
-- `none` is the panic of an index out of range. A shift by `b & 63` is a product by `2 ^ (b % 64)`
-- kept to 64 bits.
pub mod Words
pub mod SetClear
pub mod Lowest
mod Tests
use Prim.Native.Nat.{bit_and, bit_or, compare, Ordering}
use fusion_core.Prelude.{
  ℕ, zero, suc, ◌+◌, ◌-◌, ◌*◌, ◌/◌, ◌%◌, ◌^◌, min, max, Bool, Option, none, some, List, [], ◌∷◌,
  not, ◌==◌, leb, if◌then◌else◌, length, get_elem?, get_or, u64_max, bind_some, map_some, drop,
}
use fusion_core.Prelude
use fusion_core.Wide.{Wide}

-- `num_buckets` is not zero where it is called.
unfoldable pub bucket_of : ℕ → ℕ → ℕ → ℕ
bucket_of rate_bps width_bps num_buckets = min (rate_bps / max width_bps 1) (num_buckets - 1)

unfoldable pub num_buckets : List ℕ → ℕ
num_buckets words = length words * 64

-- `1u64 << (b & 63)`
abbrev pub mask : ℕ → ℕ
mask b = 2 ^ (b % 64)

unfoldable pub set : List ℕ → ℕ → Option (List ℕ)
set words b =
    map_some (λ w. Prelude.set words (b / 64) (bit_or w (mask b))) (get_elem? words (b / 64))

unfoldable pub clear : List ℕ → ℕ → Option (List ℕ)
clear words b =
    map_some (λ w. Prelude.set words (b / 64) (bit_and w (u64_max - mask b)))
      (get_elem? words (b / 64))

unfoldable pub is_set : List ℕ → ℕ → Option Bool
is_set words b = map_some (λ w. not (bit_and w (mask b) == 0)) (get_elem? words (b / 64))

-- `u64::trailing_zeros` of the standard library; the first argument counts the digits left.
unfoldable pub trailing_zeros_from : ℕ → ℕ → ℕ
trailing_zeros_from zero w = 0
trailing_zeros_from (suc n) w = if w % 2 == 1 then 0 else suc (trailing_zeros_from n (w / 2))

abbrev pub trailing_zeros : ℕ → ℕ
trailing_zeros w = trailing_zeros_from 64 w

-- The loop of `first_set` from the word of index `i` on.
unfoldable pub first_nonzero : ℕ → List ℕ → Option ℕ
first_nonzero i [] = none
first_nonzero i (w ∷ words) =
    if not (w == 0) then some (i * 64 + trailing_zeros w) else first_nonzero (i + 1) words

unfoldable pub first_set : List ℕ → Option ℕ
first_set words = first_nonzero 0 words

-- The word that holds `from` exists, since `from` is less than the number of buckets.
unfoldable pub first_set_from : List ℕ → ℕ → Option ℕ
unfolding num_buckets
first_set_from words from =
    if leb (num_buckets words) from
    then none
    else let start_word = from / 64 in
      let first_word = bit_and (get_or words start_word 0) (u64_max * 2 ^ (from % 64) % 2 ^ 64) in
      if not (first_word == 0)
      then some (start_word * 64 + trailing_zeros first_word)
      else first_nonzero (start_word + 1) (drop (start_word + 1) words)

-- `u64::count_ones` of the standard library.
unfoldable pub count_ones_from : ℕ → ℕ → ℕ
count_ones_from zero w = 0
count_ones_from (suc n) w = w % 2 + count_ones_from n (w / 2)

unfoldable pub count_set : List ℕ → ℕ
unfolding count_ones_from
count_set [] = 0
count_set (w ∷ words) = count_ones_from 64 w + count_set words

module _ ⦃w : Wide⦄ where
  open w use {U256, from, mul, cmp}

  unfoldable pub cmp_collateral_ratio : ℕ → ℕ → ℕ → ℕ → Ordering
  cmp_collateral_ratio ink_a art_a ink_b art_b =
      let lhs = mul (from ink_a) (from art_b) in
      let rhs = mul (from ink_b) (from art_a) in cmp lhs rhs
