-- ===== src/RateBucket/Tests.antt =====
-- Inputs at which the theorems on crates/fusd-math/src/rate_bucket.rs apply.
use fusion_core.Prelude.{ℕ, ◌≡◌, refl, some, List, [], ◌∷◌, arith}
use fusion_core.RateBucket.{
  first_set, first_set_from, first_nonzero, trailing_zeros_from, num_buckets,
}
use fusion_core.RateBucket.SetClear.{Fits}
use fusion_core.RateBucket.Lowest.{Finds, first_set_from-Finds}

-- buckets 3 and 70
abbrev two_buckets : List ℕ
two_buckets = 8 ∷ 64 ∷ 0 ∷ 0 ∷ []

two_buckets-Fits : Fits two_buckets
two_buckets-Fits = (omega arith, (omega arith, (omega arith, (omega arith, tt))))

lowest : first_set two_buckets ≡ some 3
unfolding first_set first_nonzero trailing_zeros_from
lowest = refl

lowest_from_4 : first_set_from two_buckets 4 ≡ some 70
unfolding first_set_from first_nonzero trailing_zeros_from num_buckets
lowest_from_4 = refl

first_set_from-Finds_example : Finds two_buckets 4 (first_set_from two_buckets 4)
first_set_from-Finds_example = first_set_from-Finds two_buckets 4 two_buckets-Fits
