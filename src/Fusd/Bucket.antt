-- ===== src/Fusd/Bucket.antt =====
-- programs/fusd-core/src/bucket.rs: membership of positions in the redemption buckets, kept in the
-- bitmap, the member counts and the count of the zombie pen. A count is a `u32`, the pen's a `u64`.
pub mod Coupled
pub mod Members
mod Tests
use fusion_core.Prelude.{
  ℕ, ◌-◌, ◌+◌, ◌^◌, Bool, true, false, ◌||◌, Option, none, some, List, Result, ok, err, ok_or,
  ◌>>=◌, ◌==◌, ltb, if◌then◌else◌, length, get_elem?, set, u64_max, checked_add, checked_sub,
}
use fusion_core.RateBucket.{bucket_of}
use fusion_core.RateBucket
use fusion_core.Fusd.Error.{Abort, or_overflow}
use fusion_core.Fusd.State.{Market, Position, RedemptionBitmap}

abbrev pub num_rate_buckets : ℕ
num_rate_buckets = 256

abbrev pub zombie_bucket : ℕ
zombie_bucket = num_rate_buckets

abbrev pub u32_max : ℕ
u32_max = 2 ^ 32 - 1

unfoldable pub bucket_for : Market → Position → ℕ
bucket_for m p = bucket_of p.user_rate_bps m.bucket_width_bps num_rate_buckets

unfoldable pub target : Market → Position → Option ℕ
target m p =
    if p.recorded_debt == 0
    then none
    else if (p.ink == 0) || ltb p.recorded_debt m.min_debt
    then some zombie_bucket
    else some (bucket_for m p)

-- `v[i]`
abbrev pub index {ℓ} : {A : Type ℓ} → List A → ℕ → Result Abort A
index xs i = ok_or (get_elem? xs i) Abort.panic

unfoldable pub add_member : RedemptionBitmap → ℕ → Result Abort RedemptionBitmap
add_member bm bucket =
    if bucket == zombie_bucket
    then (or_overflow (checked_add u64_max bm.zombie_count 1) >>= λ n.
        ok (record bm { zombie_count = n }))
    else index bm.counts bucket >>= λ count.
        (if count == 0 then ok_or (RateBucket.set bm.words bucket) Abort.panic else ok bm.words)
        >>= λ words. or_overflow (checked_add u32_max count 1) >>= λ n.
            ok (record bm { words = words; counts = set bm.counts bucket n })

unfoldable pub remove_member : RedemptionBitmap → ℕ → Result Abort RedemptionBitmap
remove_member bm bucket =
    if bucket == zombie_bucket
    then (or_overflow (checked_sub bm.zombie_count 1) >>= λ n. ok (record bm { zombie_count = n }))
    else index bm.counts bucket >>= λ count. or_overflow (checked_sub count 1) >>= λ n.
        (if n == 0 then ok_or (RateBucket.clear bm.words bucket) Abort.panic else ok bm.words)
        >>= λ words. ok (record bm { words = words; counts = set bm.counts bucket n })

-- The cases of `reconcile`: was the position a member, and where does it belong.
unfoldable pub move_member :
    RedemptionBitmap → Position → Bool → Option ℕ → Result Abort (RedemptionBitmap × Position)
move_member bm p false none = ok (bm, p)
move_member bm p false (some new) = add_member bm new >>= λ bm'. ok (bm', record p { bucket = new })
move_member bm p true none = remove_member bm p.bucket >>= λ bm'. ok (bm', p)
move_member bm p true (some new) =
    if p.bucket == new
    then ok (bm, p)
    else remove_member bm p.bucket >>= λ bm1.
        add_member bm1 new >>= λ bm2. ok (bm2, record p { bucket = new })

unfoldable pub reconcile :
    RedemptionBitmap → Market → Position → ℕ → Result Abort (RedemptionBitmap × Position)
reconcile bm m p art_before = move_member bm p (ltb 0 art_before) (target m p)
