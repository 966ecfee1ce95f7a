-- ===== src/Fusd/Bucket/Coupled.antt =====
-- `add_member` and `remove_member` of programs/fusd-core/src/bucket.rs: the bitmap and the counts.
use fusion_core.Prelude.{
  ℕ, ◌+◌, ◌≡◌, ◌≤◌, ◌<◌, refl, sym, ◌∙◌, ap, Bool, true, false, inl, inr, Bool-cases, Option, List,
  ok, ok_or, ◌==◌, if◌then◌else◌, arith, length, get_or, set, u64_max, checked_add, checked_sub,
  Returns, Returns-bind, Returns-ok, get_elem?-eq-get_or, length-set, get_or-set_self,
  get_or-set_ne, ok-injective,
}
use mathlib.Core.Path.{subst}
use fusion_core.RateBucket.{num_buckets}
use fusion_core.RateBucket
use fusion_core.RateBucket.SetClear.{Fits, holds, Updated, set-Updated, clear-Updated}
use fusion_core.Fusd.Error.{Abort, or_overflow}
use fusion_core.Fusd.Calls.{sum_of, difference_of}
use fusion_core.Fusd.State.{RedemptionBitmap}
use fusion_core.Fusd.Bucket.{
  index, add_member, remove_member, zombie_bucket, num_rate_buckets, u32_max,
}

-- The bit of a bucket is on exactly if the bucket has a member.
pub record IsCoupled (bm : RedemptionBitmap) : Type 0 where
  pub word_count : length bm.words ≡ 4
  pub count_count : length bm.counts ≡ num_rate_buckets
  pub fits : Fits bm.words
  pub bits :
      (c : ℕ)
      → c < num_rate_buckets
      → holds bm.words c ≡ (if get_or bm.counts c 0 == 0 then 0 else 1)

-- The members of a bucket, the zombie pen included.
abbrev pub member_count : RedemptionBitmap → ℕ → ℕ
member_count bm c = if c == zombie_bucket then bm.zombie_count else get_or bm.counts c 0

abbrev pub one_if : Bool → ℕ
one_if b = if b then 1 else 0

index_of : (xs : List ℕ) (i : ℕ) → i < length xs → Returns (λ x. x ≡ get_or xs i 0) (index xs i)
index_of xs i h = record {
  holds = λ a e. sym (
      ok-injective
        (ap (λ (o : Option ℕ). ok_or o Abort.panic) (sym (get_elem?-eq-get_or xs i 0 h)) ∙ e));
}

-- A word list whose bucket holds the value is its own update.
self-Updated : (words : List ℕ) (b v : ℕ) → Fits words → holds words b ≡ v → Updated words b v words
self-Updated words b v fits h = record {
  fits = fits;
  size = refl;
  bits = λ c. elim (Bool-cases (c == b)) [
    | inl same ↦ rw same (ap (holds words) {x = c} {y = b} (ground arith) ∙ h)
    | inr other ↦ rw other refl
  ];
}

set_step :
    (bm : RedemptionBitmap) (b count : ℕ)
    → IsCoupled bm
    → b < num_rate_buckets
    → count ≡ get_or bm.counts b 0
    → Returns
        (Updated bm.words b 1)
        (if count == 0 then ok_or (RateBucket.set bm.words b) Abort.panic else ok bm.words)
unfolding num_buckets
set_step bm b count h lt e = elim (Bool-cases (count == 0)) [
  | inl empty ↦ rw empty (
      let (words, eq, up) = set-Updated bm.words b h.fits (omega (arith, h.word_count)) in
      rw eq (Returns-ok words up))
  | inr full ↦
      rw full (
        Returns-ok bm.words
          (self-Updated bm.words b 1 h.fits (h.bits b lt ∙ rw (sym e, full) refl)))
]

-- The bit of a bucket with `n` members.
abbrev bit_for : ℕ → ℕ
bit_for n = if n == 0 then 0 else 1

member_bit : (k : ℕ) → 0 < k → bit_for k ≡ 1
member_bit k h = ground arith

clear_step :
    (bm : RedemptionBitmap) (b count n : ℕ)
    → IsCoupled bm
    → b < num_rate_buckets
    → count ≡ get_or bm.counts b 0
    → n + 1 ≡ count
    → Returns
        (Updated bm.words b (bit_for n))
        (if n == 0 then ok_or (RateBucket.clear bm.words b) Abort.panic else ok bm.words)
unfolding num_buckets
clear_step bm b count n h lt e e' = elim (Bool-cases (n == 0)) [
  | inl empty ↦ rw empty (
      let (words, eq, up) = clear-Updated bm.words b h.fits (omega (arith, h.word_count)) in
      rw eq (Returns-ok words up))
  | inr full ↦ rw full (
      Returns-ok bm.words (
        self-Updated bm.words b 1 h.fits
          (h.bits b lt ∙ member_bit (get_or bm.counts b 0) (omega arith))))
]

counts_at :
    (bm : RedemptionBitmap) (b n c : ℕ)
    → b < length bm.counts
    → get_or (set bm.counts b n) c 0 ≡ (if c == b then n else get_or bm.counts c 0)
counts_at bm b n c lt = elim (Bool-cases (c == b)) [
  | inl same ↦ rw same (
      ap (λ (k : ℕ). get_or (set bm.counts b n) k 0) {x = c} {y = b} (ground arith)
      ∙ get_or-set_self bm.counts b n 0 lt)
  | inr other ↦ rw other (get_or-set_ne bm.counts {i = b} {j = c} n 0 (ground arith))
]

-- A bucket that gets `n` members and their bit stays coupled, and no other bucket changes.
set-IsCoupled :
    (bm : RedemptionBitmap) (b n : ℕ) (words : List ℕ)
    → IsCoupled bm
    → b < num_rate_buckets
    → Updated bm.words b (bit_for n) words
    → IsCoupled (record bm { words = words; counts = set bm.counts b n })
set-IsCoupled bm b n words h lt up = record {
  word_count = up.size ∙ h.word_count;
  count_count = length-set bm.counts b n ∙ h.count_count;
  fits = up.fits;
  bits = λ c c_lt. elim (Bool-cases (c == b)) [
    | inl same ↦ up.bits c ∙ rw (at c, same) refl
    | inr other ↦ up.bits c ∙ rw (at c, other) (h.bits c c_lt)
  ];
}
  where
    at : (c : ℕ) → get_or (set bm.counts b n) c 0 ≡ (if c == b then n else get_or bm.counts c 0)
    at c = counts_at bm b n c (omega (arith, h.count_count))

member_count_normal :
    (bm : RedemptionBitmap) (b : ℕ)
    → b < num_rate_buckets
    → member_count bm b ≡ get_or bm.counts b 0
member_count_normal bm b lt = ground arith

member_count_at :
    (bm : RedemptionBitmap) (b n c : ℕ) (words : List ℕ)
    → IsCoupled bm
    → b < num_rate_buckets
    → member_count (record bm { words = words; counts = set bm.counts b n }) c
      ≡ (if c == b then n else member_count bm c)
member_count_at bm b n c words h lt = elim (Bool-cases (c == zombie_bucket)) [
  | inl zombie ↦ let other : (c == b) ≡ false = ground arith in rw (zombie, other) refl
  | inr normal ↦ rw normal (counts_at bm b n c (omega (arith, h.count_count)))
]

-- The counts when the members of `b` change from `k` to `n`.
counted :
    (bm : RedemptionBitmap) (b n k c : ℕ) (words : List ℕ)
    → IsCoupled bm
    → b < num_rate_buckets
    → k ≡ get_or bm.counts b 0
    → member_count (record bm { words = words; counts = set bm.counts b n }) c
        + (if c == b then k else 0)
      ≡ member_count bm c + (if c == b then n else 0)
counted bm b n k c words h lt e = elim (Bool-cases (c == b)) [
  | inl same ↦
      rw (member_count_at bm b n c words h lt, same)
        (omega (
          arith,
          e,
          member_count_normal bm b lt,
          ap (member_count bm) {x = c} {y = b} (ground arith),
        ))
  | inr other ↦ rw (member_count_at bm b n c words h lt, other) refl
]

-- An added member leaves the bits coupled to the counts, counts in its bucket, and in no other.
pub add_member-IsCoupled :
    (bm : RedemptionBitmap) (b : ℕ)
    → IsCoupled bm
    → b ≤ zombie_bucket
    → Returns
        (λ (bm' : RedemptionBitmap).
          IsCoupled bm' × ((c : ℕ) → member_count bm' c ≡ member_count bm c + one_if (c == b)))
        (add_member bm b)
unfolding add_member
add_member-IsCoupled bm b h le = elim (Bool-cases (b == zombie_bucket)) [
  | inl zombie ↦ rw zombie (
      Returns-bind (or_overflow (checked_add u64_max bm.zombie_count 1)) _ (sum_of _ _ _) (λ n e.
        Returns-ok (record bm { zombie_count = n })
          (
            record {
              word_count = h.word_count;
              count_count = h.count_count;
              fits = h.fits;
              bits = h.bits;
            },
            (λ c. ground arith),
          )))
  | inr normal ↦
      let lt : b < num_rate_buckets = ground arith in
      rw normal (
        Returns-bind (index bm.counts b) _ (index_of bm.counts b (omega (arith, h.count_count)))
          (λ count e1.
            Returns-bind
              (if count == 0 then ok_or (RateBucket.set bm.words b) Abort.panic else ok bm.words) _
              (set_step bm b count h lt e1)
              (λ words up.
                Returns-bind (or_overflow (checked_add u32_max count 1)) _ (sum_of u32_max count 1)
                  (λ n e2.
                    Returns-ok (record bm { words = words; counts = set bm.counts b n })
                      (
                        set-IsCoupled bm b n words h lt (
                            subst (λ v. Updated bm.words b v words)
                              (sym (member_bit n (omega arith))) up),
                        (λ c. added (c == b) n count _ _ (counted bm b n count c words h lt e1) e2),
                      )))))
]
  where
    added :
        (same : Bool) (n k x y : ℕ)
        → x + (if same then k else 0) ≡ y + (if same then n else 0)
        → n ≡ k + 1
        → x ≡ y + one_if same
    added true n k x y h e = omega arith
    added false n k x y h e = omega arith

-- A removed member leaves the bits coupled to the counts, and counted in its bucket, and in no other.
pub remove_member-IsCoupled :
    (bm : RedemptionBitmap) (b : ℕ)
    → IsCoupled bm
    → b ≤ zombie_bucket
    → Returns
        (λ (bm' : RedemptionBitmap).
          IsCoupled bm' × ((c : ℕ) → member_count bm' c + one_if (c == b) ≡ member_count bm c))
        (remove_member bm b)
unfolding remove_member
remove_member-IsCoupled bm b h le = elim (Bool-cases (b == zombie_bucket)) [
  | inl zombie ↦ rw zombie (
      Returns-bind (or_overflow (checked_sub bm.zombie_count 1)) _ (difference_of bm.zombie_count 1)
        (λ n e.
          Returns-ok (record bm { zombie_count = n })
            (
              record {
                word_count = h.word_count;
                count_count = h.count_count;
                fits = h.fits;
                bits = h.bits;
              },
              (λ c. ground arith),
            )))
  | inr normal ↦
      let lt : b < num_rate_buckets = ground arith in
      rw normal (
        Returns-bind (index bm.counts b) _ (index_of bm.counts b (omega (arith, h.count_count)))
          (λ count e1.
            Returns-bind (or_overflow (checked_sub count 1)) _ (difference_of count 1) (λ n e2.
              Returns-bind
                (if n == 0 then ok_or (RateBucket.clear bm.words b) Abort.panic else ok bm.words) _
                (clear_step bm b count n h lt e1 e2)
                (λ words up.
                  Returns-ok (record bm { words = words; counts = set bm.counts b n })
                    (
                      set-IsCoupled bm b n words h lt up,
                      (λ c. removed (c == b) n count _ _ (counted bm b n count c words h lt e1) e2),
                    )))))
]
  where
    removed :
        (same : Bool) (n k x y : ℕ)
        → x + (if same then k else 0) ≡ y + (if same then n else 0)
        → n + 1 ≡ k
        → x + one_if same ≡ y
    removed true n k x y h e = omega arith
    removed false n k x y h e = omega arith
