-- ===== src/Fusd/Bucket/Members.antt =====
-- `reconcile` of programs/fusd-core/src/bucket.rs: a position counts once, in the bucket where it
-- belongs.
use fusion_core.Prelude.{
  ℕ, ◌+◌, ◌≡◌, ◌≤◌, refl, ap, Bool, true, false, inl, inr, Bool-cases, ◌||◌, Option, none, some,
  ◌==◌, ltb, if◌then◌else◌, arith, Returns, Returns-bind, Returns-ok,
}
use fusion_core.RateBucket.{bucket_of}
use fusion_core.Fusd.State.{Market, Position, RedemptionBitmap}
use fusion_core.Fusd.Bucket.{
  add_member, remove_member, move_member, reconcile, target, bucket_for, zombie_bucket,
}
use fusion_core.Fusd.Bucket.Coupled.{
  IsCoupled, member_count, one_if, add_member-IsCoupled, remove_member-IsCoupled,
}

-- What a position in the bucket `o` adds to the count of `c`.
abbrev pub placed : Option ℕ → ℕ → ℕ
placed none c = 0
placed (some b) c = one_if (c == b)

abbrev IsBucket : Option ℕ → Type 0
IsBucket none = Unit
IsBucket (some b) = b ≤ zombie_bucket

-- Where a position is after a move to `o`.
abbrev pub IsAt : Option ℕ → Position → Type 0
IsAt none p = Unit
IsAt (some b) p = p.bucket ≡ b

pub record Moved (bm : RedemptionBitmap) (p : Position) (was : Bool) (to : Option ℕ)
    (r : RedemptionBitmap × Position) : Type 0 where
  pub coupled : IsCoupled r.0
  pub counts :
      (c : ℕ)
      → member_count r.0 c + (if was then one_if (c == p.bucket) else 0)
        ≡ member_count bm c + placed to c
  pub at : IsAt to r.1
  pub bucketed : r.1.bucket ≤ zombie_bucket
  pub same_ink : r.1.ink ≡ p.ink
  pub same_debt : r.1.recorded_debt ≡ p.recorded_debt

move_member-Moved :
    (bm : RedemptionBitmap) (p : Position) (was : Bool) (to : Option ℕ)
    → IsCoupled bm
    → p.bucket ≤ zombie_bucket
    → IsBucket to
    → Returns (Moved bm p was to) (move_member bm p was to)
unfolding move_member
move_member-Moved bm p false none h le lt =
    Returns-ok (bm, p)
      (record {
        coupled = h;
        counts = λ c. refl;
        at = tt;
        bucketed = le;
        same_ink = refl;
        same_debt = refl;
      })
move_member-Moved bm p false (some new) h le lt =
    Returns-bind (add_member bm new) _ (add_member-IsCoupled bm new h lt) (λ bm1 e.
      Returns-ok (bm1, record p { bucket = new })
        (record {
          coupled = e.0;
          counts = λ c. omega (arith, e.1 c);
          at = refl;
          bucketed = lt;
          same_ink = refl;
          same_debt = refl;
        }))
move_member-Moved bm p true none h le lt =
    Returns-bind (remove_member bm p.bucket) _ (remove_member-IsCoupled bm p.bucket h le) (λ bm1 e.
      Returns-ok (bm1, p)
        (record {
          coupled = e.0;
          counts = λ c. omega (arith, e.1 c);
          at = tt;
          bucketed = le;
          same_ink = refl;
          same_debt = refl;
        }))
move_member-Moved bm p true (some new) h le lt = elim (Bool-cases (p.bucket == new)) [
  | inl same ↦ rw same (
      Returns-ok (bm, p)
        (record {
          coupled = h;
          counts = λ c.
              ap (λ (b : ℕ). member_count bm c + one_if (c == b)) {x = p.bucket} {y = new}
                (ground arith);
          at = ground arith;
          bucketed = le;
          same_ink = refl;
          same_debt = refl;
        }))
  | inr other ↦ rw other (
      Returns-bind (remove_member bm p.bucket) _ (remove_member-IsCoupled bm p.bucket h le)
        (λ bm1 e1.
          Returns-bind (add_member bm1 new) _ (add_member-IsCoupled bm1 new e1.0 lt) (λ bm2 e2.
            Returns-ok (bm2, record p { bucket = new })
              (record {
                coupled = e2.0;
                counts = λ c. omega (arith, e1.1 c, e2.1 c);
                at = refl;
                bucketed = lt;
                same_ink = refl;
                same_debt = refl;
              }))))
]

target-IsBucket : (m : Market) (p : Position) → IsBucket (target m p)
unfolding target bucket_for bucket_of
target-IsBucket m p = elim (Bool-cases (p.recorded_debt == 0)) [
  | inl clear ↦ rw clear tt
  | inr owes ↦ rw owes (elim (Bool-cases ((p.ink == 0) || ltb p.recorded_debt m.min_debt)) [
    | inl zombie ↦ rw zombie (omega arith)
    | inr normal ↦ rw normal (omega arith)
  ])
]

-- If the bitmap is coupled to the counts and the position's bucket is a bucket or the zombie
-- pen, a reconciliation that returns takes the position out of the bucket it was counted in, if
-- it owed a debt before, and counts it where it belongs now, if it owes one; it leaves every
-- other count, the coupling of the bitmap, and the position's collateral and debt, and its bucket is
-- still a bucket or the zombie pen.
pub reconcile-Moved :
    (bm : RedemptionBitmap) (m : Market) (p : Position) (art_before : ℕ)
    → IsCoupled bm
    → p.bucket ≤ zombie_bucket
    → Returns (Moved bm p (ltb 0 art_before) (target m p)) (reconcile bm m p art_before)
unfolding reconcile
reconcile-Moved bm m p art_before h le =
    move_member-Moved bm p (ltb 0 art_before) (target m p) h le (target-IsBucket m p)
