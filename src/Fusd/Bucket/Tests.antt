-- ===== src/Fusd/Bucket/Tests.antt =====
-- An input at which the theorem on programs/fusd-core/src/bucket.rs applies: a bitmap whose buckets
-- are all empty, and a position that takes on its first debt.
use fusion_core.Prelude.{arith, ltb, Returns}
use fusion_core.Fusd.State.{Position}
use fusion_core.Fusd.Sample.{empty_bitmap, empty_bitmap-IsCoupled, market, position}
use fusion_core.Fusd.Bucket.{target, reconcile}
use fusion_core.Fusd.Bucket.Members.{Moved, reconcile-Moved}

abbrev indebted : Position
indebted = record position { recorded_debt = 150_000_000 }

reconcile-Moved_example :
    Returns
      (Moved empty_bitmap indebted (ltb 0 0) (target market indebted))
      (reconcile empty_bitmap market indebted 0)
reconcile-Moved_example =
    reconcile-Moved empty_bitmap market indebted 0 empty_bitmap-IsCoupled (omega arith)
