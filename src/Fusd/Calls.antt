-- ===== src/Fusd/Calls.antt =====
-- The steps that the handlers of programs/fusd-core/src/instructions share: checked arithmetic with
-- `ok_or(FusdError::MathOverflow)?`, and the transfers and burns of the token program.
use fusion_core.Prelude.{
  ℕ, ◌+◌, ◌≡◌, ok_or, arith, Returns, u64_max, narrow, checked_add, checked_sub, ok_or-eq-ok,
}
use fusion_core.Fusd.Error.{Abort, or_overflow}
use fusion_core.Fusd.Programs.{Programs, call}

pub sum_of : (top a b : ℕ) → Returns (λ c. c ≡ a + b) (or_overflow (checked_add top a b))
sum_of top a b = record { holds = λ c e. ground arith }

pub difference_of : (a b : ℕ) → Returns (λ c. c + b ≡ a) (or_overflow (checked_sub a b))
difference_of a b = record { holds = λ c e. ground arith }

pub left_over : (a b : ℕ) (e : Abort) → Returns (λ c. c + b ≡ a) (ok_or (checked_sub a b) e)
left_over a b e = record { holds = λ c h. ground arith }

pub narrowed : (n : ℕ) → Returns (λ k. k ≡ n) (or_overflow (narrow u64_max n))
narrowed n = record { holds = λ k e. ground arith }

module _ ⦃programs : Programs⦄ where
  open programs use {move, move_moves, issue, issue_adds, destroy, destroy_removes}

  pub moves :
      (n source target : ℕ)
      → Returns
          (λ (r : ℕ × ℕ). (r.0 + n ≡ source) × (r.1 ≡ target + n))
          (call (move n source target))
  moves n source target = record { holds = λ r e. move_moves n source target r (ok_or-eq-ok _ _ e) }

  pub issues :
      (n supply target : ℕ)
      → Returns
          (λ (r : ℕ × ℕ). (r.0 ≡ supply + n) × (r.1 ≡ target + n))
          (call (issue n supply target))
  issues n supply target = record {
    holds = λ r e. issue_adds n supply target r (ok_or-eq-ok _ _ e);
  }

  pub destroys :
      (n supply source : ℕ)
      → Returns
          (λ (r : ℕ × ℕ). (r.0 + n ≡ supply) × (r.1 + n ≡ source))
          (call (destroy n supply source))
  destroys n supply source = record {
    holds = λ r e. destroy_removes n supply source r (ok_or-eq-ok _ _ e);
  }
