-- ===== src/Fusd/Programs.antt =====
-- The other programs that programs/fusd-core calls: the SPL token program and the system program,
-- known by what they document of a call that succeeds. A pair is the accounts after the call.
use fusion_core.Prelude.{
  ℕ, ◌+◌, ◌-◌, ◌≡◌, Option, none, some, Result, ok_or, arith, leb, if◌then◌else◌, u64_max, narrow,
  bind_some,
}
use fusion_core.Fusd.Error.{Abort}

pub record Programs : Type 0 where
  -- amount, the balance moved from, the balance moved to
  pub move : ℕ → ℕ → ℕ → Option (ℕ × ℕ)
  -- amount, the supply of the mint, the balance minted to
  pub issue : ℕ → ℕ → ℕ → Option (ℕ × ℕ)
  -- amount, the supply of the mint, the balance burned from
  pub destroy : ℕ → ℕ → ℕ → Option (ℕ × ℕ)
  pub move_moves :
      (n source target : ℕ) (r : ℕ × ℕ)
      → move n source target ≡ some r
      → (r.0 + n ≡ source) × (r.1 ≡ target + n)
  pub issue_adds :
      (n supply target : ℕ) (r : ℕ × ℕ)
      → issue n supply target ≡ some r
      → (r.0 ≡ supply + n) × (r.1 ≡ target + n)
  pub destroy_removes :
      (n supply source : ℕ) (r : ℕ × ℕ)
      → destroy n supply source ≡ some r
      → (r.0 + n ≡ supply) × (r.1 + n ≡ source)

-- A failed call aborts the instruction.
abbrev pub call {ℓ} : {A : Type ℓ} → Option A → Result Abort A
call o = ok_or o Abort.program_error

-- Calls that succeed whenever the balances allow it.
abbrev pub move_all : ℕ → ℕ → ℕ → Option (ℕ × ℕ)
move_all n source target =
    if leb n source
    then bind_some (narrow u64_max (target + n)) (λ t. some (source - n, t))
    else none

abbrev pub issue_all : ℕ → ℕ → ℕ → Option (ℕ × ℕ)
issue_all n supply target =
    bind_some (narrow u64_max (supply + n))
      (λ s. bind_some (narrow u64_max (target + n)) (λ t. some (s, t)))

abbrev pub destroy_all : ℕ → ℕ → ℕ → Option (ℕ × ℕ)
destroy_all n supply source =
    if leb n supply then if leb n source then some (supply - n, source - n) else none else none

pub move_all_moves :
    (n source target : ℕ) (r : ℕ × ℕ)
    → move_all n source target ≡ some r
    → (r.0 + n ≡ source) × (r.1 ≡ target + n)
move_all_moves n source target r h = ground arith

pub issue_all_adds :
    (n supply target : ℕ) (r : ℕ × ℕ)
    → issue_all n supply target ≡ some r
    → (r.0 ≡ supply + n) × (r.1 ≡ target + n)
issue_all_adds n supply target r h = ground arith

pub destroy_all_removes :
    (n supply source : ℕ) (r : ℕ × ℕ)
    → destroy_all n supply source ≡ some r
    → (r.0 + n ≡ supply) × (r.1 + n ≡ source)
destroy_all_removes n supply source r h = ground arith

abbrev pub lenient : Programs
lenient = record {
  move = move_all;
  issue = issue_all;
  destroy = destroy_all;
  move_moves = move_all_moves;
  issue_adds = issue_all_adds;
  destroy_removes = destroy_all_removes;
}
