-- ===== src/Controller/Records.antt =====
-- programs/fusion-stake-controller: the accounts that an instruction is given beside its fixed ones. The
-- records of the validators are in a store, where an instruction that is given one twice sees its own
-- writes.
use fusion_core.Prelude.{ℕ, ◌%◌, ◌^◌, Option, none, some, List, if◌then◌else◌, Result, ok, err}
use fusion_core.Stake.Preference.{Address, same_bytes}
use fusion_core.StakeView.VoteState
use fusion_core.StakeView.VoteState.{VoteStateError, VoteSample}
use fusion_core.Controller.Constants.{vote_program_id}
use fusion_core.Controller.Error.{Abort, call}
use fusion_core.Controller.State.{ValidatorRecord}

-- The records, by the keys of their accounts.
abbrev pub Records : Type 0
Records = Address → Option ValidatorRecord

unfoldable pub put : Records → Address → ValidatorRecord → Records
put records key r = λ k. if same_bytes k key then some r else records k

-- `Account::try_from`, which fails for an account that is no record.
abbrev pub load : Records → Address → Result Abort ValidatorRecord
load records key = call (records key)

-- `x as u32`
abbrev pub as_u32 : ℕ → ℕ
as_u32 x = x % 2 ^ 32

-- A vote account: its key, its owner and its bytes.
pub record VoteInfo : Type 0 where
  pub key : Address
  pub owner : Address
  pub bytes : List ℕ

-- `parse(..).ok()`
abbrev pub parsed? : Option (Result VoteStateError VoteSample) → Option VoteSample
parsed? none = none
parsed? (some (err e)) = none
parsed? (some (ok s)) = some s

-- The sample of a vote account, if the vote program owns it and it can be read.
unfoldable pub vote_sample : VoteInfo → ℕ → Option VoteSample
vote_sample vote prior_epoch =
    if same_bytes vote.owner vote_program_id
    then parsed? (VoteState.parse vote.bytes prior_epoch)
    else none
