-- ===== src/StakeView/VoteState.antt =====
-- crates/fusion-stake-view/src/vote_state.rs: a walk over the bytes of a vote account.
pub mod Account
pub mod Credits
pub mod Fields
pub mod RoundTrip
pub mod Total
use fusion_core.Prelude.{
  ℕ, zero, suc, ◌+◌, ◌-◌, ◌*◌, ◌/◌, Bool, true, false, List, Result, err, ok, ok_or, ◌>>=◌, Option,
  none, some, ltb, leb, ◌==◌, if◌then◌else◌, length, checked_mul, checked_add, checked_sub,
  bind_some, map_some, u64_max, max,
}
use fusion_core.StakeView.Bytes.{u64_le, u32_le, u8_at}

abbrev pub version_tag_v1_14_11 : ℕ
version_tag_v1_14_11 = 1

abbrev pub version_tag_v3 : ℕ
version_tag_v3 = 2

abbrev pub lockout_bytes : ℕ
lockout_bytes = 12

abbrev pub landed_vote_bytes : ℕ
landed_vote_bytes = 13

abbrev pub authorized_voter_entry_bytes : ℕ
authorized_voter_entry_bytes = 40

abbrev pub prior_voters_bytes : ℕ
prior_voters_bytes = 32 * 48 + 8 + 1

abbrev pub epoch_credits_entry_bytes : ℕ
epoch_credits_entry_bytes = 24

abbrev pub last_timestamp_bytes : ℕ
last_timestamp_bytes = 16

pub data VoteStateError : Type 0 where
  too_short unsupported_version malformed : VoteStateError

pub record VoteSample : Type 0 where
  pub commission : ℕ
  pub prior_epoch_credit_growth : Bool
  pub freshness_slot : ℕ

abbrev pub or_short {ℓ} : {A : Type ℓ} → Option A → Result VoteStateError A
or_short o = ok_or o too_short

abbrev pub or_malformed {ℓ} : {A : Type ℓ} → Option A → Result VoteStateError A
or_malformed o = ok_or o malformed

-- `usize` and `u64` have the same width.
unfoldable pub u64_at : List ℕ → ℕ → Option ℕ
u64_at xs off = u64_le xs off

unfoldable pub ensure_within : List ℕ → ℕ → Result VoteStateError (Unit {0})
ensure_within xs end = if leb end (length xs) then ok tt else err too_short

-- Past `count` entries of `width` bytes after a count at `cur`, if they are there.
unfoldable pub entries_end : List ℕ → ℕ → ℕ → ℕ → Result VoteStateError ℕ
entries_end xs cur count width = or_malformed (checked_add u64_max cur 8) >>= λ first.
    or_malformed (checked_mul u64_max count width) >>= λ total.
    or_malformed (checked_add u64_max first total) >>= λ end. ensure_within xs end >>= λ _. ok end

unfoldable pub skip_counted : List ℕ → ℕ → ℕ → Result VoteStateError ℕ
skip_counted xs cur width = or_short (u64_at xs cur) >>= λ count. entries_end xs cur count width

unfoldable pub version : List ℕ → Result VoteStateError Bool
version xs = or_short (u32_le xs 0) >>= λ tag.
    if tag == version_tag_v1_14_11
    then ok false
    else if tag == version_tag_v3
    then ok true
    else err unsupported_version

-- The slot of the last of `count` votes, which end at `end`.
unfoldable pub last_vote_slot : List ℕ → Bool → ℕ → ℕ → Result VoteStateError (Option ℕ)
last_vote_slot xs has_latency count end =
    let width = if has_latency then landed_vote_bytes else lockout_bytes in
    if ltb 0 count
    then (or_malformed (
          bind_some (checked_sub end width)
            (λ o. checked_add u64_max o (if has_latency then 1 else 0)))
        >>= λ off. or_short (u64_at xs off) >>= λ slot. ok (some slot))
    else ok none

-- Past the optional root slot.
unfoldable pub skip_root : List ℕ → ℕ → Result VoteStateError ℕ
skip_root xs cur = or_short (u8_at xs cur) >>= λ tag.
    or_malformed (checked_add u64_max cur 1) >>= λ after.
    if tag == 0
    then ok after
    else if tag == 1
    then (or_malformed (checked_add u64_max after 8) >>= λ end.
        ensure_within xs end >>= λ _. ok end)
    else err malformed

-- Did the entry at `off` of the epoch credits earn credits? The answer so far if it is of another
-- epoch.
unfoldable pub credits_at : List ℕ → ℕ → ℕ → Bool → Result VoteStateError Bool
credits_at xs prior_epoch off grew = or_short (u64_at xs off) >>= λ epoch.
    if epoch == prior_epoch
    then (or_malformed (checked_add u64_max off 8) >>= λ credits_off.
        or_short (u64_at xs credits_off) >>= λ credits.
        or_malformed (checked_add u64_max off 16) >>= λ prev_off.
        or_short (u64_at xs prev_off) >>= λ prev_credits. ok (ltb prev_credits credits))
    else ok grew

-- The `while entry < credits_end` loop. `none`: the fuel ran out.
unfoldable pub scan_credits : ℕ → List ℕ → ℕ → ℕ → ℕ → Bool → Option (Result VoteStateError Bool)
scan_credits zero xs prior_epoch end entry grew = none
scan_credits (suc fuel) xs prior_epoch end entry grew = elim (ltb entry end) [
  | false ↦ some (ok grew)
  | true ↦ elim (credits_at xs prior_epoch entry grew) [
    | err e ↦ some (err e)
    | ok grew' ↦ elim (checked_add u64_max entry epoch_credits_entry_bytes) [
      | none ↦ some (err malformed)
      | some next ↦ scan_credits fuel xs prior_epoch end next grew'
    ]
  ]
]

-- Where the epoch credits at `cur` begin and end, and how many there are.
unfoldable pub credits_span : List ℕ → ℕ → Result VoteStateError (ℕ × ℕ × ℕ)
credits_span xs cur = or_short (u64_at xs cur) >>= λ count.
    or_malformed (checked_add u64_max cur 8) >>= λ first.
    entries_end xs cur count epoch_credits_entry_bytes >>= λ end. ok (first, end, count)

-- The last timestamp, which begins where the epoch credits end.
unfoldable pub last_timestamp : List ℕ → ℕ → Result VoteStateError ℕ
last_timestamp xs end = or_short (u64_at xs end) >>= λ slot.
    or_malformed (checked_add u64_max end last_timestamp_bytes) >>= λ last.
    ensure_within xs last >>= λ _. ok slot

unfoldable pub freshness : Option ℕ → ℕ → ℕ
freshness none timestamp_slot = timestamp_slot
freshness (some slot) timestamp_slot = max slot timestamp_slot

unfoldable pub sample :
    List ℕ → ℕ → Option ℕ → ℕ → Result VoteStateError Bool → Result VoteStateError VoteSample
sample xs commission last_slot end grew = grew >>= λ growth.
    last_timestamp xs end >>= λ timestamp_slot. ok (record {
      commission = commission;
      prior_epoch_credit_growth = growth;
      freshness_slot = freshness last_slot timestamp_slot;
    })

-- The parser from the epoch credits at `cur` on. The loop makes a round for each entry.
unfoldable pub finish : List ℕ → ℕ → ℕ → Option ℕ → ℕ → Option (Result VoteStateError VoteSample)
finish xs prior_epoch commission last_slot cur = elim (credits_span xs cur) [
  | err e ↦ some (err e)
  | ok (first, end, count) ↦
      map_some (sample xs commission last_slot end)
        (scan_credits (suc count) xs prior_epoch end first false)
]

-- The walk up to the epoch credits: the commission, the last slot, and where the credits begin.
unfoldable pub walk : List ℕ → Result VoteStateError (ℕ × Option ℕ × ℕ)
walk xs = version xs >>= λ has_latency. or_short (u8_at xs 68) >>= λ commission.
    or_short (u64_at xs 69) >>= λ vote_count.
    entries_end xs 69 vote_count (if has_latency then landed_vote_bytes else lockout_bytes)
    >>= λ votes_end. last_vote_slot xs has_latency vote_count votes_end >>= λ last_slot.
        skip_root xs votes_end >>= λ after_root.
        skip_counted xs after_root authorized_voter_entry_bytes >>= λ after_voters.
        or_malformed (checked_add u64_max after_voters prior_voters_bytes) >>= λ credits.
        ensure_within xs credits >>= λ _. ok (commission, last_slot, credits)

unfoldable pub parse : List ℕ → ℕ → Option (Result VoteStateError VoteSample)
parse xs prior_epoch = elim (walk xs) [
  | err e ↦ some (err e)
  | ok (commission, last_slot, credits) ↦ finish xs prior_epoch commission last_slot credits
]
