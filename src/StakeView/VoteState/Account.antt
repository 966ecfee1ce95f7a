-- ===== src/StakeView/VoteState/Account.antt =====
-- The layout of a vote account, as the vote program writes it and
-- crates/fusion-stake-view/src/vote_state.rs documents it: bincode, in the versions V1_14_11 and V3.
use fusion_core.Prelude.{
  ℕ, ◌+◌, ◌*◌, ◌≡◌, ◌≤◌, Bool, true, false, Option, none, some, List, [], ◌∷◌, ◌++◌, length, All,
  u64_max, if◌then◌else◌, arith, ltb, ◌==◌,
}
use fusion_core.StakeView.Bytes.Layout.{to_le, length-to_le, concat, size}

pub record Vote : Type 0 where
  pub latency : ℕ
  pub slot : ℕ
  pub confirmations : ℕ

-- The tower of votes: empty, or the earlier ones and the latest.
pub data Tower : Type 0 where
  empty : Tower
  tower : List Vote → Vote → Tower

pub record Voter : Type 0 where
  pub epoch : ℕ
  pub key : List ℕ

pub record Credits : Type 0 where
  pub epoch : ℕ
  pub credits : ℕ
  pub prev_credits : ℕ

pub record VoteAccount : Type 0 where
  pub node : List ℕ
  pub withdrawer : List ℕ
  pub commission : ℕ
  pub votes : Tower
  pub root : Option ℕ
  pub voters : List Voter
  pub prior_voters : List ℕ
  pub epoch_credits : List Credits
  pub timestamp_slot : ℕ
  pub timestamp : ℕ
  pub padding : List ℕ

-- `v3`: an entry of the tower begins with its latency.
abbrev pub vote_chunks : Bool → Vote → List (List ℕ)
vote_chunks true v = (v.latency ∷ []) ∷ to_le 8 v.slot ∷ to_le 4 v.confirmations ∷ []
vote_chunks false v = to_le 8 v.slot ∷ to_le 4 v.confirmations ∷ []

abbrev pub flat {ℓ} : {A : Type ℓ} → (A → List (List ℕ)) → List A → List (List ℕ)
flat f [] = []
flat f (x ∷ xs) = f x ++ flat f xs

abbrev pub tower_count : Tower → ℕ
tower_count empty = 0
tower_count (tower earlier latest) = length earlier + 1

abbrev pub tower_chunks : Bool → Tower → List (List ℕ)
tower_chunks v3 empty = []
tower_chunks v3 (tower earlier latest) = flat (vote_chunks v3) earlier ++ vote_chunks v3 latest

abbrev pub root_chunks : Option ℕ → List (List ℕ)
root_chunks none = (0 ∷ []) ∷ []
root_chunks (some slot) = (1 ∷ []) ∷ to_le 8 slot ∷ []

abbrev pub voter_chunks : Voter → List (List ℕ)
voter_chunks v = to_le 8 v.epoch ∷ v.key ∷ []

abbrev pub credits_chunks : Credits → List (List ℕ)
credits_chunks c = to_le 8 c.epoch ∷ to_le 8 c.credits ∷ to_le 8 c.prev_credits ∷ []

abbrev pub tag : Bool → ℕ
tag v3 = if v3 then 2 else 1

abbrev pub timestamp_chunks : VoteAccount → List (List ℕ)
timestamp_chunks a = to_le 8 a.timestamp_slot ∷ to_le 8 a.timestamp ∷ a.padding ∷ []

abbrev pub from_credits : VoteAccount → List (List ℕ)
from_credits a =
    to_le 8 (length a.epoch_credits) ∷ (flat credits_chunks a.epoch_credits ++ timestamp_chunks a)

abbrev pub from_voters : VoteAccount → List (List ℕ)
from_voters a =
    to_le 8 (length a.voters) ∷ (flat voter_chunks a.voters ++ (a.prior_voters ∷ from_credits a))

abbrev pub from_votes : Bool → VoteAccount → List (List ℕ)
from_votes v3 a =
    to_le 8 (tower_count a.votes)
    ∷ (tower_chunks v3 a.votes ++ (root_chunks a.root ++ from_voters a))

abbrev pub chunks : Bool → VoteAccount → List (List ℕ)
chunks v3 a = to_le 4 (tag v3) ∷ a.node ∷ a.withdrawer ∷ (a.commission ∷ []) ∷ from_votes v3 a

unfoldable pub serialize : Bool → VoteAccount → List ℕ
serialize v3 a = concat (chunks v3 a)

abbrev pub CreditsFit : Credits → Type 0
CreditsFit c = (c.epoch ≤ u64_max) × (c.credits ≤ u64_max) × (c.prev_credits ≤ u64_max)

abbrev pub SlotFits : Vote → Type 0
SlotFits v = v.slot ≤ u64_max

abbrev pub TowerFits : Tower → Type 0
TowerFits empty = Unit {0}
TowerFits (tower earlier latest) = SlotFits latest

pub record IsAccount (a : VoteAccount) : Type 0 where
  pub node_wide : length a.node ≡ 32
  pub withdrawer_wide : length a.withdrawer ≡ 32
  pub votes_fit : TowerFits a.votes
  pub keys_wide : All (λ v. length v.key ≡ 32) a.voters
  pub prior_wide : length a.prior_voters ≡ 1545
  pub credits_fit : All CreditsFit a.epoch_credits
  pub timestamp_fits : a.timestamp_slot ≤ u64_max

-- The answer of the last entry of the epoch, if there is one.
abbrev pub grew : ℕ → List Credits → Bool → Bool
grew epoch [] before = before
grew epoch (c ∷ cs) before =
    grew epoch cs (if c.epoch == epoch then ltb c.prev_credits c.credits else before)

abbrev pub latest_slot : Tower → Option ℕ
latest_slot empty = none
latest_slot (tower earlier latest) = some latest.slot

size-append : (cs ds : List (List ℕ)) → size (cs ++ ds) ≡ size cs + size ds
size-append [] ds = omega arith
size-append (c ∷ cs) ds = omega (arith, size-append cs ds)

pub size-voters :
    (vs : List Voter)
    → All (λ v. length v.key ≡ 32) vs
    → size (flat voter_chunks vs) ≡ length vs * 40
size-voters [] h = omega arith
size-voters (v ∷ vs) h = omega (arith, size-voters vs h.1, length-to_le 8 v.epoch, h.0)

pub size-credits : (cs : List Credits) → size (flat credits_chunks cs) ≡ length cs * 24
size-credits [] = omega arith
size-credits (c ∷ cs) = omega (
  arith,
  size-credits cs,
  length-to_le 8 c.epoch,
  length-to_le 8 c.credits,
  length-to_le 8 c.prev_credits,
)

abbrev pub vote_width : Bool → ℕ
vote_width v3 = if v3 then 13 else 12

size-vote : (v3 : Bool) (v : Vote) → size (vote_chunks v3 v) ≡ vote_width v3
size-vote true v = omega (arith, length-to_le 8 v.slot, length-to_le 4 v.confirmations)
size-vote false v = omega (arith, length-to_le 8 v.slot, length-to_le 4 v.confirmations)

pub size-votes :
    (v3 : Bool) (vs : List Vote) → size (flat (vote_chunks v3) vs) ≡ length vs * vote_width v3
size-votes v3 [] = omega arith
size-votes v3 (v ∷ vs) = omega (
  arith,
  size-append (vote_chunks v3 v) (flat (vote_chunks v3) vs),
  size-vote v3 v,
  size-votes v3 vs,
)

pub size-tower : (v3 : Bool) (t : Tower) → size (tower_chunks v3 t) ≡ tower_count t * vote_width v3
size-tower v3 empty = omega arith
size-tower v3 (tower earlier latest) = omega (
  arith,
  size-append (flat (vote_chunks v3) earlier) (vote_chunks v3 latest),
  size-votes v3 earlier,
  size-vote v3 latest,
)
