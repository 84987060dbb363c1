-- ===== src/Cw3.antt =====
-- packages/cw3: the proposals of a multisig and the tally of their votes (proposal.rs, msg.rs,
-- query.rs, deposit.rs). The handlers of the contract that keeps them stand in `Cw3Fixed`.
pub mod Needed
pub mod Certain
pub mod Outcome
pub mod Deposits
use cw_plus.Base.{
  ℕ, ◌+◌, ◌-◌, ◌/◌, ◌%◌, ◌^◌, Bool, true, false, ◌||◌, Option, none, some, List, leb, ltb, add_u64,
  sub_u64, add_u128, sub_u128, mul_u128, if◌then◌else◌,
}
use cw_plus.Base.Maybe.{◌>>=◌}
use cw_plus.Host.{
  Host, Text, Addr, Expiration, Decimal, decimal_one, CosmosMsg, Block, Threshold, absolute_count,
  absolute_percentage, threshold_quorum,
}

-- `Vote`
pub data Vote : Type 0 where
  yes no abstain veto : Vote

-- `Status`
pub data Status : Type 0 where
  pending open_status rejected passed executed : Status

-- `Votes`: the weight of the votes for each option.
pub record Votes : Type 0 where
  pub yes : ℕ
  pub no : ℕ
  pub abstain : ℕ
  pub veto : ℕ

-- `Ballot`
pub record Ballot : Type 0 where
  pub weight : ℕ
  pub vote : Vote

-- `Denom` of packages/cw20
pub data Denom : Type 0 where
  native : Text → Denom
  cw20 : Addr → Denom

-- `DepositInfo`
pub record DepositInfo : Type 0 where
  pub amount : ℕ
  pub denom : Denom
  pub refund_failed_proposals : Bool

-- `Proposal`
pub record Proposal : Type 0 where
  pub title : Text
  pub description : Text
  pub start_height : ℕ
  pub expires : Expiration
  pub msgs : List CosmosMsg
  pub status : Status
  pub threshold : Threshold
  pub total_weight : ℕ
  pub votes : Votes
  pub proposer : Addr
  pub deposit : Option DepositInfo

abbrev pub precision_factor : ℕ
precision_factor = 1_000_000_000

-- `votes_needed`
unfoldable pub votes_needed : Host → ℕ → Decimal → Option ℕ
votes_needed h weight percentage = do
  scaled ← mul_u128 precision_factor weight
  applied ← h.mul_floor scaled percentage
  raised ← add_u128 applied precision_factor
  lowered ← sub_u128 raised 1
  some (lowered / precision_factor % 2 ^ 64)

-- `Votes::total`
unfoldable pub total : Votes → Option ℕ
total v = do a ← add_u64 v.yes v.no; b ← add_u64 a v.abstain; add_u64 b v.veto

-- `Votes::yes`
unfoldable pub yes_votes : ℕ → Votes
yes_votes weight = record { yes = weight; no = 0; abstain = 0; veto = 0 }

-- `Votes::add_vote`
unfoldable pub add_vote : Vote → ℕ → Votes → Option Votes
add_vote Vote.yes weight v = do n ← add_u64 v.yes weight; some (record v { yes = n })
add_vote Vote.abstain weight v = do n ← add_u64 v.abstain weight; some (record v { abstain = n })
add_vote Vote.no weight v = do n ← add_u64 v.no weight; some (record v { no = n })
add_vote Vote.veto weight v = do n ← add_u64 v.veto weight; some (record v { veto = n })

-- What the votes cast amount to without the abstentions.
opinions_cast : Votes → Option ℕ
unfolding total
opinions_cast v = do cast ← total v; sub_u64 cast v.abstain

module _ (h : Host) where
  -- the `match` of `Proposal::is_passed`
  passes : Threshold → Proposal → Block → Option Bool
  passes (absolute_count weight) p block = some (leb weight p.votes.yes)
  passes (absolute_percentage percentage) p block = do
    opinions ← sub_u64 p.total_weight p.votes.abstain
    needed ← votes_needed h opinions percentage
    some (leb needed p.votes.yes)
  passes (threshold_quorum threshold quorum) p block = do
    cast ← total p.votes
    needed ← votes_needed h p.total_weight quorum
    if ltb cast needed then some false else do
      opinions ←
          (if h.is_expired p.expires block
            then opinions_cast p.votes
            else sub_u64 p.total_weight p.votes.abstain)
      needed' ← votes_needed h opinions threshold
      some (leb needed' p.votes.yes)

  -- the `match` of `Proposal::is_rejected`
  rejects : Threshold → Proposal → Block → Option Bool
  rejects (absolute_count weight) p block = do
    spare ← sub_u64 p.total_weight weight
    some (ltb spare p.votes.no)
  rejects (absolute_percentage percentage) p block = do
    opinions ← sub_u64 p.total_weight p.votes.abstain
    rest ← h.sub_decimal decimal_one percentage
    needed ← votes_needed h opinions rest
    some (ltb needed p.votes.no)
  rejects (threshold_quorum threshold quorum) p block = do
    opinions ←
        (if h.is_expired p.expires block
          then opinions_cast p.votes
          else sub_u64 p.total_weight p.votes.abstain)
    rest ← h.sub_decimal decimal_one threshold
    needed ← votes_needed h opinions rest
    some (ltb needed p.votes.no)

  -- `Proposal::is_passed`
  unfoldable pub is_passed : Proposal → Block → Option Bool
  unfolding passes opinions_cast
  is_passed p block = passes p.threshold p block

  -- `Proposal::is_rejected`
  unfoldable pub is_rejected : Proposal → Block → Option Bool
  unfolding rejects opinions_cast
  is_rejected p block = rejects p.threshold p block

  is_open : Status → Bool
  is_open open_status = true
  is_open _ = false

  -- `Proposal::current_status`
  unfoldable pub current_status : Proposal → Block → Option Status
  unfolding is_open
  current_status p block = do
    after_pass ←
        (if is_open p.status
          then (do won ← is_passed p block; some (if won then passed else p.status))
          else some p.status)
    if is_open after_pass
        then (do
          lost ← is_rejected p block
          some (if lost || h.is_expired p.expires block then rejected else after_pass))
        else some after_pass

  -- `Proposal::update_status`
  unfoldable pub update_status : Proposal → Block → Option Proposal
  update_status p block = do status ← current_status p block; some (record p { status = status })
