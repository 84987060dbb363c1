-- ===== src/Cw3/Outcome.antt =====
-- What `Proposal::is_passed` and `Proposal::is_rejected` decide, against the votes that can still
-- come in.
use cw_plus.Base.{
  ℕ, ◌+◌, ◌-◌, ◌≤◌, ◌≡◌, Bool, false, refl, some, arith, u64_max, if◌then◌else◌, leb, ltb, ◌||◌,
}
use cw_plus.Host.{
  Host, Block, Threshold, absolute_count, absolute_percentage, threshold_quorum, IsReachable,
  decimal_one,
}
use cw_plus.Cw3.{
  Votes, Proposal, Status, pending, open_status, rejected, passed, executed, current_status, total,
  passes, rejects, opinions_cast, is_passed, is_rejected,
}
use cw_plus.Cw3.Needed.{needed, votes_needed-needed}

-- The weight of all votes cast, and of those that are no abstentions.
abbrev pub cast : Votes → ℕ
cast v = v.yes + v.no + v.abstain + v.veto

abbrev pub opinions : Votes → ℕ
opinions v = v.yes + v.no + v.veto

-- The votes do not exceed the total weight, and the threshold was validated.
pub record IsSound (p : Proposal) : Type 0 where
  pub weight_fits : p.total_weight ≤ u64_max
  pub within : cast p.votes ≤ p.total_weight
  pub reachable : IsReachable p.threshold p.total_weight

-- Whose opinions a quorum proposal counts: after the expiration those cast, before it all that
-- may still be cast.
abbrev pub counted : Host → Proposal → Block → ℕ
counted h p block =
    if h.is_expired p.expires block then opinions p.votes else p.total_weight - p.votes.abstain

-- The tests that decide the two questions, where nothing panics.
abbrev pub passing : Host → Threshold → Proposal → Block → Bool
passing h (absolute_count weight) p block = leb weight p.votes.yes
passing h (absolute_percentage share) p block =
    leb (needed (p.total_weight - p.votes.abstain) share) p.votes.yes
passing h (threshold_quorum share quorum) p block =
    if ltb (cast p.votes) (needed p.total_weight quorum)
    then false
    else leb (needed (counted h p block) share) p.votes.yes

abbrev pub rejecting : Host → Threshold → Proposal → Block → Bool
rejecting h (absolute_count weight) p block = ltb (p.total_weight - weight) p.votes.no
rejecting h (absolute_percentage share) p block =
    ltb (needed (p.total_weight - p.votes.abstain) (decimal_one - share)) p.votes.no
rejecting h (threshold_quorum share quorum) p block =
    ltb (needed (counted h p block) (decimal_one - share)) p.votes.no

module _ (h : Host) (p : Proposal) (block : Block) (sound : IsSound p) where
  total-cast : total p.votes ≡ some (cast p.votes)
  unfolding total
  total-cast = ground arith

  opinions_cast-opinions : opinions_cast p.votes ≡ some (opinions p.votes)
  unfolding opinions_cast
  opinions_cast-opinions = ground arith

  passes-passing :
      (t : Threshold)
      → IsReachable t p.total_weight
      → passes h t p block ≡ some (passing h t p block)
  unfolding passes
  passes-passing (absolute_count weight) reach = refl
  passes-passing (absolute_percentage share) reach =
      ground (arith, votes_needed-needed h (p.total_weight - p.votes.abstain) share)
  passes-passing (threshold_quorum share quorum) reach = ground (
    arith,
    total-cast,
    opinions_cast-opinions,
    votes_needed-needed h p.total_weight quorum,
    votes_needed-needed h (opinions p.votes) share,
    votes_needed-needed h (p.total_weight - p.votes.abstain) share,
  )

  rejects-rejecting :
      (t : Threshold)
      → IsReachable t p.total_weight
      → rejects h t p block ≡ some (rejecting h t p block)
  unfolding rejects
  rejects-rejecting (absolute_count weight) reach = ground arith
  rejects-rejecting (absolute_percentage share) reach = ground (
    arith,
    h.sub_decimal_lem decimal_one share,
    votes_needed-needed h (p.total_weight - p.votes.abstain) (decimal_one - share),
  )
  rejects-rejecting (threshold_quorum share quorum) reach = ground (
    arith,
    h.sub_decimal_lem decimal_one share,
    opinions_cast-opinions,
    votes_needed-needed h (opinions p.votes) (decimal_one - share),
    votes_needed-needed h (p.total_weight - p.votes.abstain) (decimal_one - share),
  )

  pub is_passed-passing : is_passed h p block ≡ some (passing h p.threshold p block)
  unfolding is_passed
  is_passed-passing = passes-passing p.threshold sound.reachable

  pub is_rejected-rejecting : is_rejected h p block ≡ some (rejecting h p.threshold p block)
  unfolding is_rejected
  is_rejected-rejecting = rejects-rejecting p.threshold sound.reachable

-- What `current_status` returns where nothing panics.
abbrev pub status_now : Host → Proposal → Block → Status → Status
status_now h p block open_status =
    if passing h p.threshold p block
    then passed
    else if rejecting h p.threshold p block || h.is_expired p.expires block
    then rejected
    else open_status
status_now h p block pending = pending
status_now h p block rejected = rejected
status_now h p block passed = passed
status_now h p block executed = executed

-- `current_status` does not panic on a sound proposal.
pub current_status-status_now :
    (h : Host) (p : Proposal) (block : Block)
    → IsSound p
    → current_status h p block ≡ some (status_now h p block p.status)
unfolding current_status
current_status-status_now h p block sound =
    ground (arith, is_passed-passing h p block sound, is_rejected-rejecting h p block sound)
