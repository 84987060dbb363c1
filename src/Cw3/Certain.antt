-- ===== src/Cw3/Certain.antt =====
-- What the two questions mean: exact shares of the weight, and answers that no later vote changes.
use cw_plus.Base.{ℕ, ◌+◌, ◌-◌, ◌*◌, ◌≤◌, ◌<◌, ◌≡◌, ◌↔◌, Bool, true, false, some, arith}
use cw_plus.Host.{
  Host, Block, Threshold, absolute_count, absolute_percentage, threshold_quorum, IsReachable,
  decimal_one,
}
use cw_plus.Cw3.{Votes, Proposal, is_passed, is_rejected}
use cw_plus.Cw3.Needed.{needed, needed_iff, needed_mono, needed_complement}
use cw_plus.Cw3.Outcome.{
  cast, counted, IsSound, passing, rejecting, is_passed-passing, is_rejected-rejecting,
}

-- `n` votes are the share `p` of `w`, up to 10^-9 of a vote.
abbrev pub Enough : ℕ → ℕ → ℕ → Type 0
Enough n w p = w * p < n * decimal_one + 1_000_000_000

abbrev pub Wins : Host → Threshold → Proposal → Block → Type 0
Wins h (absolute_count weight) p block = weight ≤ p.votes.yes
Wins h (absolute_percentage share) p block =
    Enough p.votes.yes (p.total_weight - p.votes.abstain) share
Wins h (threshold_quorum share quorum) p block =
    Enough (cast p.votes) p.total_weight quorum × Enough p.votes.yes (counted h p block) share

-- `n` votes are a whole vote more than the share `p` of `w`, up to 10^-9 of a vote.
abbrev pub Exceeds : ℕ → ℕ → ℕ → Type 0
Exceeds n w p = w * p + decimal_one < n * decimal_one + 1_000_000_000

abbrev pub Loses : Host → Threshold → Proposal → Block → Type 0
Loses h (absolute_count weight) p block = p.total_weight < p.votes.no + weight
Loses h (absolute_percentage share) p block =
    Exceeds p.votes.no (p.total_weight - p.votes.abstain) (decimal_one - share)
Loses h (threshold_quorum share quorum) p block =
    Exceeds p.votes.no (counted h p block) (decimal_one - share)

pub passing-Wins :
    (h : Host) (t : Threshold) (p : Proposal) (block : Block)
    → (passing h t p block ≡ true) ↔ Wins h t p block
passing-Wins h (absolute_count weight) p block = ground arith
passing-Wins h (absolute_percentage share) p block =
    ground (arith, needed_iff (p.total_weight - p.votes.abstain) share p.votes.yes)
passing-Wins h (threshold_quorum share quorum) p block = ground (
  arith,
  needed_iff p.total_weight quorum (cast p.votes),
  needed_iff (counted h p block) share p.votes.yes,
)

Exceeds-iff : (n w p : ℕ) → (needed w p < n) ↔ Exceeds n w p
Exceeds-iff n w p = ground (arith, needed_iff w p (n - 1))

rejecting-Loses :
    (h : Host) (t : Threshold) (p : Proposal) (block : Block)
    → IsReachable t p.total_weight
    → (rejecting h t p block ≡ true) ↔ Loses h t p block
rejecting-Loses h (absolute_count weight) p block r = ground arith
rejecting-Loses h (absolute_percentage share) p block r =
    ground (arith, Exceeds-iff p.votes.no (p.total_weight - p.votes.abstain) (decimal_one - share))
rejecting-Loses h (threshold_quorum share quorum) p block r =
    ground (arith, Exceeds-iff p.votes.no (counted h p block) (decimal_one - share))

-- More votes of each kind.
pub record Grows (v w : Votes) : Type 0 where
  pub yes_grows : v.yes ≤ w.yes
  pub no_grows : v.no ≤ w.no
  pub abstain_grows : v.abstain ≤ w.abstain
  pub veto_grows : v.veto ≤ w.veto

abbrev pub with_votes : Proposal → Votes → Proposal
with_votes p v = record p { votes = v }

passing_stable :
    (h : Host) (t : Threshold) (p : Proposal) (v : Votes) (b b' : Block)
    → h.is_expired p.expires b ≡ false
    → Grows p.votes v
    → cast v ≤ p.total_weight
    → passing h t p b ≡ true
    → passing h t (with_votes p v) b' ≡ true
passing_stable h (absolute_count weight) p v b b' e g c w = ground arith
passing_stable h (absolute_percentage share) p v b b' e g c w =
    ground
      (arith, needed_mono (p.total_weight - v.abstain) (p.total_weight - p.votes.abstain) share)
passing_stable h (threshold_quorum share quorum) p v b b' e g c w = ground (
  arith,
  needed_mono (p.total_weight - v.abstain) (p.total_weight - p.votes.abstain) share,
  needed_mono (v.yes + v.no + v.veto) (p.total_weight - p.votes.abstain) share,
)

rejecting_stable :
    (h : Host) (t : Threshold) (p : Proposal) (v : Votes) (b b' : Block)
    → h.is_expired p.expires b ≡ false
    → Grows p.votes v
    → cast v ≤ p.total_weight
    → rejecting h t p b ≡ true
    → rejecting h t (with_votes p v) b' ≡ true
rejecting_stable h (absolute_count weight) p v b b' e g c w = ground arith
rejecting_stable h (absolute_percentage share) p v b b' e g c w = ground (
  arith,
  needed_mono (p.total_weight - v.abstain) (p.total_weight - p.votes.abstain) (decimal_one - share),
)
rejecting_stable h (threshold_quorum share quorum) p v b b' e g c w = ground (
  arith,
  needed_mono (p.total_weight - v.abstain) (p.total_weight - p.votes.abstain) (decimal_one - share),
  needed_mono (v.yes + v.no + v.veto) (p.total_weight - p.votes.abstain) (decimal_one - share),
)

not-both :
    (h : Host) (t : Threshold) (p : Proposal) (b : Block)
    → IsReachable t p.total_weight
    → cast p.votes ≤ p.total_weight
    → passing h t p b ≡ true
    → rejecting h t p b ≡ false
not-both h (absolute_count weight) p b r c w = ground arith
not-both h (absolute_percentage share) p b r c w =
    ground
      (arith, needed_complement (p.total_weight - p.votes.abstain) share p.votes.yes p.votes.no)
not-both h (threshold_quorum share quorum) p b r c w =
    ground (arith, needed_complement (counted h p b) share p.votes.yes p.votes.no)

module _ (h : Host) (p : Proposal) (b : Block) (sound : IsSound p) where
  -- On a proposal whose votes stay within its total weight, a u64, and whose threshold that weight
  -- can reach, is_passed does not panic, and it answers true exactly when the votes reach the
  -- threshold: the count, the share of the weight that did not abstain, or the quorum and the share
  -- of the opinions that count at the block; a share that is less than 10^-9 of a vote short is
  -- reached.
  pub is_passed-Wins :
      (r : Bool) × (is_passed h p b ≡ some r) × ((r ≡ true) ↔ Wins h p.threshold p b)
  is_passed-Wins =
      (passing h p.threshold p b, is_passed-passing h p b sound, passing-Wins h p.threshold p b)

  -- On a proposal whose votes stay within its total weight, a u64, and whose threshold that weight
  -- can reach, is_rejected does not panic, and it answers true exactly when the votes against are
  -- so many that the rest cannot reach the count, or a whole vote more than the share left to them,
  -- up to 10^-9 of a vote.
  pub is_rejected-Loses :
      (r : Bool) × (is_rejected h p b ≡ some r) × ((r ≡ true) ↔ Loses h p.threshold p b)
  is_rejected-Loses = (
    rejecting h p.threshold p b,
    is_rejected-rejecting h p b sound,
    rejecting-Loses h p.threshold p b sound.reachable,
  )

  -- A proposal that has passed is not rejected at the same block.
  pub is_passed-not-is_rejected : is_passed h p b ≡ some true → is_rejected h p b ≡ some false
  is_passed-not-is_rejected w = ground (
    arith,
    is_passed-passing h p b sound,
    is_rejected-rejecting h p b sound,
    not-both h p.threshold p b sound.reachable sound.within,
  )

  module _ (v : Votes) (b' : Block) (still : h.is_expired p.expires b ≡ false)
      (more : Grows p.votes v) (fits : cast v ≤ p.total_weight) where
    later-IsSound : IsSound (with_votes p v)
    later-IsSound = record {
      weight_fits = sound.weight_fits;
      within = fits;
      reachable = sound.reachable;
    }

    -- A proposal that is passed before its expiration stays so, at every block, whatever votes come
    -- in as long as all votes stay within the total weight. The votes so far must be within that
    -- weight, which is a u64 and can reach the threshold.
    pub is_passed_stable : is_passed h p b ≡ some true → is_passed h (with_votes p v) b' ≡ some true
    is_passed_stable w = ground (
      arith,
      is_passed-passing h p b sound,
      is_passed-passing h (with_votes p v) b' later-IsSound,
      passing_stable h p.threshold p v b b' still more fits,
    )

    -- A proposal that is rejected before its expiration stays so and passes at no block, whatever
    -- votes come in as long as all votes stay within the total weight. The votes so far must be
    -- within that weight, which is a u64 and can reach the threshold.
    pub is_rejected_stable :
        is_rejected h p b ≡ some true
        → (is_rejected h (with_votes p v) b' ≡ some true)
          × (is_passed h (with_votes p v) b' ≡ some false)
    is_rejected_stable w = ground (
      arith,
      is_rejected-rejecting h p b sound,
      is_rejected-rejecting h (with_votes p v) b' later-IsSound,
      is_passed-passing h (with_votes p v) b' later-IsSound,
      rejecting_stable h p.threshold p v b b' still more fits,
      not-both h p.threshold (with_votes p v) b' sound.reachable fits,
    )
