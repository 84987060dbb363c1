-- ===== src/Tests/Voting.antt =====
-- packages/cw3 on a proposal with ten votes.
use cw_plus.Base.{
  ℕ, ◌*◌, ◌+◌, ◌≤◌, ◌<◌, ◌≡◌, ◌↔◌, Bool, true, false, none, some, [], ◌∷◌, arith, refl,
}
use cw_plus.Host.{Threshold, threshold_quorum, decimal_one}
use cw_plus.Cw3.{Votes, Proposal, open_status, is_passed, is_rejected, votes_needed}
use cw_plus.Cw3.Needed.{votes_needed_lem}
use cw_plus.Cw3.Outcome.{IsSound}
use cw_plus.Cw3.Certain.{
  Wins, Loses, Grows, is_passed-Wins, is_rejected-Loses, is_passed_stable, is_rejected_stable,
}
use cw_plus.Tests.{plain_host, at}

-- Half of the opinions, with a quorum of four in ten.
abbrev half_of_quorum : Threshold
half_of_quorum = threshold_quorum 500_000_000_000_000_000 400_000_000_000_000_000

abbrev cast_so_far : ℕ → ℕ → Votes
cast_so_far for against = record { yes = for; no = against; abstain = 0; veto = 0 }

abbrev proposal : Votes → Proposal
proposal v = record {
  title = 1;
  description = 2;
  start_height = 1;
  expires = 50;
  msgs = 77 ∷ [];
  status = open_status;
  threshold = half_of_quorum;
  total_weight = 10;
  votes = v;
  proposer = 1;
  deposit = none;
}

abbrev liked : Proposal
liked = proposal (cast_so_far 6 1)

abbrev disliked : Proposal
disliked = proposal (cast_so_far 1 6)

liked-IsSound : IsSound liked
liked-IsSound = record {
  weight_fits = omega arith;
  within = omega arith;
  reachable = (omega arith, omega arith);
}

disliked-IsSound : IsSound disliked
disliked-IsSound = record {
  weight_fits = omega arith;
  within = omega arith;
  reachable = (omega arith, omega arith);
}

liked_run : is_passed plain_host liked (at 9).block ≡ some true
unfolding is_passed votes_needed plain_host
liked_run = refl

disliked_run : is_rejected plain_host disliked (at 9).block ≡ some true
unfolding is_rejected votes_needed plain_host
disliked_run = refl

liked_is_live : plain_host.is_expired 50 (at 9).block ≡ false
unfolding plain_host
liked_is_live = refl

one_more_against : Grows (cast_so_far 6 1) (cast_so_far 6 4)
one_more_against = record {
  yes_grows = omega arith;
  no_grows = omega arith;
  abstain_grows = omega arith;
  veto_grows = omega arith;
}

one_more_for : Grows (cast_so_far 1 6) (cast_so_far 4 6)
one_more_for = record {
  yes_grows = omega arith;
  no_grows = omega arith;
  abstain_grows = omega arith;
  veto_grows = omega arith;
}

is_passed_stable_example :
    is_passed plain_host (proposal (cast_so_far 6 4)) (at 99).block ≡ some true
is_passed_stable_example =
    is_passed_stable plain_host liked (at 9).block liked-IsSound (cast_so_far 6 4) (at 99).block
      liked_is_live one_more_against (omega arith) liked_run

is_rejected_stable_example :
    (is_rejected plain_host (proposal (cast_so_far 4 6)) (at 99).block ≡ some true)
    × (is_passed plain_host (proposal (cast_so_far 4 6)) (at 99).block ≡ some false)
is_rejected_stable_example =
    is_rejected_stable plain_host disliked (at 9).block disliked-IsSound (cast_so_far 4 6)
      (at 99).block liked_is_live one_more_for (omega arith) disliked_run

is_passed-Wins_example :
    (r : Bool) × (is_passed plain_host liked (at 9).block ≡ some r)
    × ((r ≡ true) ↔ Wins plain_host half_of_quorum liked (at 9).block)
is_passed-Wins_example = is_passed-Wins plain_host liked (at 9).block liked-IsSound

is_rejected-Loses_example :
    (r : Bool) × (is_rejected plain_host disliked (at 9).block ≡ some r)
    × ((r ≡ true) ↔ Loses plain_host half_of_quorum disliked (at 9).block)
is_rejected-Loses_example = is_rejected-Loses plain_host disliked (at 9).block disliked-IsSound

-- A third of ten votes, as a share of eighteen digits.
votes_needed_lem_example :
    (n : ℕ) × (votes_needed plain_host 10 333_333_333_333_333_333 ≡ some n)
    × ((k : ℕ) → (n ≤ k) ↔ (10 * 333_333_333_333_333_333 < k * decimal_one + 1_000_000_000))
votes_needed_lem_example =
    votes_needed_lem plain_host 10 333_333_333_333_333_333 (omega arith) (omega arith)
