-- ===== src/Tests/Multisig.antt =====
-- contracts/cw3-fixed-multisig with three voters, of whom two votes of three decide.
use cw_plus.Base.{
  ◌⊎◌, ℕ, ◌≡◌, ◌≢◌, Option, none, some, [], ◌∷◌, ok, err, refl, arith, true, false, length, map,
  ◌++◌, ◌↔◌, ◌≤◌,
}
use cw_plus.Base.Dict.{Dict, lookup, insert}
use cw_plus.Base.Dict.Pairs.{lookup_pair, insert_pair}
use cw_plus.Host.{absolute_count}
use cw_plus.Cw3.{
  Vote, Ballot, Proposal, Status, open_status, passed, executed, add_vote, yes_votes, update_status,
  current_status, is_passed, is_rejected,
}
use cw_plus.Cw3Fixed.State.{State, Voter, InstantiateMsg, ExecuteMsg, wrong_execute_status, next_id}
use cw_plus.Cw3Fixed.Handlers.{
  instantiate, sum_weights, save_voters, execute, execute_propose, execute_vote, execute_execute,
  bounded_expiration, voting_power, may_vote_on, is_passed_status,
}
use cw_plus.Cw3Fixed.Tally.{Inv, execute-Inv}
use cw_plus.Cw3Fixed.History.{Runs, stop, step}
use cw_plus.Cw3Fixed.Founding.{instantiate-Inv}
use cw_plus.Cw3Fixed.Decisions.{
  vote_twice, execute_vote_returns, execute_execute_lem, execute_twice, IsApproved,
}
use cw_plus.Base.Dict.Page.{page, range_from, next_start}
use cw_plus.Cw3Fixed.Queries.{
  ProposalResponse, query_proposal, list_voters, voter_detail, page_size,
}
use cw_plus.Cw3Fixed.Answers.{query_proposal_lem, list_voters_lem}
use cw_plus.Tests.{plain_host, at, from, reaches}

abbrev voter : ℕ → Voter
voter a = record { addr = a; weight = 1 }

abbrev two_of_three : InstantiateMsg
two_of_three = record {
  voters = voter 1 ∷ voter 2 ∷ voter 3 ∷ [];
  threshold = absolute_count 2;
  max_voting_period = 40;
}

abbrev multisig : Option ℕ → Dict (Dict Ballot) → Dict Proposal → State
multisig count ballots proposals = record {
  version = some 20;
  config = some (record { threshold = absolute_count 2; total_weight = 3; max_voting_period = 40 });
  proposal_count = count;
  ballots = ballots;
  proposals = proposals;
  voters = (1, 1) ∷ (2, 1) ∷ (3, 1) ∷ [];
}

abbrev ballot : Vote → Ballot
ballot x = record { weight = 1; vote = x }

abbrev proposal : Status → ℕ → ℕ → Proposal
proposal status for against = record {
  title = 1;
  description = 2;
  start_height = 5;
  expires = 45;
  msgs = 77 ∷ [];
  status = status;
  threshold = absolute_count 2;
  total_weight = 3;
  votes = record { yes = for; no = against; abstain = 0; veto = 0 };
  proposer = 1;
  deposit = none;
}

abbrev empty : State
empty = multisig none [] []

abbrev proposed_once : State
proposed_once =
    multisig (some 1) ((1, (1, ballot Vote.yes) ∷ []) ∷ []) ((1, proposal open_status 1 0) ∷ [])

abbrev voted_twice : State
voted_twice =
    multisig (some 1) ((1, (1, ballot Vote.yes) ∷ (2, ballot Vote.yes) ∷ []) ∷ [])
      ((1, proposal passed 2 0) ∷ [])

abbrev executed_once : State
executed_once =
    multisig (some 1) ((1, (1, ballot Vote.yes) ∷ (2, ballot Vote.yes) ∷ []) ∷ [])
      ((1, proposal executed 2 0) ∷ [])

instantiate_run : instantiate plain_host two_of_three ≡ ok empty
unfolding instantiate sum_weights save_voters insert plain_host reaches
instantiate_run = refl

propose_run :
    execute plain_host (at 5) (from 1) (ExecuteMsg.propose 1 2 (77 ∷ []) none) empty
    ≡ ok (proposed_once, [])
unfolding execute execute_propose next_id lookup insert insert_pair update_status current_status
    is_passed is_rejected plain_host bounded_expiration yes_votes
propose_run = refl

vote_run : execute_vote plain_host (at 6) (from 2) 1 Vote.yes proposed_once ≡ ok (voted_twice, [])
unfolding execute_vote lookup insert insert_pair lookup_pair update_status current_status is_passed
    is_rejected plain_host add_vote voting_power may_vote_on
vote_run = refl

execute_run :
    execute_execute plain_host (at 99) (from 7) 1 voted_twice ≡ ok (executed_once, 77 ∷ [])
unfolding execute_execute lookup insert update_status current_status is_passed_status plain_host
execute_run = refl

empty-Inv : Inv empty
empty-Inv = instantiate-Inv plain_host two_of_three empty instantiate_run

proposed_once-Inv : Inv proposed_once
proposed_once-Inv =
    execute-Inv plain_host (at 5) (from 1) empty proposed_once [] empty-Inv
      (ExecuteMsg.propose 1 2 (77 ∷ []) none) propose_run

second_vote_run :
    execute plain_host (at 6) (from 2) (ExecuteMsg.vote 1 Vote.yes) proposed_once
    ≡ ok (voted_twice, [])
unfolding execute
second_vote_run = vote_run

voted_twice-Inv : Inv voted_twice
voted_twice-Inv =
    execute-Inv plain_host (at 6) (from 2) proposed_once voted_twice [] proposed_once-Inv
      (ExecuteMsg.vote 1 Vote.yes) second_vote_run

instantiate-Inv_example : Inv empty
instantiate-Inv_example = instantiate-Inv plain_host two_of_three empty instantiate_run

execute-Inv_example : Inv voted_twice
execute-Inv_example =
    execute-Inv plain_host (at 6) (from 2) proposed_once voted_twice [] proposed_once-Inv
      (ExecuteMsg.vote 1 Vote.yes) second_vote_run

on_record : lookup 1 voted_twice.proposals ≡ some (proposal passed 2 0)
unfolding lookup
on_record = refl

execute_execute_lem_example :
    (IsApproved plain_host (at 99) (proposal passed 2 0)
      × (execute_execute plain_host (at 99) (from 7) 1 voted_twice
          ≡ ok (
            record voted_twice {
              proposals =
                  insert 1
                    (record (proposal passed 2 0) { status = executed })
                    voted_twice.proposals;
            },
            77 ∷ [],
          )))
    ⊎ ((¬ IsApproved plain_host (at 99) (proposal passed 2 0))
        × (execute_execute plain_host (at 99) (from 7) 1 voted_twice ≡ err wrong_execute_status))
execute_execute_lem_example =
    execute_execute_lem plain_host (at 99) (from 7) voted_twice 1 (proposal passed 2 0)
      voted_twice-Inv on_record

-- The third voter proposes something else after the execution.
abbrev proposed_again : State
proposed_again =
    multisig (some 2)
      ((1, (1, ballot Vote.yes) ∷ (2, ballot Vote.yes) ∷ []) ∷ (2, (3, ballot Vote.yes) ∷ []) ∷ [])
      ((1, proposal executed 2 0)
        ∷ (2, record (proposal open_status 1 0) { start_height = 30; expires = 70; proposer = 3 })
        ∷ [])

again_run :
    execute plain_host (at 30) (from 3) (ExecuteMsg.propose 1 2 (77 ∷ []) none) executed_once
    ≡ ok (proposed_again, [])
unfolding execute execute_propose next_id lookup insert insert_pair update_status current_status
    is_passed is_rejected plain_host bounded_expiration yes_votes
again_run = refl

again : Runs plain_host executed_once proposed_again
again =
    step (at 30) (from 3) (ExecuteMsg.propose 1 2 (77 ∷ []) none) executed_once proposed_again
      proposed_again [] again_run (stop proposed_again)

execute_twice_example :
    execute_execute plain_host (at 200) (from 3) 1 proposed_again ≡ err wrong_execute_status
execute_twice_example =
    execute_twice plain_host (at 99) (at 200) (from 7) (from 3) voted_twice executed_once
      proposed_again (77 ∷ []) 1 voted_twice-Inv.issued execute_run again

dispatch_run :
    execute plain_host (at 99) (from 7) (ExecuteMsg.execute 1) voted_twice
    ≡ ok (executed_once, 77 ∷ [])
unfolding execute
dispatch_run = execute_run

vote_twice_example :
    execute_vote plain_host (at 110) (from 2) 1 Vote.no proposed_again ≢ ok (voted_twice, [])
vote_twice_example =
    vote_twice plain_host (at 6) (at 110) (from 2) (from 2) proposed_once voted_twice proposed_again
      [] 1 Vote.yes Vote.no (voted_twice, []) vote_run
      (step (at 99) (from 7) (ExecuteMsg.execute 1) voted_twice executed_once proposed_again
        (77 ∷ []) dispatch_run again)
      refl

open_on_record : lookup 1 proposed_once.proposals ≡ some (proposal open_status 1 0)
unfolding lookup
open_on_record = refl

is_voter : lookup 3 proposed_once.voters ≡ some 1
unfolding lookup
is_voter = refl

may_vote : may_vote_on open_status ≡ true
unfolding may_vote_on
may_vote = refl

is_live : plain_host.is_expired 45 (at 8).block ≡ false
unfolding plain_host
is_live = refl

no_ballot : lookup_pair 1 3 proposed_once.ballots ≡ none
unfolding lookup_pair lookup
no_ballot = refl

execute_vote_returns_example :
    (st' : State) × (execute_vote plain_host (at 8) (from 3) 1 Vote.no proposed_once ≡ ok (st', []))
    × (lookup_pair 1 3 st'.ballots ≡ some (record { weight = 1; vote = Vote.no }))
execute_vote_returns_example =
    execute_vote_returns plain_host (at 8) (from 3) proposed_once 1 1 Vote.no
      (proposal open_status 1 0) proposed_once-Inv is_voter (omega arith) open_on_record may_vote
      is_live no_ballot

query_proposal_lem_example :
    (r : ProposalResponse) × (query_proposal plain_host (at 99) 1 voted_twice ≡ ok r)
    × ((r.status ≡ passed) ↔ (
        execute_execute plain_host (at 99) (from 7) 1 voted_twice
        ≡ ok (
          record voted_twice {
            proposals =
                insert 1 (record (proposal passed 2 0) { status = executed }) voted_twice.proposals;
          },
          77 ∷ [],
        )))
query_proposal_lem_example =
    query_proposal_lem plain_host (at 99) (from 7) voted_twice 1 (proposal passed 2 0)
      voted_twice-Inv on_record

list_voters_lem_example :
    (length (list_voters (some 1) (some 1) voted_twice) ≤ 30)
    × (list_voters (some 1) (some 1) voted_twice
          ++ map voter_detail (
              range_from
                (next_start (some 1) (page (some 1) (page_size (some 1)) voted_twice.voters))
                voted_twice.voters)
        ≡ map voter_detail (range_from (some 1) voted_twice.voters))
list_voters_lem_example = list_voters_lem voted_twice (some 1) (some 1) voted_twice-Inv
