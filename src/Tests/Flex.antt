-- ===== src/Tests/Flex.antt =====
-- contracts/cw3-flex-multisig on a cw4-group with two members, with a deposit of 10 on proposals.
use cw_plus.Base.{
  ℕ, ◌<◌, ◌≤◌, ◌≡◌, ◌==◌, ltb, ◌↔◌, Option, none, some, List, [], ◌∷◌, ◌++◌, map, Result, ok, err,
  refl, arith, true, inr, if◌then◌else◌,
}
use cw_plus.Base.Dict.{Dict, lookup, insert}
use cw_plus.Base.Dict.Sum.{sum_by}
use cw_plus.Base.Dict.Pairs.{lookup_pair, insert_pair}
use cw_plus.Host.{absolute_count, Addr, StdError, MessageInfo, Coin, Block, Text}
use cw_plus.Cw3.{
  Vote, Ballot, Proposal, Status, open_status, passed, executed, add_vote, yes_votes, update_status,
  current_status, is_passed, is_rejected, Denom, DepositInfo,
}
use cw_plus.Cw3.Outcome.{cast}
use cw_plus.Cw3.Deposits.{
  Payments, PaymentError, relayed, bank_send, check_native_deposit_paid, get_take_deposit_messages,
  get_return_deposit_message,
}
use cw_plus.Cw3Fixed.Handlers.{may_vote_on, is_passed_status}
use cw_plus.Cw4Group.State as group_state
use cw_plus.Cw4Group.State.{Member}
use cw_plus.Cw4Group.Sums.{IsSummed, weight_sum}
use cw_plus.Cw3Flex.State.{
  Querier, member, Config, State, ExecuteMsg, wrong_execute_status, wrong_close_status, next_id,
  is_member, is_voting_member, authorize,
}
use cw_plus.Cw3Flex.Handlers.{
  execute, execute_propose, execute_vote, execute_execute, execute_close, bounded_expiration,
  deposit_paid, take_deposit, return_deposit,
}
use cw_plus.Cw3Flex.History as history
use cw_plus.Cw3Flex.History.{AreIssued}
use cw_plus.Cw3Flex.Refunds.{IsTaken, refund, final_is_refused, execute_propose-execute_execute}
use cw_plus.Cw3Flex.Executors.{MayExecute, HasPassed, execute_execute-MayExecute}
use cw_plus.Cw3Flex.Snapshots as snapshots
use cw_plus.Cw3Flex.Grouped.{querier_of, execute_propose-Runs_grouped}
use cw_plus.Tests.{plain_host, at, from}

-- `must_pay` of one coin; the error is numbered 2.
abbrev one_coin : List Coin → Text → Result PaymentError ℕ
one_coin [] d = err 2
one_coin (c ∷ []) d =
    if c.denom == d then (if ltb 0 c.amount then ok c.amount else err 2) else err 2
one_coin (_ ∷ _ ∷ _) d = err 2

one_coin_lem :
    (funds : List Coin) (d n : ℕ)
    → (one_coin funds d ≡ ok n) ↔ ((funds ≡ record { denom = d; amount = n } ∷ []) × (0 < n))
one_coin_lem [] d n = ground arith
one_coin_lem (c ∷ []) d n = (λ e. ground arith, λ e. ground arith)
one_coin_lem (c ∷ c' ∷ cs) d n = ground arith

abbrev plain_payments : Payments
plain_payments = record {
  must_pay = λ info d. one_coin info.funds d;
  must_pay_lem = λ info d n. one_coin_lem info.funds d n;
}

-- A group of the accounts 3 and 5, which does not change.
abbrev group : group_state.State
group = record {
  version = some 20;
  admin = none;
  hooks = [];
  total = some 7;
  members = (3, 2) ∷ (5, 5) ∷ [];
}

group-IsSummed : IsSummed group
unfolding sum_by
group-IsSummed = record { is_map = omega arith; summed = refl; is_u64 = omega arith }

abbrev past : Addr → Option ℕ → Result StdError (Option ℕ)
past a height = ok (lookup a group.members)

abbrev listed : Option Text → Option ℕ → Result StdError (List Member)
listed start limit = ok []

abbrev no_token : Addr → Result StdError (Unit {0})
no_token a = err StdError.not_found

abbrev answers : Querier
answers = querier_of past listed no_token group

abbrev fee : DepositInfo
fee = record { amount = 10; denom = Denom.native 1; refund_failed_proposals = true }

abbrev config : Config
config = record {
  threshold = absolute_count 6;
  max_voting_period = 40;
  group_addr = 800;
  executor = some member;
  proposal_deposit = some fee;
}

abbrev multisig : Option ℕ → Dict (Dict Ballot) → Dict Proposal → State
multisig count ballots proposals = record {
  version = some 20;
  config = some config;
  proposal_count = count;
  ballots = ballots;
  proposals = proposals;
}

abbrev proposal : Status → ℕ → Proposal
proposal status for = record {
  title = 1;
  description = 2;
  start_height = 5;
  expires = 45;
  msgs = 77 ∷ 78 ∷ [];
  status = status;
  threshold = absolute_count 6;
  total_weight = 7;
  votes = record { yes = for; no = 0; abstain = 0; veto = 0 };
  proposer = 3;
  deposit = some fee;
}

abbrev first : Ballot
first = record { weight = 2; vote = Vote.yes }

abbrev second : Ballot
second = record { weight = 5; vote = Vote.yes }

abbrev empty : State
empty = multisig none [] []

abbrev proposed : State
proposed = multisig (some 1) ((1, (3, first) ∷ []) ∷ []) ((1, proposal open_status 2) ∷ [])

abbrev voted : State
voted = multisig (some 1) ((1, (3, first) ∷ (5, second) ∷ []) ∷ []) ((1, proposal passed 7) ∷ [])

abbrev done : State
done = multisig (some 1) ((1, (3, first) ∷ (5, second) ∷ []) ∷ []) ((1, proposal executed 7) ∷ [])

abbrev pays : ℕ → MessageInfo
pays amount = record { sender = 3; funds = record { denom = 1; amount = amount } ∷ [] }

propose_run :
    execute_propose plain_host plain_payments answers (at 5) (pays 10) 1 2 (77 ∷ 78 ∷ []) none empty
    ≡ ok (proposed, [])
unfolding plain_host execute_propose is_member deposit_paid check_native_deposit_paid take_deposit
    get_take_deposit_messages bounded_expiration next_id update_status current_status is_passed
    is_rejected yes_votes insert insert_pair lookup
propose_run = refl

vote_run :
    execute plain_host plain_payments answers (at 6) (from 5) (ExecuteMsg.vote 1 Vote.yes) proposed
    ≡ ok (voted, [])
unfolding plain_host execute execute_vote is_voting_member may_vote_on update_status current_status
    is_passed is_rejected add_vote lookup insert insert_pair lookup_pair
vote_run = refl

execute_run :
    execute_execute plain_host plain_payments answers (at 50) (from 5) 1 voted
    ≡ ok (done, bank_send 3 10 1 ∷ relayed 77 ∷ relayed 78 ∷ [])
unfolding plain_host execute_execute authorize is_member is_passed_status update_status
    current_status is_passed is_rejected return_deposit get_return_deposit_message lookup insert
execute_run = refl

empty-AreIssued : AreIssued empty
unfolding lookup
empty-AreIssued id p e = absurd (ground arith)

done-AreIssued : AreIssued done
unfolding lookup
done-AreIssued id p e = ground arith

final_is_refused_example :
    (execute_execute plain_host plain_payments answers (at 51) (from 5) 1 done
      ≡ err wrong_execute_status)
    × (execute_close plain_host plain_payments answers (at 51) (from 5) 1 done
        ≡ err wrong_close_status)
unfolding lookup
final_is_refused_example =
    final_is_refused plain_host plain_payments answers (at 51) (from 5) done done 1
      (proposal executed 7) done-AreIssued (history.Runs.stop done) refl (inr refl)

execute_propose-execute_execute_example :
    IsTaken 900 (pays 10) (some fee) []
    × (bank_send 3 10 1 ∷ relayed 77 ∷ relayed 78 ∷ []
        ≡ refund 3 (some fee) ++ map relayed (77 ∷ 78 ∷ []))
execute_propose-execute_execute_example =
    execute_propose-execute_execute plain_host plain_payments answers answers (at 5) (at 50)
      (pays 10) (from 5) config empty proposed voted done []
      (bank_send 3 10 1 ∷ relayed 77 ∷ relayed 78 ∷ []) 1 2 (77 ∷ 78 ∷ []) none empty-AreIssued refl
      (omega arith) propose_run
      (history.Runs.step answers (at 6) (from 5) (ExecuteMsg.vote 1 Vote.yes) proposed voted voted
        [] vote_run (history.Runs.stop voted))
      execute_run

execute_execute-MayExecute_example :
    MayExecute answers 800 (some member) 5
    × ((p : Proposal) × (lookup 1 voted.proposals ≡ some p) × HasPassed plain_host (at 50).block p)
execute_execute-MayExecute_example =
    execute_execute-MayExecute plain_host plain_payments answers (at 50) (from 5) config voted done
      (bank_send 3 10 1 ∷ relayed 77 ∷ relayed 78 ∷ []) 1 refl execute_run

execute_propose-Runs_grouped_example :
    (p : Proposal) × (lookup 1 voted.proposals ≡ some p)
    × (cast p.votes ≤ weight_sum group.members)
    × ((b : Block) → (s : Status) × (current_status plain_host p b ≡ some s))
unfolding sum_by lookup
execute_propose-Runs_grouped_example =
    execute_propose-Runs_grouped plain_host plain_payments (at 5) (pays 10) config past listed
      no_token group empty proposed voted [] 1 2 (77 ∷ 78 ∷ []) none group-IsSummed (omega arith)
      refl empty-AreIssued refl propose_run
      (snapshots.Runs.step answers (at 6) (from 5) (ExecuteMsg.vote 1 Vote.yes) proposed voted voted
        [] (λ a. refl) vote_run (snapshots.Runs.stop voted))
