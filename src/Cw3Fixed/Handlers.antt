-- ===== src/Cw3Fixed/Handlers.antt =====
-- `instantiate` and `execute` of contracts/cw3-fixed-multisig/src/contract.rs.
use cw_plus.Base.{
  ℕ, Bool, true, false, not, Option, none, some, List, [], ◌∷◌, Result, ok, err, ◌>>=◌, ◌>>◌, ok_or,
  or_panic, map_err, ensure, leb, add_u64, unwrap_or, Ordering, if◌then◌else◌, is_none,
}
use cw_plus.Base.Dict.{Dict, lookup, insert}
use cw_plus.Base.Dict.Pairs.{lookup_pair, insert_pair}
use cw_plus.Host.{Host, Text, Expiration, CosmosMsg, StdError, Env, MessageInfo}
use cw_plus.Cw3.{
  Vote, Status, open_status, rejected, passed, executed, yes_votes, add_vote, update_status,
  current_status,
}
use cw_plus.Cw3Fixed.State.{
  State, Voter, InstantiateMsg, ExecuteMsg, ContractError, std, threshold, no_voters, unauthorized,
  not_open, expired, not_expired, wrong_expiration, already_voted, wrong_execute_status,
  wrong_close_status, Outcome, next_id,
}

-- `msg.voters.iter().map(|v| v.weight).sum()`
unfoldable pub sum_weights : ℕ → List Voter → Option ℕ
sum_weights acc [] = some acc
sum_weights acc (v ∷ vs) = elim (add_u64 acc v.weight) [ none ↦ none | some n ↦ sum_weights n vs ]

-- The loop that saves the voters.
unfoldable pub save_voters : Host → List Voter → Dict ℕ → Result ContractError (Dict ℕ)
save_voters h [] voters = ok voters
save_voters h (v ∷ vs) voters = do
  key ← map_err std (h.addr_validate v.addr)
  save_voters h vs (insert key v.weight voters)

has_voters : List Voter → Bool
has_voters [] = false
has_voters (_ ∷ _) = true

unfoldable pub instantiate : Host → InstantiateMsg → Result ContractError State
unfolding has_voters
instantiate h msg = do
  ensure (has_voters msg.voters) no_voters
  total_weight ← or_panic (sum_weights 0 msg.voters)
  map_err threshold (h.validate msg.threshold total_weight)
  voters ← save_voters h msg.voters []
  ok (record {
    version = some h.contract_version;
    config = some (record {
      threshold = msg.threshold;
      total_weight = total_weight;
      max_voting_period = msg.max_voting_period;
    });
    proposal_count = none;
    ballots = [];
    proposals = [];
    voters = voters;
  })

-- The expiration of a new proposal: `latest`, but at most the longest voting period.
unfoldable pub bounded_expiration : Host → Expiration → Expiration → Result ContractError Expiration
bounded_expiration h expires max_expires = elim (h.partial_cmp expires max_expires) [
  | none ↦ err wrong_expiration
  | some c ↦ elim c [ Ordering.gt ↦ ok max_expires | _ ↦ ok expires ]
]

-- `[Status::Open, Status::Passed, Status::Rejected].contains(…)`
unfoldable pub may_vote_on : Status → Bool
may_vote_on open_status = true
may_vote_on passed = true
may_vote_on rejected = true
may_vote_on _ = false

unfoldable pub is_passed_status : Status → Bool
is_passed_status passed = true
is_passed_status _ = false

-- `[Status::Executed, Status::Rejected, Status::Passed].contains(…)`
unfoldable pub is_settled : Status → Bool
is_settled executed = true
is_settled rejected = true
is_settled passed = true
is_settled _ = false

-- `match voter_power { Some(power) if power >= 1 => power, _ => return Err(…) }`
unfoldable pub voting_power : Option ℕ → Result ContractError ℕ
voting_power none = err unauthorized
voting_power (some power) = if leb 1 power then ok power else err unauthorized

module _ (h : Host) where
  unfoldable pub execute_propose :
      Env → MessageInfo → Text → Text → List CosmosMsg → Option Expiration → State → Outcome
  unfolding next_id
  execute_propose env info title description msgs latest st = do
    vote_power ← ok_or (lookup info.sender st.voters) unauthorized
    cfg ← ok_or st.config (std StdError.not_found)
    max_expires ← or_panic (h.after cfg.max_voting_period env.block)
    expires ← bounded_expiration h (unwrap_or latest max_expires) max_expires
    prop ← or_panic (
        update_status h
          (record {
            title = title;
            description = description;
            start_height = env.block.height;
            expires = expires;
            msgs = msgs;
            status = open_status;
            threshold = cfg.threshold;
            total_weight = cfg.total_weight;
            votes = yes_votes vote_power;
            proposer = info.sender;
            deposit = none;
          })
          env.block)
    (id, counted) ← next_id st
    ok (
      record counted {
        proposals = insert id prop st.proposals;
        ballots =
            insert_pair id info.sender (record { weight = vote_power; vote = Vote.yes }) st.ballots;
      },
      [],
    )

  unfoldable pub execute_vote : Env → MessageInfo → ℕ → Vote → State → Outcome
  execute_vote env info proposal_id vote st = do
    vote_power ← voting_power (lookup info.sender st.voters)
    prop ← ok_or (lookup proposal_id st.proposals) (std StdError.not_found)
    ensure (may_vote_on prop.status) not_open
    ensure (not (h.is_expired prop.expires env.block)) expired
    ensure (is_none (lookup_pair proposal_id info.sender st.ballots)) already_voted
    votes ← or_panic (add_vote vote vote_power prop.votes)
    prop' ← or_panic (update_status h (record prop { votes = votes }) env.block)
    ok (
      record st {
        ballots =
            insert_pair proposal_id info.sender (record { weight = vote_power; vote = vote })
              st.ballots;
        proposals = insert proposal_id prop' st.proposals;
      },
      [],
    )

  unfoldable pub execute_execute : Env → MessageInfo → ℕ → State → Outcome
  execute_execute env info proposal_id st = do
    prop ← ok_or (lookup proposal_id st.proposals) (std StdError.not_found)
    prop' ← or_panic (update_status h prop env.block)
    ensure (is_passed_status prop'.status) wrong_execute_status
    ok (
      record st {
        proposals = insert proposal_id (record prop' { status = executed }) st.proposals;
      },
      prop'.msgs,
    )

  unfoldable pub execute_close : Env → MessageInfo → ℕ → State → Outcome
  execute_close env info proposal_id st = do
    prop ← ok_or (lookup proposal_id st.proposals) (std StdError.not_found)
    ensure (not (is_settled prop.status)) wrong_close_status
    status ← or_panic (current_status h prop env.block)
    ensure (not (is_passed_status status)) wrong_close_status
    ensure (h.is_expired prop.expires env.block) not_expired
    ok (
      record st { proposals = insert proposal_id (record prop { status = rejected }) st.proposals },
      [],
    )

  unfoldable pub execute : Env → MessageInfo → ExecuteMsg → State → Outcome
  execute env info (ExecuteMsg.propose title description msgs latest) st =
      execute_propose env info title description msgs latest st
  execute env info (ExecuteMsg.vote proposal_id vote) st = execute_vote env info proposal_id vote st
  execute env info (ExecuteMsg.execute proposal_id) st = execute_execute env info proposal_id st
  execute env info (ExecuteMsg.close proposal_id) st = execute_close env info proposal_id st
