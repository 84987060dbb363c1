-- ===== src/Cw3Flex/Handlers.antt =====
-- contracts/cw3-flex-multisig/src/contract.rs: `instantiate`, `execute` and its handlers.
use cw_plus.Base.{
  ℕ, not, ◌==◌, ◌++◌, map, Option, none, some, List, [], ◌∷◌, Result, ok, err, ◌>>=◌, ◌>>◌, ok_or,
  or_panic, map_err, ensure, unwrap_or, Ordering, if◌then◌else◌, is_none,
}
use cw_plus.Base.Dict.{lookup, insert}
use cw_plus.Base.Dict.Pairs.{lookup_pair, insert_pair}
use cw_plus.Host.{Host, Text, Addr, Expiration, CosmosMsg, StdError, Env, MessageInfo}
use cw_plus.Cw3.{
  Vote, open_status, rejected, executed, yes_votes, add_vote, update_status, current_status,
  DepositInfo,
}
use cw_plus.Cw3.Deposits.{
  UncheckedDepositInfo, Payments, Message, relayed, into_checked, check_native_deposit_paid,
  get_take_deposit_messages, get_return_deposit_message, replace_err,
}
use cw_plus.Cw4Group.State.{MemberDiff}
use cw_plus.Cw3Fixed.Handlers.{may_vote_on, is_passed_status, is_settled}
use cw_plus.Cw3Flex.State.{
  Querier, State, InstantiateMsg, ExecuteMsg, ContractError, std, threshold, invalid_group,
  unauthorized, not_open, expired, not_expired, wrong_expiration, already_voted,
  wrong_execute_status, wrong_close_status, deposit, Outcome, next_id, is_member, is_voting_member,
  authorize,
}

module _ (h : Host) (q : Querier) where
  -- `msg.proposal_deposit.map(…).transpose()?`
  unfoldable pub checked_deposit :
      Option UncheckedDepositInfo → Result ContractError (Option DepositInfo)
  checked_deposit none = ok none
  checked_deposit (some d) = do
    checked ← map_err deposit (into_checked h q.token_info d)
    ok (some checked)

  unfoldable pub instantiate : InstantiateMsg → Result ContractError State
  instantiate msg = do
    group_addr ← replace_err (invalid_group msg.group_addr) (h.addr_validate msg.group_addr)
    total_weight ← map_err std (q.total_weight group_addr)
    map_err threshold (h.validate msg.threshold total_weight)
    proposal_deposit ← checked_deposit msg.proposal_deposit
    ok (record {
      version = some h.contract_version;
      config = some (record {
        threshold = msg.threshold;
        max_voting_period = msg.max_voting_period;
        group_addr = group_addr;
        executor = msg.executor;
        proposal_deposit = proposal_deposit;
      });
      proposal_count = none;
      ballots = [];
      proposals = [];
    })

-- The expiration of a new proposal: `latest`, but at most the longest voting period.
unfoldable pub bounded_expiration : Host → Expiration → Expiration → Result ContractError Expiration
bounded_expiration h expires max_expires = elim (h.partial_cmp expires max_expires) [
  | none ↦ err wrong_expiration
  | some c ↦ elim c [ Ordering.gt ↦ ok max_expires | _ ↦ ok expires ]
]

-- The deposit's checks and messages, where there is a deposit.
unfoldable pub deposit_paid :
    Payments → MessageInfo → Option DepositInfo → Result ContractError (Unit {0})
deposit_paid pay info none = ok tt
deposit_paid pay info (some d) = map_err deposit (check_native_deposit_paid pay info d)

unfoldable pub take_deposit : Addr → Addr → Option DepositInfo → List Message
take_deposit depositor contract none = []
take_deposit depositor contract (some d) = get_take_deposit_messages depositor contract d

unfoldable pub return_deposit : Addr → Option DepositInfo → List Message
return_deposit depositor none = []
return_deposit depositor (some d) = get_return_deposit_message depositor d ∷ []

-- The deposit that `execute_close` returns.
unfoldable pub refundable : Option DepositInfo → Option DepositInfo
refundable none = none
refundable (some d) = if d.refund_failed_proposals then some d else none

module _ (h : Host) (pay : Payments) (q : Querier) where
  unfoldable pub execute_propose :
      Env → MessageInfo → Text → Text → List CosmosMsg → Option Expiration → State → Outcome
  unfolding next_id
  execute_propose env info title description msgs latest st = do
    cfg ← ok_or st.config (std StdError.not_found)
    deposit_paid pay info cfg.proposal_deposit
    found ← map_err std (is_member q cfg.group_addr info.sender none)
    vote_power ← ok_or found unauthorized
    max_expires ← or_panic (h.after cfg.max_voting_period env.block)
    expires ← bounded_expiration h (unwrap_or latest max_expires) max_expires
    let taken = take_deposit info.sender env.contract cfg.proposal_deposit
    total_weight ← map_err std (q.total_weight cfg.group_addr)
    prop ← or_panic (
        update_status h
          (record {
            title = title;
            description = description;
            start_height = env.block.height;
            expires = expires;
            msgs = msgs;
            status = open_status;
            threshold = cfg.threshold;
            total_weight = total_weight;
            votes = yes_votes vote_power;
            proposer = info.sender;
            deposit = cfg.proposal_deposit;
          })
          env.block)
    (id, counted) ← next_id st
    ok (
      record counted {
        proposals = insert id prop st.proposals;
        ballots =
            insert_pair id info.sender (record { weight = vote_power; vote = Vote.yes }) st.ballots;
      },
      taken,
    )

  unfoldable pub execute_vote : Env → MessageInfo → ℕ → Vote → State → Outcome
  execute_vote env info proposal_id vote st = do
    cfg ← ok_or st.config (std StdError.not_found)
    prop ← ok_or (lookup proposal_id st.proposals) (std StdError.not_found)
    ensure (may_vote_on prop.status) not_open
    ensure (not (h.is_expired prop.expires env.block)) expired
    found ← map_err std (is_voting_member q cfg.group_addr info.sender (some prop.start_height))
    vote_power ← ok_or found unauthorized
    ensure (is_none (lookup_pair proposal_id info.sender st.ballots)) already_voted
    votes ← or_panic (add_vote vote vote_power prop.votes)
    prop' ← or_panic (update_status h (record prop { votes = votes }) env.block)
    ok (
      record st {
        ballots =
            insert_pair proposal_id info.sender (record { weight = vote_power; vote = vote })
              st.ballots;
        proposals = insert proposal_id prop' st.proposals;
      },
      [],
    )

  unfoldable pub execute_execute : Env → MessageInfo → ℕ → State → Outcome
  execute_execute env info proposal_id st = do
    prop ← ok_or (lookup proposal_id st.proposals) (std StdError.not_found)
    prop' ← or_panic (update_status h prop env.block)
    ensure (is_passed_status prop'.status) wrong_execute_status
    cfg ← ok_or st.config (std StdError.not_found)
    authorize q cfg info.sender
    ok (
      record st {
        proposals = insert proposal_id (record prop' { status = executed }) st.proposals;
      },
      return_deposit prop'.proposer prop'.deposit ++ map relayed prop'.msgs,
    )

  unfoldable pub execute_close : Env → MessageInfo → ℕ → State → Outcome
  execute_close env info proposal_id st = do
    prop ← ok_or (lookup proposal_id st.proposals) (std StdError.not_found)
    ensure (not (is_settled prop.status)) wrong_close_status
    status ← or_panic (current_status h prop env.block)
    ensure (not (is_passed_status status)) wrong_close_status
    ensure (h.is_expired prop.expires env.block) not_expired
    ok (
      record st { proposals = insert proposal_id (record prop { status = rejected }) st.proposals },
      return_deposit prop.proposer (refundable prop.deposit),
    )

  unfoldable pub execute_membership_hook : Env → MessageInfo → List MemberDiff → State → Outcome
  execute_membership_hook env info diffs st = do
    cfg ← ok_or st.config (std StdError.not_found)
    ensure (info.sender == cfg.group_addr) unauthorized
    ok (st, [])

  unfoldable pub execute : Env → MessageInfo → ExecuteMsg → State → Outcome
  execute env info (ExecuteMsg.propose title description msgs latest) st =
      execute_propose env info title description msgs latest st
  execute env info (ExecuteMsg.vote proposal_id vote) st = execute_vote env info proposal_id vote st
  execute env info (ExecuteMsg.execute proposal_id) st = execute_execute env info proposal_id st
  execute env info (ExecuteMsg.close proposal_id) st = execute_close env info proposal_id st
  execute env info (ExecuteMsg.member_changed_hook diffs) st =
      execute_membership_hook env info diffs st
