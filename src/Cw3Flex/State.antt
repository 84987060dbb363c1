-- ===== src/Cw3Flex/State.antt =====
-- state.rs, msg.rs and error.rs of contracts/cw3-flex-multisig, with the items of
-- contracts/cw3-fixed-multisig/src/state.rs that it keeps its proposals in, and what it queries.
use cw_plus.Base.{
  ℕ, ◌==◌, leb, Option, none, some, List, Result, ok, ◌>>=◌, ensure, or_panic, map_err, ok_or,
  unwrap_or, add_u64, if◌then◌else◌,
}
use cw_plus.Base.Dict.{Dict}
use cw_plus.Host.{
  Text, Addr, Duration, Expiration, CosmosMsg, Threshold, ThresholdError, StdError, Version,
}
use cw_plus.Cw3.{Ballot, Proposal, Vote, DepositInfo}
use cw_plus.Cw3.Deposits.{UncheckedDepositInfo, DepositError, PaymentError, Message}
use cw_plus.Cw4Group.State.{Member, MemberDiff}

-- What other contracts answer at the time of a call: a group's total weight, the weight of a
-- member now and at a height, its members, and whether an address is a cw20.
pub record Querier : Type 0 where
  pub total_weight : Addr → Result StdError ℕ
  pub current_weight : Addr → Addr → Result StdError (Option ℕ)
  pub member_at_height : Addr → Addr → Option ℕ → Result StdError (Option ℕ)
  pub list_members : Addr → Option Text → Option ℕ → Result StdError (List Member)
  pub token_info : Addr → Result StdError (Unit {0})

-- `Executor`
pub data Executor : Type 0 where
  member : Executor
  only : Addr → Executor

-- `Config`
pub record Config : Type 0 where
  pub threshold : Threshold
  pub max_voting_period : Duration
  pub group_addr : Addr
  pub executor : Option Executor
  pub proposal_deposit : Option DepositInfo

-- The storage: CONFIG, and PROPOSAL_COUNT, BALLOTS and PROPOSALS of the fixed multisig.
pub record State : Type 0 where
  pub version : Option Version
  pub config : Option Config
  pub proposal_count : Option ℕ
  pub ballots : Dict (Dict Ballot)
  pub proposals : Dict Proposal

-- `InstantiateMsg`
pub record InstantiateMsg : Type 0 where
  pub group_addr : Text
  pub threshold : Threshold
  pub max_voting_period : Duration
  pub executor : Option Executor
  pub proposal_deposit : Option UncheckedDepositInfo

-- `ExecuteMsg`
pub data ExecuteMsg : Type 0 where
  propose :
      (title description : Text) (msgs : List CosmosMsg) (latest : Option Expiration) → ExecuteMsg
  vote : (proposal_id : ℕ) (vote : Vote) → ExecuteMsg
  execute : (proposal_id : ℕ) → ExecuteMsg
  close : (proposal_id : ℕ) → ExecuteMsg
  member_changed_hook : (diffs : List MemberDiff) → ExecuteMsg

-- `ContractError`
pub data ContractError : Type 0 where
  std : StdError → ContractError
  threshold : ThresholdError → ContractError
  invalid_group : Text → ContractError
  unauthorized not_open expired not_expired wrong_expiration already_voted : ContractError
  wrong_execute_status wrong_close_status : ContractError
  payment : PaymentError → ContractError
  deposit : DepositError → ContractError

-- What a handler returns: the state, and the messages that it dispatches.
abbrev pub Outcome : Type 0
Outcome = Result ContractError (State × List Message)

-- `next_id`
unfoldable pub next_id : State → Result ContractError (ℕ × State)
next_id st = do
  id ← or_panic (add_u64 (unwrap_or st.proposal_count 0) 1)
  ok (id, record st { proposal_count = some id })

module _ (q : Querier) where
  -- `Cw4Contract::is_member`
  unfoldable pub is_member : Addr → Addr → Option ℕ → Result StdError (Option ℕ)
  is_member group addr none = q.current_weight group addr
  is_member group addr (some height) = q.member_at_height group addr (some height)

  -- `Cw4Contract::is_voting_member`
  unfoldable pub is_voting_member : Addr → Addr → Option ℕ → Result StdError (Option ℕ)
  is_voting_member group addr height = do
    found ← q.member_at_height group addr height
    ok (elim found [ none ↦ none | some weight ↦ if leb 1 weight then some weight else none ])

  -- `Config::authorize`
  unfoldable pub authorize : Config → Addr → Result ContractError (Unit {0})
  authorize cfg sender = elim cfg.executor [
    | none ↦ ok tt
    | some executor ↦ elim executor [
      | member ↦ do
        found ← map_err std (is_member cfg.group_addr sender none)
        weight ← ok_or found unauthorized
        ok tt
      | only addr ↦ ensure (addr == sender) unauthorized
    ]
  ]
