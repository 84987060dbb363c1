-- ===== src/Cw3Fixed/State.antt =====
-- state.rs, msg.rs and error.rs of contracts/cw3-fixed-multisig.
use cw_plus.Base.{ℕ, Option, some, List, Result, ok, ◌>>=◌, or_panic, unwrap_or, add_u64}
use cw_plus.Base.Dict.{Dict}
use cw_plus.Host.{
  Text, Duration, Expiration, CosmosMsg, Threshold, ThresholdError, StdError, Version,
}
use cw_plus.Cw3.{Ballot, Proposal, Vote}

-- `Config`
pub record Config : Type 0 where
  pub threshold : Threshold
  pub total_weight : ℕ
  pub max_voting_period : Duration

-- The storage: an item or a map for each constant of state.rs, and the version that cw2 stores.
-- `ballots` is keyed by proposal and voter.
pub record State : Type 0 where
  pub version : Option Version
  pub config : Option Config
  pub proposal_count : Option ℕ
  pub ballots : Dict (Dict Ballot)
  pub proposals : Dict Proposal
  pub voters : Dict ℕ

-- `Voter`
pub record Voter : Type 0 where
  pub addr : Text
  pub weight : ℕ

-- `InstantiateMsg`
pub record InstantiateMsg : Type 0 where
  pub voters : List Voter
  pub threshold : Threshold
  pub max_voting_period : Duration

-- `ExecuteMsg`
pub data ExecuteMsg : Type 0 where
  propose :
      (title description : Text) (msgs : List CosmosMsg) (latest : Option Expiration) → ExecuteMsg
  vote : (proposal_id : ℕ) (vote : Vote) → ExecuteMsg
  execute : (proposal_id : ℕ) → ExecuteMsg
  close : (proposal_id : ℕ) → ExecuteMsg

-- `ContractError`
pub data ContractError : Type 0 where
  std : StdError → ContractError
  threshold : ThresholdError → ContractError
  zero_weight unreachable_weight no_voters unauthorized not_open expired not_expired : ContractError
  wrong_expiration already_voted wrong_execute_status wrong_close_status : ContractError

-- What a handler returns: the state, and the messages that it dispatches.
abbrev pub Outcome : Type 0
Outcome = Result ContractError (State × List CosmosMsg)

-- `next_id`
unfoldable pub next_id : State → Result ContractError (ℕ × State)
next_id st = do
  id ← or_panic (add_u64 (unwrap_or st.proposal_count 0) 1)
  ok (id, record st { proposal_count = some id })
