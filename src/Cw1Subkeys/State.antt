-- ===== src/Cw1Subkeys/State.antt =====
-- state.rs, msg.rs and error.rs of contracts/cw1-subkeys, the messages that it looks into, and what
-- it takes from cw_utils (`NativeBalance`) and semver.
use cw_plus.Base.{
  ℕ, ◌+◌, ◌≤◌, ◌≡◌, ◌≢◌, ◌==◌, Bool, true, Option, some, List, [], ◌∷◌, Result, ok, if◌then◌else◌,
}
use cw_plus.Base.Dict.{Dict}
use cw_plus.Host.{Text, Expiration, StdError, Coin, CosmosMsg, Version}
use cw_plus.Cw1Whitelist.State as whitelist_state

-- `NativeBalance` of cw_utils
abbrev pub NativeBalance : Type 0
NativeBalance = List Coin

-- How much of a denomination a list of coins holds.
abbrev pub amount_of : Text → List Coin → ℕ
amount_of d [] = 0
amount_of d (c ∷ cs) = (if d == c.denom then c.amount else 0) + amount_of d cs

-- The operations on a `NativeBalance`, and semver's: `sub` by coins, `add_assign` of a coin, which
-- panics where there is no sum, and `sub_saturating` of a coin.
pub record Wallets : Type 0 where
  pub sub : NativeBalance → List Coin → Result StdError NativeBalance
  pub sub_lem :
      (b b' coins : List Coin) (d : ℕ)
      → sub b coins ≡ ok b'
      → amount_of d b' + amount_of d coins ≡ amount_of d b
  pub add_assign : NativeBalance → Coin → Option NativeBalance
  pub add_assign_lem :
      (b b' : List Coin) (c : Coin) (d : ℕ)
      → add_assign b c ≡ some b'
      → amount_of d b' ≡ amount_of d b + (if d == c.denom then c.amount else 0)
  pub sub_saturating : NativeBalance → Coin → Result StdError NativeBalance
  pub sub_saturating_lem :
      (b b' : List Coin) (c : Coin) (d : ℕ)
      → sub_saturating b c ≡ ok b'
      → (amount_of d b' ≤ amount_of d b) × (d ≢ c.denom → amount_of d b' ≡ amount_of d b)
  pub is_empty : NativeBalance → Bool
  pub is_empty_lem : (b : List Coin) (d : ℕ) → is_empty b ≡ true → amount_of d b ≡ 0
  -- `get_contract_version` of cw2, the parser of versions, and their order
  pub get_contract_version : Option Version → Result StdError Version
  pub parse_version : Version → Result Text Version
  pub is_older : Version → Version → Bool

-- `StakingMsg`, `DistributionMsg` and `CosmosMsg`, as far as the contract looks into them.
pub data StakingMsg : Type 0 where
  delegate undelegate : (validator : Text) (amount : Coin) → StakingMsg
  redelegate : (src_validator dst_validator : Text) (amount : Coin) → StakingMsg
  other_staking : ℕ → StakingMsg

pub data DistributionMsg : Type 0 where
  set_withdraw_address : (address : Text) → DistributionMsg
  withdraw_delegator_reward : (validator : Text) → DistributionMsg
  other_distribution : ℕ → DistributionMsg

pub data Message : Type 0 where
  staking : StakingMsg → Message
  distribution : DistributionMsg → Message
  bank_send : (to_address : Text) (amount : List Coin) → Message
  other : CosmosMsg → Message

-- `Permissions`
pub record Permissions : Type 0 where
  pub delegate : Bool
  pub redelegate : Bool
  pub undelegate : Bool
  pub withdraw : Bool

-- `Allowance`
pub record Allowance : Type 0 where
  pub balance : NativeBalance
  pub expires : Expiration

-- The storage: that of cw1-whitelist, PERMISSIONS and ALLOWANCES.
pub record State : Type 0 where
  pub whitelist : whitelist_state.State
  pub permissions : Dict Permissions
  pub allowances : Dict Allowance

-- `ExecuteMsg`
pub data ExecuteMsg : Type 0 where
  execute : (msgs : List Message) → ExecuteMsg
  freeze : ExecuteMsg
  update_admins : (admins : List Text) → ExecuteMsg
  increase_allowance decrease_allowance :
      (spender : Text) (amount : Coin) (expires : Option Expiration) → ExecuteMsg
  set_permissions : (spender : Text) (permissions : Permissions) → ExecuteMsg

-- `ContractError`
pub data ContractError : Type 0 where
  std : StdError → ContractError
  unauthorized cannot_set_own_account not_allowed no_allowance : ContractError
  message_type_rejected delegate_perm re_delegate_perm un_delegate_perm : ContractError
  withdraw_perm withdraw_addr_perm unsupported_message : ContractError
  setting_expired_allowance : Expiration → ContractError
  sem_ver : Text → ContractError

-- `From<cw1_whitelist::ContractError>`
abbrev pub from_whitelist : whitelist_state.ContractError → ContractError
from_whitelist (whitelist_state.std e) = std e
from_whitelist whitelist_state.unauthorized = unauthorized

abbrev pub Outcome : Type 0
Outcome = Result ContractError (State × List Message)
