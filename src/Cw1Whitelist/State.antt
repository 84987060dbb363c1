-- ===== src/Cw1Whitelist/State.antt =====
-- state.rs, msg.rs and error.rs of contracts/cw1-whitelist.
use cw_plus.Base.{Bool, Option, List, Result}
use cw_plus.Host.{Text, Addr, StdError, CosmosMsg, Version}

-- `AdminList`
pub record AdminList : Type 0 where
  pub admins : List Addr
  pub mutable : Bool

-- The storage: ADMIN_LIST, and the version that cw2 stores.
pub record State : Type 0 where
  pub version : Option Version
  pub admin_list : Option AdminList

-- `InstantiateMsg`
pub record InstantiateMsg : Type 0 where
  pub admins : List Text
  pub mutable : Bool

-- `ExecuteMsg`
pub data ExecuteMsg : Type 0 where
  execute : (msgs : List CosmosMsg) → ExecuteMsg
  freeze : ExecuteMsg
  update_admins : (admins : List Text) → ExecuteMsg

-- `ContractError`
pub data ContractError : Type 0 where
  std : StdError → ContractError
  unauthorized : ContractError

abbrev pub Outcome : Type 0
Outcome = Result ContractError (State × List CosmosMsg)
