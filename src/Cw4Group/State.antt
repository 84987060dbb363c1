-- ===== src/Cw4Group/State.antt =====
-- The data of packages/cw4 and of contracts/cw4-group (msg.rs, state.rs, error.rs), and what the
-- contract takes from the crate cw_controllers.
use cw_plus.Base.{ℕ, ◌≡◌, ◌↔◌, Option, some, List, map, Result, ok}
use cw_plus.Base.Dict.{Dict}
use cw_plus.Host.{Text, Addr, StdError, Version}

-- `Member`
pub record Member : Type 0 where
  pub addr : Text
  pub weight : ℕ

-- `MemberDiff`
pub record MemberDiff : Type 0 where
  pub key : Text
  pub old : Option ℕ
  pub new : Option ℕ

-- What `MemberChangedHookMsg::into_cosmos_msg` sends to a contract.
pub record HookCall : Type 0 where
  pub contract_addr : Text
  pub diffs : List MemberDiff

-- The errors of cw_controllers: the contract only passes them on.
abbrev pub AdminError : Type 0
AdminError = ℕ

abbrev pub HookError : Type 0
HookError = ℕ

-- The storage. `members` and `total` hold the values of MEMBERS and TOTAL at the current height.
pub record State : Type 0 where
  pub version : Option Version
  pub admin : Option Addr
  pub hooks : List Addr
  pub total : Option ℕ
  pub members : Dict ℕ

-- `InstantiateMsg`
pub record InstantiateMsg : Type 0 where
  pub admin : Option Text
  pub members : List Member

-- `ExecuteMsg`
pub data ExecuteMsg : Type 0 where
  update_admin : (admin : Option Text) → ExecuteMsg
  update_members : (remove : List Text) (add : List Member) → ExecuteMsg
  add_hook : (addr : Text) → ExecuteMsg
  remove_hook : (addr : Text) → ExecuteMsg

-- `ContractError`
pub data ContractError : Type 0 where
  std : StdError → ContractError
  hook : HookError → ContractError
  admin : AdminError → ContractError
  overflow unauthorized : ContractError
  duplicate_member : Text → ContractError

abbrev pub Outcome : Type 0
Outcome = Result ContractError (State × List HookCall)

-- `Admin` and `Hooks` of cw_controllers, on what they store.
pub record Controllers : Type 0 where
  pub assert_admin : Option Addr → Addr → Result AdminError (Unit {0})
  pub assert_admin_lem :
      (a : Option ℕ) (sender : ℕ) → (assert_admin a sender ≡ ok tt) ↔ (a ≡ some sender)
  pub execute_update_admin : Option Addr → Addr → Option Addr → Result AdminError (Option Addr)
  pub execute_update_admin_lem :
      (a new a' : Option ℕ) (sender : ℕ)
      → execute_update_admin a sender new ≡ ok a'
      → (a ≡ some sender) × (a' ≡ new)
  pub execute_add_hook : Option Addr → List Addr → Addr → Addr → Result HookError (List Addr)
  pub execute_add_hook_lem :
      (a : Option ℕ) (hooks hooks' : List ℕ) (sender addr : ℕ)
      → execute_add_hook a hooks sender addr ≡ ok hooks'
      → a ≡ some sender
  pub execute_remove_hook : Option Addr → List Addr → Addr → Addr → Result HookError (List Addr)
  pub execute_remove_hook_lem :
      (a : Option ℕ) (hooks hooks' : List ℕ) (sender addr : ℕ)
      → execute_remove_hook a hooks sender addr ≡ ok hooks'
      → a ≡ some sender
  pub prepare_hooks : List Addr → (Addr → HookCall) → List HookCall
  pub prepare_hooks_lem :
      (hooks : List ℕ) (call : ℕ → HookCall) → prepare_hooks hooks call ≡ map call hooks
