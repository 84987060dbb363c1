-- ===== src/Cw1Subkeys/Handlers.antt =====
-- The handlers and queries of contracts/cw1-subkeys/src/contract.rs.
use cw_plus.Base.{
  ◌==◌, not, Option, none, some, List, [], ◌∷◌, map, Result, ok, err, ◌>>=◌, ◌>>◌, ok_or, or_panic,
  map_err, ensure, unwrap_or, if◌then◌else◌,
}
use cw_plus.Base.Dict.{lookup, insert, erase}
use cw_plus.Host.{Host, Text, Addr, Expiration, StdError, Coin, Block, Env, MessageInfo}
use cw_plus.Cw1Whitelist.State as whitelist_state
use cw_plus.Cw1Whitelist.Handlers as whitelist_contract
use cw_plus.Cw1Whitelist.Handlers.{is_admin}
use cw_plus.Cw1Subkeys.State.{
  Wallets, StakingMsg, delegate, undelegate, redelegate, other_staking, DistributionMsg,
  set_withdraw_address, withdraw_delegator_reward, other_distribution, Message, staking,
  distribution, bank_send, other, Permissions, Allowance, State, ExecuteMsg, ContractError, std,
  unauthorized, cannot_set_own_account, not_allowed, no_allowance, message_type_rejected,
  delegate_perm, re_delegate_perm, un_delegate_perm, withdraw_perm, withdraw_addr_perm,
  unsupported_message, setting_expired_allowance, sem_ver, from_whitelist, Outcome,
}

unfoldable pub check_staking_permissions :
    StakingMsg → Permissions → Result ContractError (Unit {0})
check_staking_permissions (delegate _ _) p = ensure p.delegate delegate_perm
check_staking_permissions (undelegate _ _) p = ensure p.undelegate un_delegate_perm
check_staking_permissions (redelegate _ _ _) p = ensure p.redelegate re_delegate_perm
check_staking_permissions (other_staking _) p = err unsupported_message

unfoldable pub check_distribution_permissions :
    DistributionMsg → Permissions → Result ContractError (Unit {0})
check_distribution_permissions (set_withdraw_address _) p = ensure p.withdraw withdraw_addr_perm
check_distribution_permissions (withdraw_delegator_reward _) p = ensure p.withdraw withdraw_perm
check_distribution_permissions (other_distribution _) p = err unsupported_message

-- `ADMIN_LIST.load(…)?`
abbrev pub load_admins : State → Result StdError whitelist_state.AdminList
load_admins st = ok_or st.whitelist.admin_list StdError.not_found

-- `ensure!(cfg.is_admin(&info.sender), …)`, and the validated spender, who is not the sender
unfoldable pub other_account : Host → MessageInfo → Text → State → Result ContractError Addr
other_account h info spender st = do
  cfg ← map_err std (load_admins st)
  ensure (is_admin cfg info.sender) unauthorized
  spender_addr ← map_err std (h.addr_validate spender)
  ensure (not (info.sender == spender_addr)) cannot_set_own_account
  ok spender_addr

module _ (h : Host) (w : Wallets) where
  -- The `match` on one message in `execute_execute`.
  unfoldable pub check_message : Block → Addr → Message → State → Result ContractError State
  check_message block sender (staking m) st = do
    perm ← ok_or (lookup sender st.permissions) not_allowed
    check_staking_permissions m perm
    ok st
  check_message block sender (distribution m) st = do
    perm ← ok_or (lookup sender st.permissions) not_allowed
    check_distribution_permissions m perm
    ok st
  check_message block sender (bank_send _ amount) st = do
    allowance ← ok_or (lookup sender st.allowances) no_allowance
    ensure (not (h.is_expired allowance.expires block)) no_allowance
    balance ← map_err std (w.sub allowance.balance amount)
    ok (record st {
      allowances = insert sender (record allowance { balance = balance }) st.allowances;
    })
  check_message block sender (other _) st = err message_type_rejected

  -- The loop of `execute_execute`.
  unfoldable pub check_messages : Block → Addr → List Message → State → Result ContractError State
  check_messages block sender [] st = ok st
  check_messages block sender (m ∷ ms) st = do
    st' ← check_message block sender m st
    check_messages block sender ms st'

  unfoldable pub execute_execute : Env → MessageInfo → List Message → State → Outcome
  execute_execute env info msgs st = do
    cfg ← map_err std (load_admins st)
    if is_admin cfg info.sender
        then ok (st, msgs)
        else do st' ← check_messages env.block info.sender msgs st; ok (st', msgs)

  -- `allow.filter(|allow| !allow.expires.is_expired(…))`
  unfoldable pub unexpired : Block → Option Allowance → Option Allowance
  unexpired block none = none
  unexpired block (some a) = if h.is_expired a.expires block then none else some a

  abbrev pub default_allowance : Allowance
  default_allowance = record { balance = []; expires = h.default_expiration }

  -- `allow.as_ref().map(|allow| allow.expires).unwrap_or_default()`
  abbrev pub expires_of : Option Allowance → Expiration
  expires_of none = h.default_expiration
  expires_of (some a) = a.expires

  -- `if let Some(exp) = expires { … } else if prev_expires.is_expired(…) { … }`
  unfoldable pub new_expires :
      Block → Option Expiration → Expiration → Expiration → Result ContractError Expiration
  new_expires block (some exp) prev_expires current = do
    ensure (not (h.is_expired exp block)) (setting_expired_allowance exp)
    ok exp
  new_expires block none prev_expires current = do
    ensure (not (h.is_expired prev_expires block)) (setting_expired_allowance prev_expires)
    ok current

  unfoldable pub execute_increase_allowance :
      Env → MessageInfo → Text → Coin → Option Expiration → State → Outcome
  execute_increase_allowance env info spender amount expires st = do
    spender_addr ← other_account h info spender st
    let allow = lookup spender_addr st.allowances
    let allowance = unwrap_or (unexpired env.block allow) default_allowance
    expires' ← new_expires env.block expires (expires_of allow) allowance.expires
    balance ← or_panic (w.add_assign allowance.balance amount)
    ok (
      record st {
        allowances =
            insert spender_addr (record { balance = balance; expires = expires' }) st.allowances;
      },
      [],
    )

  -- the `if let Some(exp) = expires` of `execute_decrease_allowance`
  unfoldable pub set_expires :
      Block → Option Expiration → Expiration → Result ContractError Expiration
  set_expires block none current = ok current
  set_expires block (some exp) current = do
    ensure (not (h.is_expired exp block)) (setting_expired_allowance exp)
    ok exp

  unfoldable pub execute_decrease_allowance :
      Env → MessageInfo → Text → Coin → Option Expiration → State → Outcome
  execute_decrease_allowance env info spender amount expires st = do
    spender_addr ← other_account h info spender st
    allowance ← ok_or (unexpired env.block (lookup spender_addr st.allowances)) no_allowance
    expires' ← set_expires env.block expires allowance.expires
    balance ← map_err std (w.sub_saturating allowance.balance amount)
    let saved = insert spender_addr (record { balance = balance; expires = expires' }) st.allowances
    ok (
      record st { allowances = if w.is_empty balance then erase spender_addr saved else saved },
      [],
    )

  unfoldable pub execute_set_permissions : Env → MessageInfo → Text → Permissions → State → Outcome
  execute_set_permissions env info spender perm st = do
    spender_addr ← other_account h info spender st
    ok (record st { permissions = insert spender_addr perm st.permissions }, [])

  -- A handler of cw1-whitelist, on its part of the storage.
  unfoldable pub on_whitelist : whitelist_state.Outcome → State → Outcome
  on_whitelist done st = do
    (whitelist, msgs) ← map_err from_whitelist done
    ok (record st { whitelist = whitelist }, map other msgs)

  unfoldable pub execute : Env → MessageInfo → ExecuteMsg → State → Outcome
  execute env info (ExecuteMsg.execute msgs) st = execute_execute env info msgs st
  execute env info ExecuteMsg.freeze st =
      on_whitelist (whitelist_contract.execute_freeze env info st.whitelist) st
  execute env info (ExecuteMsg.update_admins admins) st =
      on_whitelist (whitelist_contract.execute_update_admins h env info admins st.whitelist) st
  execute env info (ExecuteMsg.increase_allowance spender amount expires) st =
      execute_increase_allowance env info spender amount expires st
  execute env info (ExecuteMsg.decrease_allowance spender amount expires) st =
      execute_decrease_allowance env info spender amount expires st
  execute env info (ExecuteMsg.set_permissions spender permissions) st =
      execute_set_permissions env info spender permissions st

  unfoldable pub instantiate : whitelist_state.InstantiateMsg → Result StdError State
  instantiate msg = do
    whitelist ← whitelist_contract.instantiate h msg
    ok (record {
      whitelist = record whitelist { version = some h.contract_version };
      permissions = [];
      allowances = [];
    })

  unfoldable pub migrate : State → Outcome
  migrate st = do
    version ← map_err sem_ver (w.parse_version h.contract_version)
    stored ← map_err std (w.get_contract_version st.whitelist.version)
    storage_version ← map_err sem_ver (w.parse_version stored)
    let updated = record st {
      whitelist = record st.whitelist { version = some h.contract_version };
    }
    ok (if w.is_older storage_version version then (updated, []) else (st, []))
