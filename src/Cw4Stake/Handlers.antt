-- ===== src/Cw4Stake/Handlers.antt =====
-- contracts/cw4-stake/src/contract.rs.
use cw_plus.Base.{
  ℕ, ◌/◌, ◌%◌, ◌==◌, ltb, leb, Bool, true, false, Option, none, some, List, [], ◌∷◌, map, Result,
  ok, err, panic, ◌>>=◌, ◌>>◌, ok_or, or_panic, map_err, ensure, not, unwrap_or, if◌then◌else◌,
  add_u64, sub_u64,
}
use cw_plus.Base.Dict.{Dict, lookup, insert, erase}
use cw_plus.Base.Dict.Page.{page}
use cw_plus.Host.{Host, Text, Addr, Binary, StdError, Coin, Env, MessageInfo}
use cw_plus.Cw3.{Denom}
use cw_plus.Cw20.{Balance, Cw20ReceiveMsg}
use cw_plus.Cw4Group.State.{Member, MemberDiff, Controllers}
use cw_plus.Cw4Stake.State.{
  Claims, Config, State, InstantiateMsg, ExecuteMsg, ReceiveMsg, ContractError, std,
  nothing_to_claim, no_funds, missing_denom, extra_denoms, invalid_denom, mixed_native_and_cw20,
  Message, call_hook, bank_send, cw20_transfer, Outcome,
}

abbrev pub validated : Host → Text → Result ContractError Addr
validated h s = map_err std (h.addr_validate s)

-- `maybe_addr`
abbrev pub validated_option : Host → Option Text → Result ContractError (Option Addr)
validated_option h none = ok none
validated_option h (some s) = do a ← validated h s; ok (some a)

unfoldable pub instantiate : Host → InstantiateMsg → Result ContractError State
instantiate h msg = do
  admin ← validated_option h msg.admin
  ok (record {
    version = some h.contract_version;
    admin = admin;
    hooks = [];
    config = some (record {
      denom = msg.denom;
      tokens_per_weight = msg.tokens_per_weight;
      min_bond = if leb msg.min_bond 1 then 1 else msg.min_bond;
      unbonding_period = msg.unbonding_period;
    });
    total = some 0;
    members = [];
    stake = [];
    claims = [];
  })

unfoldable pub must_pay_funds : List Coin → Text → Result ContractError ℕ
must_pay_funds [] denom = err no_funds
must_pay_funds (c ∷ []) denom = if c.denom == denom then ok c.amount else err (missing_denom denom)
must_pay_funds (_ ∷ _ ∷ _) denom = err (extra_denoms denom)

-- `calc_weight`: a division by zero panics, and `as u64` wraps around.
unfoldable pub calc_weight : ℕ → Config → Result ContractError (Option ℕ)
calc_weight stake cfg =
    if ltb stake cfg.min_bond
    then ok none
    else if cfg.tokens_per_weight == 0
    then panic
    else ok (some (stake / cfg.tokens_per_weight % 18_446_744_073_709_551_616))

-- the payment, by the `match` on the configured denomination in `execute_bond`
unfoldable pub payment : Denom → Balance → Result ContractError ℕ
payment (Denom.native want) (Balance.native have) = must_pay_funds have want
payment (Denom.cw20 want) (Balance.cw20 have) =
    if want == have.address then ok have.amount else err (invalid_denom want)
payment (Denom.native want) (Balance.cw20 have) = err mixed_native_and_cw20
payment (Denom.cw20 want) (Balance.native have) = err mixed_native_and_cw20

-- `new == old`
unfoldable pub same_weight : Option ℕ → Option ℕ → Bool
same_weight none none = true
same_weight (some a) (some b) = a == b
same_weight none (some _) = false
same_weight (some _) none = false

-- `MEMBERS.save` and `MEMBERS.remove`
abbrev pub set_member : Addr → Option ℕ → Dict ℕ → Dict ℕ
set_member a none members = erase a members
set_member a (some w) members = insert a w members

-- the message that pays a claim
unfoldable pub pay_out : Denom → Addr → ℕ → Message
pay_out (Denom.native denom) to release = bank_send to release denom
pay_out (Denom.cw20 addr) to release = cw20_transfer addr to release

module _ (h : Host) (c : Controllers) (cl : Claims h) where
  unfoldable pub update_membership : Addr → ℕ → Config → State → Outcome
  update_membership sender new_stake cfg st = do
    new ← calc_weight new_stake cfg
    let old = lookup sender st.members
    if same_weight new old then ok (st, []) else do
      total ← ok_or st.total (std StdError.not_found)
      more ← or_panic (add_u64 total (unwrap_or new 0))
      total' ← or_panic (sub_u64 more (unwrap_or old 0))
      let diff : MemberDiff = record { key = sender; old = old; new = new }
      ok (
        record st { members = set_member sender new st.members; total = some total' },
        map call_hook
            (c.prepare_hooks st.hooks (λ addr. record { contract_addr = addr; diffs = diff ∷ [] })),
      )

  unfoldable pub execute_bond : Env → Balance → Addr → State → Outcome
  execute_bond env amount sender st = do
    cfg ← ok_or st.config (std StdError.not_found)
    paid ← payment cfg.denom amount
    new_stake ← or_panic (h.add_128 (unwrap_or (lookup sender st.stake) 0) paid)
    update_membership sender new_stake cfg (record st { stake = insert sender new_stake st.stake })

  -- `from_json` of a `ReceiveMsg` is a parameter.
  unfoldable pub execute_receive :
      (Binary → Result StdError ReceiveMsg) → Env → MessageInfo → Cw20ReceiveMsg → State → Outcome
  execute_receive from_json env info wrapper st = do
    msg ← map_err std (from_json wrapper.msg)
    sender ← validated h wrapper.sender
    execute_bond env (Balance.cw20 (record { address = info.sender; amount = wrapper.amount }))
        sender st

  unfoldable pub execute_unbond : Env → MessageInfo → ℕ → State → Outcome
  execute_unbond env info amount st = do
    new_stake ←
        ok_or (h.sub_128 (unwrap_or (lookup info.sender st.stake) 0) amount) (std StdError.overflow)
    let lowered = record st { stake = insert info.sender new_stake st.stake }
    cfg ← ok_or st.config (std StdError.not_found)
    release_at ← or_panic (h.after cfg.unbonding_period env.block)
    claims ← map_err std (cl.create_claim st.claims info.sender amount release_at)
    update_membership info.sender new_stake cfg (record lowered { claims = claims })

  unfoldable pub execute_claim : Env → MessageInfo → State → Outcome
  execute_claim env info st = do
    (release, claims) ← map_err std (cl.claim_tokens st.claims info.sender env.block none)
    ensure (not (release == 0)) nothing_to_claim
    config ← ok_or st.config (std StdError.not_found)
    ok (record st { claims = claims }, pay_out config.denom info.sender release ∷ [])

  unfoldable pub execute :
      (Binary → Result StdError ReceiveMsg) → Env → MessageInfo → ExecuteMsg → State → Outcome
  execute from_json env info (ExecuteMsg.update_admin admin) st = do
    new_admin ← validated_option h admin
    stored ← map_err ContractError.admin (c.execute_update_admin st.admin info.sender new_admin)
    ok (record st { admin = stored }, [])
  execute from_json env info (ExecuteMsg.add_hook addr) st = do
    hook_addr ← validated h addr
    stored ← map_err ContractError.hook (c.execute_add_hook st.admin st.hooks info.sender hook_addr)
    ok (record st { hooks = stored }, [])
  execute from_json env info (ExecuteMsg.remove_hook addr) st = do
    hook_addr ← validated h addr
    stored ←
        map_err ContractError.hook (c.execute_remove_hook st.admin st.hooks info.sender hook_addr)
    ok (record st { hooks = stored }, [])
  execute from_json env info ExecuteMsg.bond st =
      execute_bond env (Balance.native info.funds) info.sender st
  execute from_json env info (ExecuteMsg.unbond amount) st = execute_unbond env info amount st
  execute from_json env info ExecuteMsg.claim st = execute_claim env info st
  execute from_json env info (ExecuteMsg.receive msg) st = execute_receive from_json env info msg st

unfoldable pub query_total_weight : State → Result StdError ℕ
query_total_weight st = ok_or st.total StdError.not_found

-- `StakedResponse`
pub record StakedResponse : Type 0 where
  pub stake : ℕ
  pub denom : Denom

module _ (h : Host) where
  unfoldable pub query_staked : Text → State → Result StdError StakedResponse
  query_staked addr st = do
    a ← h.addr_validate addr
    config ← ok_or st.config StdError.not_found
    ok (record { stake = unwrap_or (lookup a st.stake) 0; denom = config.denom })

  -- `query_member`, at the current height
  unfoldable pub query_member : Text → State → Result StdError (Option ℕ)
  query_member addr st = do a ← h.addr_validate addr; ok (lookup a st.members)

  abbrev pub member_of : ℕ × ℕ → Member
  member_of e = record { addr = e.0; weight = e.1 }

  unfoldable pub list_members : Option Text → Option ℕ → State → Result ContractError (List Member)
  list_members start_after limit st = do
    start ← validated_option h start_after
    let asked = unwrap_or limit 10
    let size = if leb asked 30 then asked else 30
    ok (map member_of (page start size st.members))
