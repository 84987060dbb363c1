-- ===== src/Cw20Ics20/Handlers.antt =====
-- contracts/cw20-ics20/src/contract.rs: instantiate, execute and the queries.
use cw_plus.Base.{
  or_panic, ℕ, ltb, leb, Bool, true, false, not, ◌||◌, map, Option, none, some, List, [], ◌∷◌,
  Result, ok, ◌>>=◌, ◌>>◌, ok_or, map_err, ensure, unwrap_or, is_none, if◌then◌else◌, u64_max,
}
use cw_plus.Base.Dict.{Dict, lookup, insert}
use cw_plus.Base.Dict.Pairs.{prefix}
use cw_plus.Base.Dict.Page.{page}
use cw_plus.Host.{Host, Text, Addr, StdError, Env, MessageInfo}
use cw_plus.Cw20.{Cw20ReceiveMsg}
use cw_plus.Cw4Group.State.{Controllers}
use cw_plus.Cw20Ics20.State.{
  Config, ChannelInfo, AllowInfo, State, AllowMsg, InitMsg, TransferMsg, ExecuteMsg, ContractError,
  std, payment, no_such_channel, no_funds, amount_overflow, cannot_lower_gas, not_on_allow_list,
  Amount, native, cw20, Ics20Packet, Message, send_packet, Outside, denom_of, amount_of, is_empty,
  from_parts, increase_channel_balance,
}

abbrev pub Outcome : Type 0
Outcome = Result ContractError (State × List Message)

-- The loop of `instantiate`.
unfoldable pub save_allows :
    Host → List AllowMsg → Dict AllowInfo → Result ContractError (Dict AllowInfo)
save_allows h [] list = ok list
save_allows h (allowed ∷ rest) list = do
  contract ← map_err std (h.addr_validate allowed.contract)
  save_allows h rest (insert contract (record { gas_limit = allowed.gas_limit }) list)

unfoldable pub instantiate : Host → InitMsg → Result ContractError State
instantiate h msg = do
  admin ← map_err std (h.addr_validate msg.gov_contract)
  allow_list ← save_allows h msg.allowlist []
  ok (record {
    version = some h.contract_version;
    admin = some admin;
    config = some (record {
      default_timeout = msg.default_timeout;
      default_gas_limit = msg.default_gas_limit;
    });
    reply_args = none;
    channel_info = [];
    channel_state = [];
    allow_list = allow_list;
  })

-- `Ics20Packet::validate`
unfoldable pub validate : Ics20Packet → Result ContractError (Unit {0})
validate packet = ensure (leb packet.amount u64_max) amount_overflow

-- A gas limit must not go down.
unfoldable pub lowers_gas : Option ℕ → Option ℕ → Bool
lowers_gas none none = false
lowers_gas none (some _) = true
lowers_gas (some old) none = false
lowers_gas (some old) (some new) = ltb new old

-- the check of the old entry in `execute_allow`
unfoldable pub lowers_entry : Option AllowInfo → Option ℕ → Bool
lowers_entry none new = false
lowers_entry (some old) new = lowers_gas old.gas_limit new

module _ (h : Host) (x : Outside) where
  -- the check of a cw20 in `execute_transfer`
  unfoldable pub check_allowed : Config → Amount → State → Result ContractError (Unit {0})
  check_allowed config (native coin) st = ok tt
  check_allowed config (cw20 coin) st = do
    addr ← map_err std (h.addr_validate coin.address)
    ensure (not (is_none config.default_gas_limit) || not (is_none (lookup addr st.allow_list)))
        not_on_allow_list

  abbrev pub packet_of : TransferMsg → Amount → Addr → Ics20Packet
  packet_of msg amount sender = record {
    amount = amount_of amount;
    denom = denom_of x amount;
    receiver = msg.remote_address;
    sender = sender;
    memo = msg.memo;
  }

  unfoldable pub execute_transfer : Env → TransferMsg → Amount → Addr → State → Outcome
  execute_transfer env msg amount sender st = do
    ensure (not (is_empty amount)) no_funds
    ensure (not (is_none (lookup msg.channel st.channel_info))) (no_such_channel msg.channel)
    config ← ok_or st.config (std StdError.not_found)
    check_allowed config amount st
    timeout ←
        or_panic (x.plus_seconds env.block.time (unwrap_or msg.timeout config.default_timeout))
    let packet = packet_of msg amount sender
    validate packet
    st' ← increase_channel_balance h msg.channel (denom_of x amount) (amount_of amount) st
    ok (st', send_packet msg.channel (x.write_packet packet) timeout ∷ [])

  unfoldable pub execute_receive : Env → MessageInfo → Cw20ReceiveMsg → State → Outcome
  execute_receive env info wrapper st = do
    map_err payment (x.nonpayable info)
    msg ← ok_or (x.read_transfer wrapper.msg) (std StdError.parse_error)
    sender ← map_err std (h.addr_validate wrapper.sender)
    execute_transfer env msg (cw20 (record { address = info.sender; amount = wrapper.amount }))
        sender st

  module _ (c : Controllers) where
    unfoldable pub execute_allow : Env → MessageInfo → AllowMsg → State → Outcome
    execute_allow env info allow st = do
      map_err ContractError.admin (c.assert_admin st.admin info.sender)
      contract ← map_err std (h.addr_validate allow.contract)
      ensure (not (lowers_entry (lookup contract st.allow_list) allow.gas_limit)) cannot_lower_gas
      ok (
        record st {
          allow_list = insert contract (record { gas_limit = allow.gas_limit }) st.allow_list;
        },
        [],
      )

    unfoldable pub execute : Env → MessageInfo → ExecuteMsg → State → Outcome
    execute env info (ExecuteMsg.receive msg) st = execute_receive env info msg st
    execute env info (ExecuteMsg.transfer msg) st = do
      coin ← map_err payment (x.one_coin info)
      execute_transfer env msg (native coin) info.sender st
    execute env info (ExecuteMsg.allow allow) st = execute_allow env info allow st
    execute env info (ExecuteMsg.update_admin admin) st = do
      new_admin ← map_err std (h.addr_validate admin)
      stored ←
          map_err ContractError.admin (c.execute_update_admin st.admin info.sender (some new_admin))
      ok (record st { admin = stored }, [])

-- `ChannelResponse`, `AllowedResponse` and `AllowedInfo`
pub record ChannelResponse : Type 0 where
  pub info : ChannelInfo
  pub balances : List Amount
  pub total_sent : List Amount

pub record AllowedResponse : Type 0 where
  pub is_allowed : Bool
  pub gas_limit : Option ℕ

pub record AllowedInfo : Type 0 where
  pub contract : Text
  pub gas_limit : Option ℕ

-- `ConfigResponse`
pub record ConfigResponse : Type 0 where
  pub default_timeout : ℕ
  pub default_gas_limit : Option ℕ
  pub gov_contract : Text

-- The empty text is the first.
unfoldable pub query_config : State → Result StdError ConfigResponse
query_config st = do
  cfg ← ok_or st.config StdError.not_found
  ok (record {
    default_timeout = cfg.default_timeout;
    default_gas_limit = cfg.default_gas_limit;
    gov_contract = unwrap_or st.admin 0;
  })

unfoldable pub query_list : State → List ChannelInfo
query_list st = map (λ e. e.1) st.channel_info

unfoldable pub query_channel : Outside → Text → State → Result StdError ChannelResponse
query_channel x id st = do
  info ← ok_or (lookup id st.channel_info) StdError.not_found
  let states = prefix id st.channel_state
  ok (record {
    info = info;
    balances = map (λ e. from_parts x e.0 e.1.outstanding) states;
    total_sent = map (λ e. from_parts x e.0 e.1.total_sent) states;
  })

unfoldable pub query_allowed : Host → Text → State → Result StdError AllowedResponse
query_allowed h contract st = do
  addr ← h.addr_validate contract
  ok (elim (lookup addr st.allow_list) [
    | none ↦ record { is_allowed = false; gas_limit = none }
    | some a ↦ record { is_allowed = true; gas_limit = a.gas_limit }
  ])

-- `maybe_addr`
abbrev pub validated_start : Host → Option Text → Result StdError (Option Addr)
validated_start h none = ok none
validated_start h (some s) = do a ← h.addr_validate s; ok (some a)

unfoldable pub list_allowed :
    Host → Option Text → Option ℕ → State → Result StdError (List AllowedInfo)
list_allowed h start_after limit st = do
  start ← validated_start h start_after
  let asked = unwrap_or limit 10
  let size = if leb asked 30 then asked else 30
  ok (
      map (λ e. record { contract = e.0; gas_limit = e.1.gas_limit })
        (page start size st.allow_list))
