-- ===== src/Cw20Ics20/State.antt =====
-- state.rs, amount.rs, msg.rs and error.rs of contracts/cw20-ics20, and what it takes from outside:
-- the packets of IBC, their encoding, and the texts of denominations.
use cw_plus.Base.{
  ℕ, ◌==◌, ◌≡◌, Option, none, some, List, [], ◌∷◌, Result, ok, ◌>>=◌, ok_or, or_panic, unwrap_or,
  Bool,
}
use cw_plus.Base.Dict.{Dict}
use cw_plus.Base.Dict.Pairs.{lookup_pair, insert_pair}
use cw_plus.Host.{Host, Text, Addr, Binary, StdError, Version, Coin, MessageInfo}
use cw_plus.Cw20.{Cw20Coin, Cw20ReceiveMsg}
use cw_plus.Cw3.Deposits.{PaymentError}
use cw_plus.Cw4Group.State.{AdminError}

-- `IbcEndpoint` and `IbcPacket`, as far as the contract reads them
pub record IbcEndpoint : Type 0 where
  pub port_id : Text
  pub channel_id : Text

pub record IbcPacket : Type 0 where
  pub payload : Binary
  pub src : IbcEndpoint
  pub dest : IbcEndpoint

-- `ChannelState`, `Config`, `ChannelInfo`, `AllowInfo`, `ReplyArgs`
pub record ChannelState : Type 0 where
  pub outstanding : ℕ
  pub total_sent : ℕ

pub record Config : Type 0 where
  pub default_timeout : ℕ
  pub default_gas_limit : Option ℕ

pub record ChannelInfo : Type 0 where
  pub id : Text
  pub counterparty_endpoint : IbcEndpoint
  pub connection_id : Text

pub record AllowInfo : Type 0 where
  pub gas_limit : Option ℕ

pub record ReplyArgs : Type 0 where
  pub channel : Text
  pub denom : Text
  pub amount : ℕ

-- The storage: ADMIN, CONFIG, REPLY_ARGS, CHANNEL_INFO, CHANNEL_STATE and ALLOW_LIST.
pub record State : Type 0 where
  pub version : Option Version
  pub admin : Option Addr
  pub config : Option Config
  pub reply_args : Option ReplyArgs
  pub channel_info : Dict ChannelInfo
  pub channel_state : Dict (Dict ChannelState)
  pub allow_list : Dict AllowInfo

-- `AllowMsg`, `InitMsg`, `TransferMsg`
pub record AllowMsg : Type 0 where
  pub contract : Text
  pub gas_limit : Option ℕ

pub record InitMsg : Type 0 where
  pub default_timeout : ℕ
  pub gov_contract : Text
  pub allowlist : List AllowMsg
  pub default_gas_limit : Option ℕ

pub record TransferMsg : Type 0 where
  pub channel : Text
  pub remote_address : Text
  pub timeout : Option ℕ
  pub memo : Option Text

-- `ExecuteMsg`
pub data ExecuteMsg : Type 0 where
  receive : Cw20ReceiveMsg → ExecuteMsg
  transfer : TransferMsg → ExecuteMsg
  allow : AllowMsg → ExecuteMsg
  update_admin : (admin : Text) → ExecuteMsg

-- `ContractError`
pub data ContractError : Type 0 where
  std : StdError → ContractError
  payment : PaymentError → ContractError
  admin : AdminError → ContractError
  no_such_channel : Text → ContractError
  no_funds amount_overflow only_ordered_channel insufficient_funds : ContractError
  invalid_ibc_version from_other_port from_other_channel cannot_migrate : Text → ContractError
  cannot_migrate_version : Version → ContractError
  no_foreign_tokens cannot_lower_gas unauthorized not_on_allow_list : ContractError
  unknown_reply_id : ℕ → ContractError

-- `Amount`
pub data Amount : Type 0 where
  native : Coin → Amount
  cw20 : Cw20Coin → Amount

-- `Ics20Packet` and `Ics20Ack`
pub record Ics20Packet : Type 0 where
  pub amount : ℕ
  pub denom : Text
  pub receiver : Text
  pub sender : Text
  pub memo : Option Text

pub data Ics20Ack : Type 0 where
  result : Binary → Ics20Ack
  error : Text → Ics20Ack

-- The messages that the contract sends: `IbcMsg::SendPacket`, `BankMsg::Send` and the `Transfer` of
-- a cw20; and a `SubMsg` that is replied to on error.
pub data Message : Type 0 where
  send_packet : (channel_id : Text) (payload : Binary) (timeout : ℕ) → Message
  bank_send : (to_address : Text) (coin : Coin) → Message
  cw20_transfer : (contract_addr : Text) (recipient : Text) (amount : ℕ) → Message

pub record SubMsg : Type 0 where
  pub msg : Message
  pub id : ℕ
  pub gas_limit : Option ℕ

-- What other crates and Rust's strings do: `one_coin` and `nonpayable` of cw_utils,
-- `Timestamp::plus_seconds`, which panics where there is no value, the JSON of messages and packets, `format!("cw20:{}")` and its
-- inverse, `splitn(3, '/')` where it gives three parts, and the texts of errors.
pub record Outside : Type 0 where
  pub one_coin : MessageInfo → Result PaymentError Coin
  pub one_coin_lem : (info : MessageInfo) (c : Coin) → one_coin info ≡ ok c → info.funds ≡ c ∷ []
  pub nonpayable : MessageInfo → Result PaymentError (Unit {0})
  pub plus_seconds : ℕ → ℕ → Option ℕ
  pub read_transfer : Binary → Option TransferMsg
  pub read_packet : Binary → Option Ics20Packet
  pub write_packet : Ics20Packet → Binary
  pub read_packet_lem : (p : Ics20Packet) → read_packet (write_packet p) ≡ some p
  pub read_ack : Binary → Option Ics20Ack
  pub cw20_denom : Text → Text
  pub cw20_address : Text → Option Text
  pub cw20_address_lem : (a : ℕ) → cw20_address (cw20_denom a) ≡ some a
  pub cw20_denom_lem : (d a : ℕ) → cw20_address d ≡ some a → cw20_denom a ≡ d
  pub split_denom : Text → Option (Text × Text × Text)
  pub to_string : ContractError → Text
  pub success_result : Binary
  pub ics20_version : Text

module _ (x : Outside) where
  -- `Amount::from_parts`
  unfoldable pub from_parts : Text → ℕ → Amount
  from_parts denom amount = elim (x.cw20_address denom) [
    | some address ↦ cw20 (record { address = address; amount = amount })
    | none ↦ native (record { denom = denom; amount = amount })
  ]

  -- `Amount::denom`
  unfoldable pub denom_of : Amount → Text
  denom_of (native c) = c.denom
  denom_of (cw20 c) = x.cw20_denom c.address

-- `Amount::amount` and `Amount::is_empty`
unfoldable pub amount_of : Amount → ℕ
amount_of (native c) = c.amount
amount_of (cw20 c) = c.amount

unfoldable pub is_empty : Amount → Bool
is_empty (native c) = c.amount == 0
is_empty (cw20 c) = c.amount == 0

-- `orig.unwrap_or_default()`
abbrev pub or_default : Option ChannelState → ChannelState
or_default o = unwrap_or o (record { outstanding = 0; total_sent = 0 })

module _ (h : Host) (channel denom : Text) (amount : ℕ) where
  unfoldable pub increase_channel_balance : State → Result ContractError State
  increase_channel_balance st = do
    let state = or_default (lookup_pair channel denom st.channel_state)
    outstanding ← or_panic (h.add_128 state.outstanding amount)
    total_sent ← or_panic (h.add_128 state.total_sent amount)
    ok (record st {
      channel_state =
          insert_pair channel denom (record { outstanding = outstanding; total_sent = total_sent })
            st.channel_state;
    })

  unfoldable pub reduce_channel_balance : State → Result ContractError State
  reduce_channel_balance st = do
    cur ← ok_or (lookup_pair channel denom st.channel_state) insufficient_funds
    outstanding ← ok_or (h.sub_128 cur.outstanding amount) insufficient_funds
    ok (record st {
      channel_state =
          insert_pair channel denom (record cur { outstanding = outstanding }) st.channel_state;
    })

  unfoldable pub undo_reduce_channel_balance : State → Result ContractError State
  undo_reduce_channel_balance st = do
    let state = or_default (lookup_pair channel denom st.channel_state)
    outstanding ← or_panic (h.add_128 state.outstanding amount)
    ok (record st {
      channel_state =
          insert_pair channel denom (record state { outstanding = outstanding }) st.channel_state;
    })
