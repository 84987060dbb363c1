-- ===== src/Cw20Ics20/Ibc.antt =====
-- contracts/cw20-ics20/src/ibc.rs: channels, packets, acknowledgements and replies.
use cw_plus.Base.{
  ℕ, ◌==◌, Bool, true, false, ◌||◌, Option, none, some, List, [], ◌∷◌, Result, ok, err, panic,
  ◌>>=◌, ◌>>◌, ok_or, map_err, ensure, if◌then◌else◌,
}
use cw_plus.Base.Dict.{lookup, insert}
use cw_plus.Host.{Host, Text, Binary, StdError}
use cw_plus.Cw20Ics20.State.{
  IbcEndpoint, IbcPacket, State, ContractError, std, only_ordered_channel, invalid_ibc_version,
  no_foreign_tokens, from_other_port, from_other_channel, not_on_allow_list, unknown_reply_id,
  Amount, native, cw20, Ics20Ack, result, error, Message, bank_send, cw20_transfer, SubMsg, Outside,
  from_parts, reduce_channel_balance, undo_reduce_channel_balance,
}

-- `IbcOrder` and `IbcChannel`
pub data IbcOrder : Type 0 where
  ordered unordered : IbcOrder

pub record IbcChannel : Type 0 where
  pub endpoint : IbcEndpoint
  pub counterparty_endpoint : IbcEndpoint
  pub order : IbcOrder
  pub version : Text
  pub connection_id : Text

unfoldable pub is_unordered : IbcOrder → Bool
is_unordered ordered = false
is_unordered unordered = true

-- RECEIVE_ID and ACK_FAILURE_ID
abbrev pub receive_id : ℕ
receive_id = 1337

abbrev pub ack_failure_id : ℕ
ack_failure_id = 64023

-- `IbcReceiveResponse`, and the result of a submessage
pub record ReceiveResponse : Type 0 where
  pub acknowledgement : Ics20Ack
  pub messages : List SubMsg

pub data SubMsgResult : Type 0 where
  done : SubMsgResult
  failed : Text → SubMsgResult

-- `send_amount`
unfoldable pub send_amount : Amount → Text → Message
send_amount (native coin) recipient = bank_send recipient coin
send_amount (cw20 coin) recipient = cw20_transfer coin.address recipient coin.amount

-- `?` in a function whose error is caught by its caller: what is stored until then stays.
abbrev pub attempt {ℓ κ} :
    {A : Type ℓ} {B : Type κ}
    → Result ContractError A
    → State
    → (A → State × Result ContractError B)
    → State × Result ContractError B
attempt (ok a) st next = next a
attempt (err e) st next = (st, err e)
attempt panic st next = (st, panic)

module _ (h : Host) (x : Outside) where
  -- `Option<&str>` of the counterparty
  unfoldable pub is_other_version : Option Text → Option Text
  is_other_version none = none
  is_other_version (some v) = if v == x.ics20_version then none else some v

  unfoldable pub enforce_order_and_version :
      IbcChannel → Option Text → Result ContractError (Unit {0})
  enforce_order_and_version channel counterparty_version = do
    ensure (channel.version == x.ics20_version) (invalid_ibc_version channel.version)
    elim (is_other_version counterparty_version) [
      | some v ↦ err (invalid_ibc_version v)
      | none ↦ ensure (is_unordered channel.order) only_ordered_channel
    ]

  unfoldable pub ibc_channel_open : IbcChannel → Option Text → State → Result ContractError State
  ibc_channel_open channel version st = do enforce_order_and_version channel version; ok st

  unfoldable pub ibc_channel_connect : IbcChannel → Option Text → State → Result ContractError State
  ibc_channel_connect channel version st = do
    enforce_order_and_version channel version
    ok (record st {
      channel_info =
          insert channel.endpoint.channel_id
            (record {
              id = channel.endpoint.channel_id;
              counterparty_endpoint = channel.counterparty_endpoint;
              connection_id = channel.connection_id;
            })
            st.channel_info;
    })

  -- `ibc_channel_close`: `unimplemented!()`
  unfoldable pub ibc_channel_close : State → Result ContractError State
  ibc_channel_close st = panic

  unfoldable pub parse_voucher_denom : Text → IbcEndpoint → Result ContractError Text
  parse_voucher_denom voucher_denom remote_endpoint = do
    (port, channel, denom) ← ok_or (x.split_denom voucher_denom) no_foreign_tokens
    ensure (port == remote_endpoint.port_id) (from_other_port port)
    ensure (channel == remote_endpoint.channel_id) (from_other_channel channel)
    ok denom

  unfoldable pub check_gas_limit : Amount → State → Result ContractError (Option ℕ)
  check_gas_limit (native coin) st = ok none
  check_gas_limit (cw20 coin) st = do
    addr ← map_err std (h.addr_validate coin.address)
    elim (lookup addr st.allow_list) [
      | some allow ↦ ok allow.gas_limit
      | none ↦ do
        config ← ok_or st.config (std StdError.not_found)
        base ← ok_or config.default_gas_limit not_on_allow_list
        ok (some base)
    ]

  -- The storage is that at the end or at the error.
  unfoldable pub do_ibc_packet_receive :
      IbcPacket → State → State × Result ContractError ReceiveResponse
  do_ibc_packet_receive packet st =
      attempt (ok_or (x.read_packet packet.payload) (std StdError.parse_error)) st (λ msg.
        attempt (parse_voucher_denom msg.denom packet.src) st (λ denom.
          attempt (reduce_channel_balance h packet.dest.channel_id denom msg.amount st) st (λ less.
            let saved : State = record less {
              reply_args =
                  some (record {
                    channel = packet.dest.channel_id;
                    denom = denom;
                    amount = msg.amount;
                  });
            } in
            let to_send = from_parts x denom msg.amount in
            attempt (check_gas_limit to_send saved) saved (λ gas_limit. (
              saved,
              ok (record {
                acknowledgement = result x.success_result;
                messages =
                    record {
                      msg = send_amount to_send msg.receiver;
                      id = receive_id;
                      gas_limit = gas_limit;
                    }
                    ∷ [];
              }),
            )))))

  -- An error becomes an acknowledgement; only a panic takes back what was stored.
  unfoldable pub ibc_packet_receive : IbcPacket → State → Result ⊥ (State × ReceiveResponse)
  ibc_packet_receive packet st =
      let handled = do_ibc_packet_receive packet st in
      elim handled.1 [
        | ok res ↦ ok (handled.0, res)
        | err e ↦ ok (handled.0, record { acknowledgement = error (x.to_string e); messages = [] })
        | panic ↦ panic
      ]

  unfoldable pub on_packet_success : IbcPacket → State → Result ContractError (State × List SubMsg)
  on_packet_success packet st = do
    msg ← ok_or (x.read_packet packet.payload) (std StdError.parse_error)
    ok (st, [])

  unfoldable pub on_packet_failure : IbcPacket → State → Result ContractError (State × List SubMsg)
  on_packet_failure packet st = do
    msg ← ok_or (x.read_packet packet.payload) (std StdError.parse_error)
    less ← reduce_channel_balance h packet.src.channel_id msg.denom msg.amount st
    let to_send = from_parts x msg.denom msg.amount
    gas_limit ← check_gas_limit to_send less
    ok (
      less,
      record { msg = send_amount to_send msg.sender; id = ack_failure_id; gas_limit = gas_limit }
          ∷ [],
    )

  unfoldable pub ibc_packet_ack :
      Binary → IbcPacket → State → Result ContractError (State × List SubMsg)
  ibc_packet_ack acknowledgement original_packet st = do
    ack ← ok_or (x.read_ack acknowledgement) (std StdError.parse_error)
    elim ack [
      | result _ ↦ on_packet_success original_packet st
      | error _ ↦ on_packet_failure original_packet st
    ]

  unfoldable pub ibc_packet_timeout : IbcPacket → State → Result ContractError (State × List SubMsg)
  ibc_packet_timeout packet st = on_packet_failure packet st

  -- The storage, and the acknowledgement that a failed payment overwrites the first one with.
  unfoldable pub reply : ℕ → SubMsgResult → State → Result ContractError (State × Option Ics20Ack)
  reply id done st =
      if id == receive_id || id == ack_failure_id then ok (st, none) else err (unknown_reply_id id)
  reply id (failed e) st =
      if id == receive_id
      then (do
        args ← ok_or st.reply_args (std StdError.not_found)
        st' ← undo_reduce_channel_balance h args.channel args.denom args.amount st
        ok (st', some (error e)))
      else (if id == ack_failure_id then ok (st, some (error e)) else err (unknown_reply_id id))
