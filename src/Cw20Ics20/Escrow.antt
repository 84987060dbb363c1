-- ===== src/Cw20Ics20/Escrow.antt =====
-- The tokens that contracts/cw20-ics20 holds for its channels, over all that the chain calls.
use cw_plus.Base.{
  ℕ, ◌+◌, ◌≤◌, ◌≡◌, ◌⊎◌, Option, none, some, List, [], ◌∷◌, ok, arith, inl, inr, Option-cases,
  Result-cases,
}
use cw_plus.Base.Dict.Pairs.{lookup_pair, lookup_pair-insert_pair}
use cw_plus.Host.{Host, Text, Addr, Env, Coin, MessageInfo}
use cw_plus.Cw4Group.State.{Controllers}
use cw_plus.Cw20Ics20.State.{
  Ics20Packet, IbcPacket, State, TransferMsg, ExecuteMsg, receive, transfer, allow, update_admin,
  Outside, Amount, native, cw20, Message, send_packet, bank_send, cw20_transfer, SubMsg, from_parts,
  denom_of, amount_of, reduce_channel_balance, undo_reduce_channel_balance, or_default,
}
use cw_plus.Cw20Ics20.Handlers.{execute, execute_receive, execute_transfer, execute_allow}
use cw_plus.Cw20Ics20.Ibc.{
  ReceiveResponse, ibc_packet_receive, do_ibc_packet_receive, on_packet_failure, send_amount,
  ack_failure_id, receive_id, parse_voucher_denom, check_gas_limit,
}
use cw_plus.Cw20Ics20.Balances.{
  outstanding_of, at_pair, reduce_channel_balance-Lowers, increase_channel_balance-reduce,
}
use cw_plus.Cw20Ics20.Returns.{execute_transfer-IsSent}

module _ (x : Outside) (c d : ℕ) where
  -- What a message that the contract sends for a channel takes out of it, of the denomination `d`
  -- on the channel `c`.
  unfoldable pub paid_by : Text → List SubMsg → ℕ
  paid_by channel [] = 0
  paid_by channel (s ∷ rest) =
      elim s.msg [
        | send_packet _ _ _ ↦ 0
        | bank_send _ coin ↦ at_pair channel coin.denom coin.amount c d
        | cw20_transfer token _ amount ↦ at_pair channel (x.cw20_denom token) amount c d
      ]
      + paid_by channel rest

  unfoldable pub funds_of : Text → List Coin → ℕ
  funds_of channel [] = 0
  funds_of channel (coin ∷ rest) =
      at_pair channel coin.denom coin.amount c d + funds_of channel rest

  -- What a call pays in for a channel: the coins with it, or the tokens of the cw20 that calls.
  unfoldable pub paid_in : MessageInfo → ExecuteMsg → ℕ
  paid_in info (receive wrapper) = elim (x.read_transfer wrapper.msg) [
    | none ↦ 0
    | some msg ↦ at_pair msg.channel (x.cw20_denom info.sender) wrapper.amount c d
  ]
  paid_in info (transfer msg) = funds_of msg.channel info.funds
  paid_in info (allow _) = 0
  paid_in info (update_admin _) = 0

  paid_by-send_amount :
      (channel denom amount id : ℕ) (to : Text) (gas : Option ℕ)
      → paid_by channel (
          record { msg = send_amount (from_parts x denom amount) to; id = id; gas_limit = gas }
          ∷ [])
        ≡ at_pair channel denom amount c d
  unfolding paid_by send_amount from_parts
  paid_by-send_amount channel denom amount id to gas = elim (Option-cases (x.cw20_address denom)) [
    | inl plain ↦ ground arith
    | inr (a, token) ↦ ground (arith, x.cw20_denom_lem denom a token)
  ]

  module _ (h : Host) where
    execute_transfer-outstanding :
        (env : Env) (msg : TransferMsg) (amount : Amount) (sender : Addr) (st st' : State)
        (sent : List Message)
        → execute_transfer h x env msg amount sender st ≡ ok (st', sent)
        → outstanding_of c d st'
          ≡ outstanding_of c d st + at_pair msg.channel (denom_of x amount) (amount_of amount) c d
    execute_transfer-outstanding env msg amount sender st st' sent e =
        let s = execute_transfer-IsSent h x env msg amount sender st st' sent e in
        let (_, _, _, _, _, grown) =
          increase_channel_balance-reduce h msg.channel (denom_of x amount) (amount_of amount) st
            st' s.increased in
        grown c d

    -- A message that is handled adds what it pays in.
    pub execute-outstanding :
        (ctl : Controllers) (env : Env) (info : MessageInfo) (msg : ExecuteMsg) (st st' : State)
        (sent : List Message)
        → execute h x ctl env info msg st ≡ ok (st', sent)
        → outstanding_of c d st' ≡ outstanding_of c d st + paid_in info msg
    unfolding execute execute_receive execute_allow paid_in funds_of denom_of amount_of
    execute-outstanding ctl env info (receive wrapper) st st' sent e =
        elim (Option-cases (x.read_transfer wrapper.msg)) [
          | inl unread ↦ absurd (ground arith)
          | inr (msg, read) ↦ elim (Result-cases (h.addr_validate wrapper.sender)) [
            | inl (sender, valid) ↦
                let grown =
                  execute_transfer-outstanding env msg
                    (cw20 (record { address = info.sender; amount = wrapper.amount })) sender st st'
                    sent (ground arith) in
                ground arith
            | inr refused ↦ absurd (ground arith)
          ]
        ]
    execute-outstanding ctl env info (transfer msg) st st' sent e =
        elim (Result-cases (x.one_coin info)) [
          | inl (coin, one) ↦
              let grown =
                execute_transfer-outstanding env msg (native coin) info.sender st st' sent
                  (ground arith) in
              ground (arith, x.one_coin_lem info coin one)
          | inr refused ↦ absurd (ground arith)
        ]
    execute-outstanding ctl env info (allow msg) st st' sent e = ground arith
    execute-outstanding ctl env info (update_admin admin) st st' sent e = ground arith

    -- A packet that failed takes off what is given back.
    pub on_packet_failure-outstanding :
        (packet : IbcPacket) (st st' : State) (ms : List SubMsg)
        → on_packet_failure h x packet st ≡ ok (st', ms)
        → outstanding_of c d st' + paid_by packet.src.channel_id ms ≡ outstanding_of c d st
    unfolding on_packet_failure
    on_packet_failure-outstanding packet st st' ms e =
        elim (Option-cases (x.read_packet packet.payload)) [
          | inl unread ↦ absurd (ground arith)
          | inr (msg, read) ↦
              elim (Result-cases
                (reduce_channel_balance h packet.src.channel_id msg.denom msg.amount st)) [
                  | inl (less, reduced) ↦
                      let (_, low) =
                        reduce_channel_balance-Lowers h packet.src.channel_id msg.denom msg.amount
                          st less reduced in
                      elim (Result-cases
                        (check_gas_limit h x (from_parts x msg.denom msg.amount) less)) [
                          | inl (gas, limit) ↦ ground (
                            arith,
                            low.lowered c d,
                            paid_by-send_amount packet.src.channel_id msg.denom msg.amount
                                ack_failure_id msg.sender gas,
                          )
                          | inr refused ↦ absurd (ground arith)
                        ]
                  | inr refused ↦ absurd (ground arith)
                ]
        ]

    pub undo_reduce_channel_balance-outstanding :
        (channel denom amount : ℕ) (st st' : State)
        → undo_reduce_channel_balance h channel denom amount st ≡ ok st'
        → outstanding_of c d st' ≡ outstanding_of c d st + at_pair channel denom amount c d
    unfolding undo_reduce_channel_balance
    undo_reduce_channel_balance-outstanding channel denom amount st st' e =
        let s = or_default (lookup_pair channel denom st.channel_state) in
        ground (
          arith,
          h.add_128_lem s.outstanding amount,
          lookup_pair-insert_pair c d channel denom
              (record s { outstanding = s.outstanding + amount }) st.channel_state,
        )

    -- What a packet that came in leaves: nothing to send and no balance raised, or one payment that
    -- is off the balance and noted for the reply.
    pub record IsLedgered (packet : IbcPacket) (st st' : State) (ms : List SubMsg) : Type 0 where
      pub denom : ℕ
      pub amount : ℕ
      pub pays : paid_by packet.dest.channel_id ms ≡ at_pair packet.dest.channel_id denom amount c d
      pub lowered :
          outstanding_of c d st' + at_pair packet.dest.channel_id denom amount c d
          ≡ outstanding_of c d st
      pub noted :
          st'.reply_args
          ≡ some (record { channel = packet.dest.channel_id; denom = denom; amount = amount })

    reduced-IsLedgered :
        (packet : IbcPacket) (msg : Ics20Packet) (denom : ℕ) (st less st' : State)
        (res : ReceiveResponse)
        → x.read_packet packet.payload ≡ some msg
        → parse_voucher_denom h x msg.denom packet.src ≡ ok denom
        → reduce_channel_balance h packet.dest.channel_id denom msg.amount st ≡ ok less
        → ibc_packet_receive h x packet st ≡ ok (st', res)
        → ((res.messages ≡ []) × (outstanding_of c d st' ≤ outstanding_of c d st))
          ⊎ IsLedgered packet st st' res.messages
    unfolding ibc_packet_receive do_ibc_packet_receive
    reduced-IsLedgered packet msg denom st less st' res read parsed reduced e =
        let (_, low) =
          reduce_channel_balance-Lowers h packet.dest.channel_id denom msg.amount st less reduced in
        let saved : State = record less {
          reply_args =
              some
                (record { channel = packet.dest.channel_id; denom = denom; amount = msg.amount });
        } in
        elim (Result-cases (check_gas_limit h x (from_parts x denom msg.amount) saved)) [
          | inr (inl (e', limited)) ↦ inl (ground (arith, low.lowered c d))
          | inr (inr broken) ↦ absurd (ground arith)
          | inl (gas, limit) ↦ inr (record {
            denom = denom;
            amount = msg.amount;
            pays = ground (
              arith,
              paid_by-send_amount packet.dest.channel_id denom msg.amount receive_id msg.receiver
                  gas,
            );
            lowered = ground (arith, low.lowered c d);
            noted = ground arith;
          })
        ]

    pub ibc_packet_receive-IsLedgered :
        (packet : IbcPacket) (st st' : State) (res : ReceiveResponse)
        → ibc_packet_receive h x packet st ≡ ok (st', res)
        → ((res.messages ≡ []) × (outstanding_of c d st' ≤ outstanding_of c d st))
          ⊎ IsLedgered packet st st' res.messages
    unfolding ibc_packet_receive do_ibc_packet_receive
    ibc_packet_receive-IsLedgered packet st st' res e =
        elim (Option-cases (x.read_packet packet.payload)) [
          | inl unread ↦ inl (ground arith)
          | inr (msg, read) ↦ elim (Result-cases (parse_voucher_denom h x msg.denom packet.src)) [
            | inr (inl (e', foreign)) ↦ inl (ground arith)
            | inr (inr broken) ↦ absurd (ground arith)
            | inl (denom, parsed) ↦
                elim (Result-cases
                  (reduce_channel_balance h packet.dest.channel_id denom msg.amount st)) [
                    | inr (inl (e', short)) ↦ inl (ground arith)
                    | inr (inr broken) ↦ absurd (ground arith)
                    | inl (less, reduced) ↦
                        reduced-IsLedgered packet msg denom st less st' res read parsed reduced e
                  ]
          ]
        ]
