-- ===== src/Cw20Ics20/Packets.antt =====
-- Packets of contracts/cw20-ics20: paid, or refused without a trace; sent, or given back.
use cw_plus.Base.{
  ℕ, ◌≤◌, ◌<◌, ◌≡◌, ◌⊎◌, Option, none, some, [], ◌∷◌, ok, err, panic, arith, refl, inl, inr,
  Option-cases, Result-cases, u128_max,
}
use cw_plus.Base.Dict.Pairs.{lookup_pair}
use cw_plus.Host.{Host, StdError}
use cw_plus.Cw20Ics20.State.{
  IbcEndpoint, IbcPacket, State, Outside, ContractError, std, Ics20Packet, result, error,
  from_parts, reduce_channel_balance,
}
use cw_plus.Cw20Ics20.Ibc.{
  parse_voucher_denom, do_ibc_packet_receive, ibc_packet_receive, reply, ReceiveResponse, failed,
  receive_id,
}
use cw_plus.Cw20Ics20.Payments.{payment, send_amount_lem}
use cw_plus.Cw20Ics20.Balances.{
  outstanding_of, Lowers, reduce_channel_balance-Lowers, reduce_channel_balance-panic,
  reduce_channel_balance-short, undo_reduce_channel_balance-Lowers, ArePayable,
  ArePayable-check_gas_limit,
}

parse_voucher_denom-panic :
    (h : Host) (x : Outside) (d : ℕ) (e : IbcEndpoint) → parse_voucher_denom h x d e ≡ panic → ⊥
unfolding parse_voucher_denom
parse_voucher_denom-panic h x d e r = ground arith

module _ (h : Host) (x : Outside) (packet : IbcPacket) (st : State) where
  -- The packet is paid: its amount goes to its receiver in one message and off the balance of the
  -- channel, and if that message fails, the reply turns the acknowledgement into an error and
  -- brings every balance back.
  pub record IsPaid (st' : State) (res : ReceiveResponse) : Type 0 where
    pub msg : Ics20Packet
    pub denom : ℕ
    pub limit : Option ℕ
    pub read : x.read_packet packet.payload ≡ some msg
    pub parsed : parse_voucher_denom h x msg.denom packet.src ≡ ok denom
    pub accepted : res.acknowledgement ≡ result x.success_result
    pub pays :
        res.messages
        ≡ record {
          msg = payment (from_parts x denom msg.amount) msg.receiver;
          id = receive_id;
          gas_limit = limit;
        }
          ∷ []
    pub lowered : Lowers packet.dest.channel_id denom msg.amount st st'
    pub undone :
        (e : ℕ)
        → (st'' : State) × (reply h x receive_id (failed e) st' ≡ ok (st'', some (error e)))
          × ((c d : ℕ) → outstanding_of c d st'' ≡ outstanding_of c d st)

  -- The packet is refused: nothing is sent and nothing has changed. If it can be read and its
  -- denomination is one of this side, the channel has not that much of it.
  pub record IsRefused (st' : State) (res : ReceiveResponse) : Type 0 where
    pub reason : ℕ
    pub refused : res.acknowledgement ≡ error reason
    pub silent : res.messages ≡ []
    pub unchanged : st' ≡ st
    pub short :
        (msg : Ics20Packet) (denom : ℕ)
        → x.read_packet packet.payload ≡ some msg
        → parse_voucher_denom h x msg.denom packet.src ≡ ok denom
        → (lookup_pair packet.dest.channel_id denom st.channel_state ≡ none)
          ⊎ (outstanding_of packet.dest.channel_id denom st < msg.amount)

  handled_error-IsRefused :
      (e : ContractError)
      → do_ibc_packet_receive h x packet st ≡ (st, err e)
      → ((msg : Ics20Packet) (denom : ℕ)
          → x.read_packet packet.payload ≡ some msg
          → parse_voucher_denom h x msg.denom packet.src ≡ ok denom
          → (lookup_pair packet.dest.channel_id denom st.channel_state ≡ none)
            ⊎ (outstanding_of packet.dest.channel_id denom st < msg.amount))
      → (st' : State) × (res : ReceiveResponse) × (ibc_packet_receive h x packet st ≡ ok (st', res))
        × (IsPaid st' res ⊎ IsRefused st' res)
  unfolding ibc_packet_receive
  handled_error-IsRefused e handled short = (
    st,
    record { acknowledgement = error (x.to_string e); messages = [] },
    ground arith,
    inr (record {
      reason = x.to_string e;
      refused = refl;
      silent = refl;
      unchanged = refl;
      short = short;
    }),
  )

  reduced-IsPaid :
      ArePayable h x st
      → ((c d : ℕ) → outstanding_of c d st ≤ u128_max)
      → (msg : Ics20Packet) (denom : ℕ) (less : State) → x.read_packet packet.payload ≡ some msg
      → parse_voucher_denom h x msg.denom packet.src ≡ ok denom
      → reduce_channel_balance h packet.dest.channel_id denom msg.amount st ≡ ok less
      → (st' : State) × (res : ReceiveResponse) × (ibc_packet_receive h x packet st ≡ ok (st', res))
        × (IsPaid st' res ⊎ IsRefused st' res)
  unfolding ibc_packet_receive do_ibc_packet_receive reply
  reduced-IsPaid payable fits msg denom less read parsed reduced =
      let (old, low) =
        reduce_channel_balance-Lowers h packet.dest.channel_id denom msg.amount st less reduced in
      let saved : State = record less {
        reply_args =
            some (record { channel = packet.dest.channel_id; denom = denom; amount = msg.amount });
      } in
      let (g, limit) =
        ArePayable-check_gas_limit h x st saved packet.dest.channel_id denom msg.amount old.0
          payable old.1 low.same_allow_list low.same_config in
      let lowered : Lowers packet.dest.channel_id denom msg.amount st saved = record {
        same_allow_list = low.same_allow_list;
        same_config = low.same_config;
        lowered = low.lowered;
      } in
      let (back, undo, same) =
        undo_reduce_channel_balance-Lowers h packet.dest.channel_id denom msg.amount st saved
          lowered (fits packet.dest.channel_id denom) in
      (
        saved,
        record {
          acknowledgement = result x.success_result;
          messages =
              record {
                msg = payment (from_parts x denom msg.amount) msg.receiver;
                id = receive_id;
                gas_limit = g;
              }
              ∷ [];
        },
        ground (arith, send_amount_lem (from_parts x denom msg.amount) msg.receiver),
        inl (record {
          msg = msg;
          denom = denom;
          limit = g;
          read = read;
          parsed = parsed;
          accepted = refl;
          pays = refl;
          lowered = lowered;
          undone = λ e. (back, ground arith, same);
        }),
      )

  -- A packet that comes in is answered, never with an error or a panic, provided that every cw20
  -- with a balance may be sent and that balances are `Uint128`s. It is paid: one message pays its
  -- amount to its receiver, that amount goes off the balance of the channel and nothing else changes
  -- there, and if the message fails, the reply answers with an error and brings every balance back.
  -- Or it is refused without a trace, which needs that it cannot be read, is no token of this side,
  -- or that the channel has not that much of it.
  pub ibc_packet_receive_lem :
      ArePayable h x st
      → ((c d : ℕ) → outstanding_of c d st ≤ u128_max)
      → (st' : State) × (res : ReceiveResponse) × (ibc_packet_receive h x packet st ≡ ok (st', res))
        × (IsPaid st' res ⊎ IsRefused st' res)
  unfolding do_ibc_packet_receive
  ibc_packet_receive_lem payable fits = elim (Option-cases (x.read_packet packet.payload)) [
    | inl unread ↦
        handled_error-IsRefused (std StdError.parse_error) (ground arith)
          (λ m d r p. absurd (ground arith))
    | inr (msg, read) ↦ elim (Result-cases (parse_voucher_denom h x msg.denom packet.src)) [
      | inl (denom, parsed) ↦
          elim (Result-cases
            (reduce_channel_balance h packet.dest.channel_id denom msg.amount st)) [
              | inl (less, reduced) ↦ reduced-IsPaid payable fits msg denom less read parsed reduced
              | inr (inl (e, short)) ↦ handled_error-IsRefused e (ground arith) (λ m d r p.
                  elim (reduce_channel_balance-short h packet.dest.channel_id denom msg.amount st e
                    short) [ inl missing ↦ inl (ground arith) | inr less ↦ inr (ground arith) ])
              | inr (inr broken) ↦
                  absurd (
                    reduce_channel_balance-panic h packet.dest.channel_id denom msg.amount st
                      broken)
            ]
      | inr (inl (e, foreign)) ↦
          handled_error-IsRefused e (ground arith) (λ m d r p. absurd (ground arith))
      | inr (inr broken) ↦ absurd (parse_voucher_denom-panic h x msg.denom packet.src broken)
    ]
  ]
