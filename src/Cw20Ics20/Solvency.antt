-- ===== src/Cw20Ics20/Solvency.antt =====
-- contracts/cw20-ics20 as a chain calls it: a channel gives out no more than came in.
use cw_plus.Base.{
  ℕ, ◌+◌, ◌≤◌, ◌≡◌, ◌≢◌, ◌⊎◌, Option, List, [], ok, arith, inl, inr, Option-cases, Result-cases, ap,
}
use cw_plus.Base.Dict.{lookup}
use cw_plus.Base.Dict.Pairs.{lookup_pair}
use cw_plus.Host.{Host, Text, Binary, Env, MessageInfo}
use cw_plus.Cw4Group.State.{Controllers}
use cw_plus.Cw20Ics20.State.{
  IbcPacket, State, InitMsg, ExecuteMsg, Outside, Ics20Ack, result, error, Message, SubMsg,
  undo_reduce_channel_balance, or_default,
}
use cw_plus.Cw20Ics20.Handlers.{instantiate, execute}
use cw_plus.Cw20Ics20.Ibc.{
  IbcChannel, ReceiveResponse, failed, ibc_channel_connect, ibc_packet_receive, on_packet_success,
  ibc_packet_timeout, ibc_packet_ack, ack_failure_id, receive_id, reply,
}
use cw_plus.Cw20Ics20.Balances.{outstanding_of}
use cw_plus.Cw20Ics20.Escrow.{
  paid_by, paid_in, execute-outstanding, on_packet_failure-outstanding,
  ibc_packet_receive-IsLedgered, undo_reduce_channel_balance-outstanding,
}

module _ (h : Host) (x : Outside) where
  -- A packet that was sent is done with: it has timed out or is acknowledged.
  abbrev pub IsFinished : IbcPacket → State → State → List SubMsg → Type 0
  IsFinished packet st st' ms =
      (ibc_packet_timeout h x packet st ≡ ok (st', ms))
      ⊎ ((ack : Binary) × (ibc_packet_ack h x ack packet st ≡ ok (st', ms)))

  module _ (ctl : Controllers) (c d : ℕ) where
    -- One thing that the chain does with the contract, with the reply that it may bring, what it
    -- pays in and what is paid out of the denomination `d` on the channel `c`.
    pub data Step : State → (taken paid : ℕ) → State → Type 0 where
      connected :
          (channel : IbcChannel) (version : Option Text) (st st' : State)
          → ibc_channel_connect h x channel version st ≡ ok st'
          → Step st 0 0 st'
      called :
          (env : Env) (info : MessageInfo) (msg : ExecuteMsg) (st st' : State) (sent : List Message)
          → execute h x ctl env info msg st ≡ ok (st', sent)
          → Step st (paid_in x c d info msg) 0 st'
      received :
          (packet : IbcPacket) (st st' : State) (res : ReceiveResponse)
          → ibc_packet_receive h x packet st ≡ ok (st', res)
          → Step st 0 (paid_by x c d packet.dest.channel_id res.messages) st'
      -- The payment of a packet fails.
      bounced :
          (packet : IbcPacket) (st paying st' : State) (res : ReceiveResponse) (e : ℕ)
          (ack : Option Ics20Ack)
          → ibc_packet_receive h x packet st ≡ ok (paying, res)
          → res.messages ≢ []
          → reply h x receive_id (failed e) paying ≡ ok (st', ack)
          → Step st 0 0 st'
      finished :
          (packet : IbcPacket) (st st' : State) (ms : List SubMsg)
          → IsFinished packet st st' ms
          → Step st 0 (paid_by x c d packet.src.channel_id ms) st'
      -- Giving back the amount of a packet fails.
      kept :
          (packet : IbcPacket) (st paying st' : State) (ms : List SubMsg) (e : ℕ)
          (ack : Option Ics20Ack)
          → IsFinished packet st paying ms
          → reply h x ack_failure_id (failed e) paying ≡ ok (st', ack)
          → Step st 0 0 st'

    pub data Runs : State → (taken paid : ℕ) → State → Type 0 where
      stop : (st : State) → Runs st 0 0 st
      step :
          (st st' st'' : State) (taken paid more_taken more_paid : ℕ)
          → Step st taken paid st'
          → Runs st' more_taken more_paid st''
          → Runs st (taken + more_taken) (paid + more_paid) st''

    -- the balance covers what is paid out
    abbrev Covers : State → (taken paid : ℕ) → State → Type 0
    Covers st taken paid st' = outstanding_of c d st' + paid ≤ outstanding_of c d st + taken

    IsFinished-Covers :
        (packet : IbcPacket) (st st' : State) (ms : List SubMsg)
        → IsFinished packet st st' ms
        → Covers st 0 (paid_by x c d packet.src.channel_id ms) st'
    unfolding ibc_packet_timeout ibc_packet_ack on_packet_success paid_by
    IsFinished-Covers packet st st' ms (inl timeout) =
        ground (arith, on_packet_failure-outstanding x c d h packet st st' ms timeout)
    IsFinished-Covers packet st st' ms (inr (b, acked)) = elim (Option-cases (x.read_ack b)) [
      | inl unread ↦ absurd (ground arith)
      | inr (result r, success) ↦ elim (Option-cases (x.read_packet packet.payload)) [
        | inl unread ↦ absurd (ground arith)
        | inr (msg, read) ↦ ground arith
      ]
      | inr (error e, failure) ↦
          ground (arith, on_packet_failure-outstanding x c d h packet st st' ms (ground arith))
    ]

    bounced-Covers :
        (packet : IbcPacket) (st paying st' : State) (res : ReceiveResponse) (e : ℕ)
        (ack : Option Ics20Ack)
        → ibc_packet_receive h x packet st ≡ ok (paying, res)
        → res.messages ≢ []
        → reply h x receive_id (failed e) paying ≡ ok (st', ack)
        → Covers st 0 0 st'
    unfolding reply
    bounced-Covers packet st paying st' res e ack in_ sends undone =
        elim (ibc_packet_receive-IsLedgered x c d h packet st paying res in_) [
          | inl (silent, _) ↦ absurd (sends silent)
          | inr l ↦
              elim (Result-cases
                (undo_reduce_channel_balance h packet.dest.channel_id l.denom l.amount paying)) [
                  | inl (back, undo) ↦ ground (
                    arith,
                    l.noted,
                    l.lowered,
                    undo_reduce_channel_balance-outstanding x c d h packet.dest.channel_id l.denom
                        l.amount paying back undo,
                  )
                  | inr refused ↦ absurd (ground (arith, l.noted))
                ]
        ]

    Step-Covers :
        (st st' : State) (taken paid : ℕ) → Step st taken paid st' → Covers st taken paid st'
    unfolding ibc_channel_connect reply paid_by
    Step-Covers st st' _ _ (connected channel version _ _ e) = ground arith
    Step-Covers st st' _ _ (called env info msg _ _ sent e) =
        ground (arith, execute-outstanding x c d h ctl env info msg st st' sent e)
    Step-Covers st st' _ _ (received packet _ _ res e) =
        elim (ibc_packet_receive-IsLedgered x c d h packet st st' res e) [
          | inl (silent, less) ↦ ground arith
          | inr l ↦ ground (arith, l.pays, l.lowered)
        ]
    Step-Covers st st' _ _ (bounced packet _ paying _ res e ack got sends undone) =
        bounced-Covers packet st paying st' res e ack got sends undone
    Step-Covers st st' _ _ (finished packet _ _ ms done) = IsFinished-Covers packet st st' ms done
    Step-Covers st st' _ _ (kept packet _ paying _ ms e ack done replied) =
        ground (arith, IsFinished-Covers packet st paying ms done)

    Runs-Covers :
        (st st' : State) (taken paid : ℕ) → Runs st taken paid st' → Covers st taken paid st'
    Runs-Covers st st' _ _ (stop _) = ground arith
    Runs-Covers st st' _ _ (step _ mid _ taken paid more_taken more_paid s rest) =
        ground
          (arith, Step-Covers st mid taken paid s, Runs-Covers mid st' more_taken more_paid rest)

    instantiate-outstanding :
        (msg : InitMsg) (st : State) → instantiate h msg ≡ ok st → outstanding_of c d st ≡ 0
    unfolding instantiate lookup lookup_pair
    instantiate-outstanding msg st e =
        let empty : st.channel_state ≡ [] = ground arith in
        ap (λ s. (or_default (lookup_pair c d s)).outstanding) empty

    -- From the creation of the contract on, whatever the chain does with it, what is paid out of a
    -- denomination on a channel, to receivers and as refunds, together with the balance that the
    -- channel has left is no more than what calls have paid in for it.
    pub instantiate-Runs :
        (msg : InitMsg) (st st' : State) (taken paid : ℕ)
        → instantiate h msg ≡ ok st
        → Runs st taken paid st'
        → paid + outstanding_of c d st' ≤ taken
    instantiate-Runs msg st st' taken paid e runs =
        ground (arith, instantiate-outstanding msg st e, Runs-Covers st st' taken paid runs)
