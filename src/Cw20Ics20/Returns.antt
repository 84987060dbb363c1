-- ===== src/Cw20Ics20/Returns.antt =====
-- Transfers of contracts/cw20-ics20 that fail on the other side, and are given back.
use cw_plus.Base.{
  ℕ, ◌≡◌, Option, none, some, List, [], ◌∷◌, Result, ok, arith, inl, inr, unwrap_or, Option-cases,
  Result-cases, ap, ◌∙◌,
}
use cw_plus.Base.Dict.{lookup}
use cw_plus.Host.{Host, Addr, Binary, Env}
use cw_plus.Cw20Ics20.State.{
  IbcPacket, Config, State, TransferMsg, Outside, Amount, native, cw20, ContractError, Ics20Packet,
  error, Message, send_packet, SubMsg, from_parts, denom_of, amount_of, increase_channel_balance,
  reduce_channel_balance,
}
use cw_plus.Cw20Ics20.Handlers.{execute_transfer, packet_of, check_allowed}
use cw_plus.Cw20Ics20.Ibc.{
  check_gas_limit, on_packet_failure, ibc_packet_timeout, ibc_packet_ack, ack_failure_id,
}
use cw_plus.Cw20Ics20.Payments.{payment, send_amount_lem}
use cw_plus.Cw20Ics20.Balances.{outstanding_of, increase_channel_balance-reduce}

-- The denomination of a native coin does not look like that of a cw20.
abbrev pub IsPlain : Outside → Amount → Type 0
IsPlain x (native coin) = x.cw20_address coin.denom ≡ none
IsPlain x (cw20 coin) = Unit {0}

module _ (h : Host) (x : Outside) where
  from_parts-denom_of :
      (amount : Amount)
      → IsPlain x amount
      → from_parts x (denom_of x amount) (amount_of amount) ≡ amount
  unfolding from_parts denom_of amount_of
  from_parts-denom_of (native coin) plain = ground arith
  from_parts-denom_of (cw20 coin) plain = ground (arith, x.cw20_address_lem coin.address)

  check_allowed-check_gas_limit :
      (config : Config) (amount : Amount) (st st' : State)
      → st.config ≡ some config
      → check_allowed h x config amount st ≡ ok tt
      → st'.allow_list ≡ st.allow_list
      → st'.config ≡ st.config
      → (g : Option ℕ) × (check_gas_limit h x amount st' ≡ ok g)
  unfolding check_allowed check_gas_limit
  check_allowed-check_gas_limit config (native coin) st st' known e list same = (none, ground arith)
  check_allowed-check_gas_limit config (cw20 coin) st st' known e list same =
      elim (Result-cases (h.addr_validate coin.address)) [
        | inl (addr, valid) ↦ elim (Option-cases (lookup addr st.allow_list)) [
          | inr (i, listed) ↦ (i.gas_limit, ground arith)
          | inl unlisted ↦ elim (Option-cases config.default_gas_limit) [
            | inl missing ↦ absurd (ground arith)
            | inr (g, base) ↦ (some g, ground arith)
          ]
        ]
        | inr refused ↦ absurd (ground arith)
      ]

  -- What a transfer does when it is handled.
  pub record IsSent (env : Env) (msg : TransferMsg) (amount : Amount) (sender : Addr)
      (st st' : State) (sent : List Message) : Type 0 where
    pub timeout : ℕ
    pub config : Config
    pub known : st.config ≡ some config
    pub allowed : check_allowed h x config amount st ≡ ok tt
    pub increased :
        increase_channel_balance h msg.channel (denom_of x amount) (amount_of amount) st ≡ ok st'
    pub packet :
        sent
        ≡ send_packet msg.channel (x.write_packet (packet_of h x msg amount sender)) timeout ∷ []

  pub execute_transfer-IsSent :
      (env : Env) (msg : TransferMsg) (amount : Amount) (sender : Addr) (st st' : State)
      (sent : List Message)
      → execute_transfer h x env msg amount sender st ≡ ok (st', sent)
      → IsSent env msg amount sender st st' sent
  unfolding execute_transfer
  execute_transfer-IsSent env msg amount sender st st' sent e = elim (Option-cases st.config) [
    | inl missing ↦ absurd (ground arith)
    | inr (config, known) ↦
        elim (Option-cases
          (x.plus_seconds env.block.time (unwrap_or msg.timeout config.default_timeout))) [
            | inl stopped ↦ absurd (ground arith)
            | inr (timeout, late) ↦ record {
              timeout = timeout;
              config = config;
              known = known;
              allowed = ground arith;
              increased = ground arith;
              packet = ground arith;
            }
          ]
  ]

  -- One message pays the amount to the account, and every balance is as in the state before.
  abbrev pub GivesBack : Amount → Addr → State → Result ContractError (State × List SubMsg) → Type 0
  GivesBack amount sender st r =
      (st' : State) × (gas : Option ℕ) × (r
        ≡ ok (
          st',
          record { msg = payment amount sender; id = ack_failure_id; gas_limit = gas } ∷ [],
        ))
      × ((c d : ℕ) → outstanding_of c d st' ≡ outstanding_of c d st)

  on_packet_failure-pays :
      (packet : IbcPacket) (p : Ics20Packet) (amount : Amount) (st less : State) (gas : Option ℕ)
      → x.read_packet packet.payload ≡ some p
      → from_parts x p.denom p.amount ≡ amount
      → reduce_channel_balance h packet.src.channel_id p.denom p.amount st ≡ ok less
      → check_gas_limit h x amount less ≡ ok gas
      → on_packet_failure h x packet st
        ≡ ok (
          less,
          record { msg = payment amount p.sender; id = ack_failure_id; gas_limit = gas } ∷ [],
        )
  unfolding on_packet_failure
  on_packet_failure-pays packet p amount st less gas read same reduced limit =
      ground (arith, send_amount_lem amount p.sender)

  IsSent-GivesBack :
      (env : Env) (msg : TransferMsg) (amount : Amount) (sender : Addr) (st st' : State)
      (sent : List Message) (packet : IbcPacket)
      → IsPlain x amount
      → IsSent env msg amount sender st st' sent
      → packet.src.channel_id ≡ msg.channel
      → packet.payload ≡ x.write_packet (packet_of h x msg amount sender)
      → GivesBack amount sender st (on_packet_failure h x packet st')
  IsSent-GivesBack env msg amount sender st st' sent packet plain s channel payload =
      let (less, reduced, list, config, back, _) =
        increase_channel_balance-reduce h msg.channel (denom_of x amount) (amount_of amount) st st'
          s.increased in
      let (gas, limit) =
        check_allowed-check_gas_limit s.config amount st less s.known s.allowed list config in
      (
        less,
        gas,
        on_packet_failure-pays packet (packet_of h x msg amount sender) amount st' less gas
            (ap x.read_packet payload ∙ x.read_packet_lem (packet_of h x msg amount sender))
            (from_parts-denom_of amount plain)
            (ap (λ c. reduce_channel_balance h c (denom_of x amount) (amount_of amount) st') channel
              ∙ reduced)
            limit,
        back,
      )

  -- A transfer that is handled sends one packet. If it times out, or is acknowledged with an error,
  -- the contract gives the amount back to the account that sent it, in one message, and has every
  -- balance of the channels as before the transfer, provided that a native coin's denomination is
  -- not one of a cw20.
  pub execute_transfer-ibc_packet_timeout :
      (env : Env) (msg : TransferMsg) (amount : Amount) (sender : Addr) (st st' : State)
      (sent : List Message)
      → IsPlain x amount
      → execute_transfer h x env msg amount sender st ≡ ok (st', sent)
      → (payload : Binary) × (timeout : ℕ) × (sent ≡ send_packet msg.channel payload timeout ∷ [])
        × ((packet : IbcPacket)
            → packet.src.channel_id ≡ msg.channel
            → packet.payload ≡ payload
            → GivesBack amount sender st (ibc_packet_timeout h x packet st')
              × ((ack : Binary) (e : ℕ)
                  → x.read_ack ack ≡ some (error e)
                  → GivesBack amount sender st (ibc_packet_ack h x ack packet st')))
  unfolding ibc_packet_timeout ibc_packet_ack
  execute_transfer-ibc_packet_timeout env msg amount sender st st' sent plain e =
      let s = execute_transfer-IsSent env msg amount sender st st' sent e in
      (
        x.write_packet (packet_of h x msg amount sender),
        s.timeout,
        s.packet,
        λ packet channel payload.
            let (less, gas, returned, back) =
              IsSent-GivesBack env msg amount sender st st' sent packet plain s channel payload in
            ((less, gas, returned, back), λ ack e' read. (less, gas, ground arith, back)),
      )
