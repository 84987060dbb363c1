-- ===== src/Tests/Ics20.antt =====
-- contracts/cw20-ics20 with one channel and one cw20 on the allow list: a transfer goes out and is
-- given back, or comes home.
use cw_plus.Base.{
  ℕ, ◌+◌, ◌-◌, ◌≤◌, ◌≡◌, ◌⊎◌, ltb, leb, Option, none, some, List, [], ◌∷◌, Result, ok, err, refl,
  arith, inl, if◌then◌else◌, u128_max,
}
use cw_plus.Base.Dict.{lookup, insert}
use cw_plus.Base.Dict.Pairs.{lookup_pair, insert_pair}
use cw_plus.Host.{Binary, Coin, Text}
use cw_plus.Cw3.Deposits.{PaymentError}
use cw_plus.Cw20Ics20.State.{
  IbcEndpoint, IbcPacket, ChannelState, State, TransferMsg, Outside, Amount, cw20, Ics20Packet,
  Ics20Ack, result, error, send_packet, denom_of, amount_of, is_empty, increase_channel_balance,
}
use cw_plus.Cw20Ics20.Handlers.{execute_transfer, check_allowed, validate}
use cw_plus.Cw20Ics20.Ibc.{ibc_packet_receive, ibc_packet_timeout, ibc_packet_ack, ReceiveResponse}
use cw_plus.Cw20Ics20.Balances.{ArePayable, outstanding_of}
use cw_plus.Cw20Ics20.Packets.{IsPaid, IsRefused, ibc_packet_receive_lem}
use cw_plus.Cw20Ics20.Returns.{GivesBack, execute_transfer-ibc_packet_timeout}
use cw_plus.Tests.{plain_host, at}

-- A packet is written as the list of its fields.
abbrev write_packet : Ics20Packet → Binary
write_packet p = elim p.memo [
  | none ↦ p.amount ∷ p.denom ∷ p.receiver ∷ p.sender ∷ []
  | some memo ↦ p.amount ∷ p.denom ∷ p.receiver ∷ p.sender ∷ memo ∷ []
]

abbrev packet_with : ℕ → Text → Text → Text → Option Text → Ics20Packet
packet_with amount denom receiver sender memo = record {
  amount = amount;
  denom = denom;
  receiver = receiver;
  sender = sender;
  memo = memo;
}

abbrev read_packet : Binary → Option Ics20Packet
read_packet (n ∷ d ∷ r ∷ s ∷ []) = some (packet_with n d r s none)
read_packet (n ∷ d ∷ r ∷ s ∷ memo ∷ []) = some (packet_with n d r s (some memo))
read_packet _ = none

pub packet_lem :
    (memo : Option Text) (n d r s : ℕ)
    → read_packet (write_packet (packet_with n d r s memo)) ≡ some (packet_with n d r s memo)
packet_lem none n d r s = refl
packet_lem (some memo) n d r s = refl

-- A transfer is written as its channel and its receiver.
abbrev read_transfer : Binary → Option TransferMsg
read_transfer (channel ∷ to ∷ []) =
    some (record { channel = channel; remote_address = to; timeout = none; memo = none })
read_transfer _ = none

abbrev one_coin : List Coin → Result PaymentError Coin
one_coin (c ∷ []) = if ltb 0 c.amount then ok c else err 2
one_coin _ = err 2

pub one_coin_lem : (funds : List Coin) (c : Coin) → one_coin funds ≡ ok c → funds ≡ c ∷ []
one_coin_lem [] c e = absurd (ground arith)
one_coin_lem (c' ∷ []) c e = ground arith
one_coin_lem (_ ∷ _ ∷ _) c e = absurd (ground arith)

abbrev token_address : Text → Option Text
token_address d = if leb 1000 d then some (d - 1000) else none

pub token_lem : (a : ℕ) → token_address (1000 + a) ≡ some a
token_lem a = ground arith

pub denom_lem : (d a : ℕ) → token_address d ≡ some a → 1000 + a ≡ d
denom_lem d a e = ground arith

-- 0 starts an acknowledgement of success.
abbrev read_ack : Binary → Option Ics20Ack
read_ack [] = none
read_ack (n ∷ rest) = some (if leb n 0 then result rest else error n)

-- The denominations of this side's tokens are 5000 up on the other side.
abbrev pub elsewhere : Outside
elsewhere = record {
  one_coin = λ info. one_coin info.funds;
  one_coin_lem = λ info c. one_coin_lem info.funds c;
  nonpayable = λ info. ok tt;
  plus_seconds = λ time seconds. some (time + seconds);
  read_transfer = read_transfer;
  read_packet = read_packet;
  write_packet = write_packet;
  read_packet_lem = λ p. packet_lem p.memo p.amount p.denom p.receiver p.sender;
  read_ack = read_ack;
  cw20_denom = λ a. 1000 + a;
  cw20_address = token_address;
  cw20_address_lem = token_lem;
  cw20_denom_lem = denom_lem;
  split_denom = λ d. if leb 5000 d then some (70, 71, d - 5000) else none;
  to_string = λ e. 4;
  success_result = 1 ∷ [];
  ics20_version = 20;
}

abbrev pub there : IbcEndpoint
there = record { port_id = 70; channel_id = 71 }

abbrev pub here : IbcEndpoint
here = record { port_id = 60; channel_id = 61 }

abbrev pub opened : ChannelState → State
opened balance = record {
  version = some 20;
  admin = some 9;
  config = some (record { default_timeout = 100; default_gas_limit = none });
  reply_args = none;
  channel_info = (61, record { id = 61; counterparty_endpoint = there; connection_id = 5 }) ∷ [];
  channel_state = (61, (1003, balance) ∷ []) ∷ [];
  allow_list = (3, record { gas_limit = some 50 }) ∷ [];
}

abbrev before : State
before = opened (record { outstanding = 10; total_sent = 40 })

abbrev after : State
after = opened (record { outstanding = 15; total_sent = 45 })

abbrev tokens : Amount
tokens = cw20 (record { address = 3; amount = 5 })

abbrev transfer : TransferMsg
transfer = record { channel = 61; remote_address = 88; timeout = none; memo = none }

transfer_run :
    execute_transfer plain_host elsewhere (at 6) transfer tokens 4 before
    ≡ ok (after, send_packet 61 (5 ∷ 1003 ∷ 88 ∷ 4 ∷ []) 130 ∷ [])
unfolding plain_host execute_transfer check_allowed validate increase_channel_balance denom_of
    amount_of is_empty insert insert_pair lookup lookup_pair
transfer_run = refl

execute_transfer-ibc_packet_timeout_example :
    (payload : Binary) × (timeout : ℕ) × (send_packet 61 (5 ∷ 1003 ∷ 88 ∷ 4 ∷ []) 130 ∷ []
      ≡ send_packet 61 payload timeout ∷ [])
    × ((packet : IbcPacket)
        → packet.src.channel_id ≡ 61
        → packet.payload ≡ payload
        → GivesBack plain_host elsewhere tokens 4 before
            (ibc_packet_timeout plain_host elsewhere packet after)
          × ((ack : Binary) (e : ℕ)
              → read_ack ack ≡ some (error e)
              → GivesBack plain_host elsewhere tokens 4 before
                  (ibc_packet_ack plain_host elsewhere ack packet after)))
execute_transfer-ibc_packet_timeout_example =
    execute_transfer-ibc_packet_timeout plain_host elsewhere (at 6) transfer tokens 4 before after
      (send_packet 61 (5 ∷ 1003 ∷ 88 ∷ 4 ∷ []) 130 ∷ []) tt transfer_run

-- Seven of the tokens come home.
abbrev homeward : IbcPacket
homeward = record { payload = 7 ∷ 6003 ∷ 4 ∷ 88 ∷ []; src = there; dest = here }

after-ArePayable : ArePayable plain_host elsewhere after
unfolding plain_host lookup lookup_pair
after-ArePayable c d a s found token =
    (ground arith, inl (record { gas_limit = some 50 }, ground arith))

after_fits : (c d : ℕ) → outstanding_of c d after ≤ u128_max
unfolding lookup lookup_pair
after_fits c d = ground arith

ibc_packet_receive_lem_example :
    (st' : State) × (res : ReceiveResponse) × (ibc_packet_receive plain_host elsewhere homeward
        after
      ≡ ok (st', res))
    × (IsPaid plain_host elsewhere homeward after st' res
        ⊎ IsRefused plain_host elsewhere homeward after st' res)
ibc_packet_receive_lem_example =
    ibc_packet_receive_lem plain_host elsewhere homeward after after-ArePayable after_fits
