-- ===== src/Tests/Channels.antt =====
-- contracts/cw20-ics20 from its creation on, and a migration of it.
use cw_plus.Base.{◌+◌, ◌≤◌, ◌≡◌, none, some, [], ◌∷◌, ok, err, refl, arith}
use cw_plus.Base.Dict.{lookup, insert}
use cw_plus.Base.Dict.Pairs.{lookup_pair, insert_pair}
use cw_plus.Host.{StdError, MessageInfo}
use cw_plus.Cw20Ics20.State.{
  InitMsg, ExecuteMsg, cw20_transfer, from_parts, reduce_channel_balance, IbcPacket, ChannelState,
  State, result, send_packet, denom_of, amount_of, is_empty, increase_channel_balance,
}
use cw_plus.Cw20Ics20.Handlers.{
  instantiate, save_allows, execute, execute_receive, execute_transfer, check_allowed, validate,
}
use cw_plus.Cw20Ics20.Ibc.{
  IbcChannel, unordered, ibc_channel_connect, enforce_order_and_version, is_other_version,
  is_unordered, do_ibc_packet_receive, parse_voucher_denom, check_gas_limit, send_amount,
  receive_id, ibc_packet_receive, ReceiveResponse,
}
use cw_plus.Cw20Ics20.Balances.{outstanding_of}
use cw_plus.Cw20Ics20.Escrow.{paid_in, paid_by}
use cw_plus.Cw20Ics20.Solvency.{Runs, stop, step, connected, called, received, instantiate-Runs}
use cw_plus.Tests.Group.{plain_controllers}
use cw_plus.Tests.{plain_host, at}
use cw_plus.Tests.Ics20.{elsewhere, there, here, opened}
use cw_plus.Cw20Ics20.Migrate.{
  Chain, Stored, balance_of, update_denom, update_denoms, update_channels, convert_config, convert,
  set_gas_limit, save_version, migrate,
}
use cw_plus.Cw20Ics20.Settled.{IsSettled, migrate-IsSettled}
use cw_plus.Base.Dict.{IsMap}

-- A new contract, with a channel, on which five of the tokens go out and two come home.
abbrev created : State
created = record {
  version = some 20;
  admin = some 9;
  config = some (record { default_timeout = 100; default_gas_limit = none });
  reply_args = none;
  channel_info = [];
  channel_state = [];
  allow_list = (3, record { gas_limit = some 50 }) ∷ [];
}

abbrev creation : InitMsg
creation = record {
  default_timeout = 100;
  gov_contract = 9;
  allowlist = record { contract = 3; gas_limit = some 50 } ∷ [];
  default_gas_limit = none;
}

abbrev channel : IbcChannel
channel = record {
  endpoint = here;
  counterparty_endpoint = there;
  order = unordered;
  version = 20;
  connection_id = 5;
}

abbrev connected_state : State
connected_state = record created {
  channel_info = (61, record { id = 61; counterparty_endpoint = there; connection_id = 5 }) ∷ [];
}

abbrev out : State
out = opened (record { outstanding = 5; total_sent = 5 })

abbrev home : State
home = record (opened (record { outstanding = 3; total_sent = 5 })) {
  reply_args = some (record { channel = 61; denom = 1003; amount = 2 });
}

abbrev two_home : IbcPacket
two_home = record { payload = 2 ∷ 6003 ∷ 4 ∷ 88 ∷ []; src = there; dest = here }

abbrev token_call : MessageInfo
token_call = record { sender = 3; funds = [] }

abbrev sending : ExecuteMsg
sending = ExecuteMsg.receive (record { contract = 900; sender = 4; amount = 5; msg = 61 ∷ 88 ∷ [] })

abbrev paid_home : ReceiveResponse
paid_home = record {
  acknowledgement = result (1 ∷ []);
  messages = record { msg = cw20_transfer 3 4 2; id = receive_id; gas_limit = some 50 } ∷ [];
}

instantiate_run : instantiate plain_host creation ≡ ok created
unfolding plain_host instantiate save_allows insert
instantiate_run = refl

connect_run :
    ibc_channel_connect plain_host elsewhere channel (some 20) created ≡ ok connected_state
unfolding ibc_channel_connect enforce_order_and_version is_other_version is_unordered insert
connect_run = refl

send_run :
    execute plain_host elsewhere plain_controllers (at 6) token_call sending connected_state
    ≡ ok (out, send_packet 61 (5 ∷ 1003 ∷ 88 ∷ 4 ∷ []) 130 ∷ [])
unfolding plain_host execute execute_receive execute_transfer check_allowed validate
    increase_channel_balance denom_of amount_of is_empty insert insert_pair lookup lookup_pair
send_run = refl

home_run : ibc_packet_receive plain_host elsewhere two_home out ≡ ok (home, paid_home)
unfolding plain_host ibc_packet_receive do_ibc_packet_receive parse_voucher_denom
    reduce_channel_balance check_gas_limit from_parts send_amount insert insert_pair lookup
    lookup_pair
home_run = refl

runs : Runs plain_host elsewhere plain_controllers 61 1003 created 5 2 home
unfolding paid_in paid_by
runs =
    step created connected_state home 0 0 5 2
      (connected channel (some 20) created connected_state connect_run)
      (step connected_state out home 5 0 0 2
        (called (at 6) token_call sending connected_state out
          (send_packet 61 (5 ∷ 1003 ∷ 88 ∷ 4 ∷ []) 130 ∷ []) send_run)
        (step out home home 0 2 0 0 (received two_home out home paid_home home_run) (stop home)))

instantiate-Runs_example : 2 + outstanding_of 61 1003 home ≤ 5
instantiate-Runs_example =
    instantiate-Runs plain_host elsewhere plain_controllers 61 1003 creation created home 5 2
      instantiate_run runs

-- Version 13, migrated when the contract holds 17 of the token: seven are in flight.
abbrev chain : Chain
chain = record {
  parse = λ v. ok v;
  migrate_min_version = 11;
  migrate_version_2 = 12;
  migrate_version_3 = 13;
  contract_name = 1;
  multiple_channels_open = 2;
  query_balance = λ d. ok 0;
  query_cw20_balance = λ a. ok 17;
}

abbrev stored : Stored
stored = record { contract = 1; old_config = err StdError.not_found }

abbrev version_13 : State
version_13 = record (opened (record { outstanding = 10; total_sent = 40 })) { version = some 13 }

abbrev version_20 : State
version_20 = record (opened (record { outstanding = 17; total_sent = 47 })) {
  config = some (record { default_timeout = 100; default_gas_limit = some 60 });
}

migrate_run : migrate plain_host elsewhere chain stored (some 60) version_13 ≡ ok version_20
unfolding plain_host migrate convert convert_config update_channels update_denoms update_denom
    balance_of from_parts set_gas_limit save_version insert insert_pair lookup
migrate_run = refl

version_13-IsMap :
    IsMap {V = ChannelState} ((1003, record { outstanding = 10; total_sent = 40 }) ∷ [])
version_13-IsMap = (tt, tt)

migrate-IsSettled_example :
    IsSettled plain_host elsewhere chain 61 1003
      (record { outstanding = 10; total_sent = 40 })
      version_20
unfolding lookup lookup_pair
migrate-IsSettled_example =
    migrate-IsSettled plain_host elsewhere chain 61 stored (some 60) version_13 version_20
      (record { id = 61; counterparty_endpoint = there; connection_id = 5 }) 13 13 1003
      (record { outstanding = 10; total_sent = 40 }) migrate_run refl refl (omega arith) refl
      version_13-IsMap refl
