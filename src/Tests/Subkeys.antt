-- ===== src/Tests/Subkeys.antt =====
-- contracts/cw1-subkeys with one admin and a subkey that may spend 50 of a denomination.
use cw_plus.Base.{◌≡◌, ◌⊎◌, true, false, some, List, [], ◌∷◌, ok, err, refl}
use cw_plus.Base.Dict.{lookup, insert}
use cw_plus.Host.{Coin}
use cw_plus.Cw1Whitelist.State.{AdminList}
use cw_plus.Cw1Whitelist.Handlers.{is_admin, is_among}
use cw_plus.Cw1Subkeys.State.{
  Message, bank_send, staking, delegate, Permissions, State, ExecuteMsg, ContractError,
}
use cw_plus.Cw1Subkeys.Handlers.{
  execute, execute_execute, check_message, check_messages, check_staking_permissions,
}
use cw_plus.Cw1Subkeys.Queries.{query_can_execute, can_execute, is_allowed}
use cw_plus.Cw1Subkeys.Spending.{Spends}
use cw_plus.Cw1Subkeys.Access.{execute-Spends, query_can_execute-execute}
use cw_plus.Tests.{plain_host, at, from}
use cw_plus.Tests.Wallets.{plain_wallets, sub_coins, sub_coin}

abbrev keys : AdminList
keys = record { admins = 3 ∷ []; mutable = true }

abbrev pays : Message
pays = bank_send 60 (record { denom = 1; amount = 20 } ∷ [])

abbrev delegates : Message
delegates = staking (delegate 61 (record { denom = 1; amount = 5 }))

abbrev may_delegate : Permissions
may_delegate = record { delegate = true; redelegate = false; undelegate = false; withdraw = false }

-- The storage, with what the subkey may spend.
abbrev wallet : List Coin → State
wallet left = record {
  whitelist = record { version = some 20; admin_list = some keys };
  permissions = (8, may_delegate) ∷ [];
  allowances = (8, record { balance = left; expires = 100 }) ∷ [];
}

abbrev one : Coin
one = record { denom = 1; amount = 50 }

abbrev rest : Coin
rest = record { denom = 1; amount = 30 }

spend_run :
    execute plain_host plain_wallets
      (at 5)
      (from 8)
      (ExecuteMsg.execute (pays ∷ delegates ∷ []))
      (wallet (one ∷ []))
    ≡ ok (wallet (rest ∷ []), pays ∷ delegates ∷ [])
unfolding plain_host execute execute_execute check_messages check_message check_staking_permissions
    is_admin is_among lookup insert sub_coins sub_coin
spend_run = refl

execute-Spends_example :
    (ms : List Message) × (ExecuteMsg.execute (pays ∷ delegates ∷ []) ≡ ExecuteMsg.execute ms)
    × (pays ∷ delegates ∷ [] ≡ ms)
    × Spends 8 ms (wallet (one ∷ [])) (wallet (rest ∷ []))
unfolding is_admin is_among
execute-Spends_example =
    execute-Spends plain_host plain_wallets (at 5) (from 8) (wallet (one ∷ [])) keys refl refl
      (wallet (rest ∷ [])) (pays ∷ delegates ∷ []) (ExecuteMsg.execute (pays ∷ delegates ∷ []))
      spend_run

answer : query_can_execute plain_host plain_wallets (at 100) 8 pays (wallet (one ∷ [])) ≡ ok false
unfolding plain_host query_can_execute can_execute is_allowed is_admin is_among lookup
answer = refl

query_can_execute-execute_example :
    ((false ≡ true)
      × (st' : State) × (execute plain_host plain_wallets
            (at 100)
            (from 8)
            (ExecuteMsg.execute (pays ∷ []))
            (wallet (one ∷ []))
          ≡ ok (st', pays ∷ [])))
    ⊎ ((false ≡ false)
        × (e : ContractError) × (execute plain_host plain_wallets
              (at 100)
              (from 8)
              (ExecuteMsg.execute (pays ∷ []))
              (wallet (one ∷ []))
            ≡ err e))
query_can_execute-execute_example =
    query_can_execute-execute plain_host plain_wallets (at 100) (from 8) (wallet (one ∷ [])) pays
      false answer
