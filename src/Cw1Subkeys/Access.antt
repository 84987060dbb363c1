-- ===== src/Cw1Subkeys/Access.antt =====
-- Who is let through by contracts/cw1-subkeys, and what the query of it answers.
use cw_plus.Base.{
  ◌≡◌, ◌⊎◌, Bool, true, false, some, List, [], ◌∷◌, ok, err, arith, refl, inl, inr, Option-cases,
  Result-cases, Bool-cases,
}
use cw_plus.Base.Dict.{lookup, insert}
use cw_plus.Host.{Host, Env, MessageInfo}
use cw_plus.Cw1Whitelist.State.{AdminList}
use cw_plus.Cw1Whitelist.Handlers.{is_admin, can_modify, execute_freeze, execute_update_admins}
use cw_plus.Cw1Subkeys.State.{
  Wallets, StakingMsg, DistributionMsg, Message, staking, distribution, bank_send, other, State,
  ExecuteMsg, ContractError, std, not_allowed, no_allowance, message_type_rejected,
}
use cw_plus.Cw1Subkeys.Handlers.{
  check_staking_permissions, check_distribution_permissions, check_message, check_messages,
  execute_execute, execute_increase_allowance, execute_decrease_allowance, execute_set_permissions,
  other_account, on_whitelist, execute,
}
use cw_plus.Cw1Subkeys.Queries.{is_allowed, can_execute, query_can_execute}
use cw_plus.Cw1Subkeys.Spending.{Spends, check_messages-Spends}

module _ (h : Host) (w : Wallets) (env : Env) (info : MessageInfo) (st : State) where
  module _ (cfg : AdminList) (listed : st.whitelist.admin_list ≡ some cfg)
      (stranger : is_admin cfg info.sender ≡ false) (st' : State) (out : List Message) where
    execute_execute-Spends :
        (ms : List Message)
        → execute_execute h w env info ms st ≡ ok (st', out)
        → (out ≡ ms) × Spends info.sender ms st st'
    unfolding execute_execute
    execute_execute-Spends ms e =
        (ground arith, check_messages-Spends h w env.block info.sender ms st st' (ground arith))

    -- A message from an account that is no admin is handled only if it asks to execute messages.
    -- They are sent as they are; the account has the permission for each that needs one; and of
    -- the storage nothing changes but the account's own allowance, which goes down by exactly what
    -- the messages send away, in each denomination.
    pub execute-Spends :
        (msg : ExecuteMsg)
        → execute h w env info msg st ≡ ok (st', out)
        → (ms : List Message) × (msg ≡ ExecuteMsg.execute ms)
          × (out ≡ ms)
          × Spends info.sender ms st st'
    unfolding execute execute_increase_allowance execute_decrease_allowance execute_set_permissions
        other_account on_whitelist execute_freeze execute_update_admins can_modify
    execute-Spends (ExecuteMsg.execute ms) e =
        let (same, spends) = execute_execute-Spends ms e in (ms, refl, same, spends)
    execute-Spends ExecuteMsg.freeze e = absurd (ground arith)
    execute-Spends (ExecuteMsg.update_admins admins) e = absurd (ground arith)
    execute-Spends (ExecuteMsg.increase_allowance spender amount expires) e = absurd (ground arith)
    execute-Spends (ExecuteMsg.decrease_allowance spender amount expires) e = absurd (ground arith)
    execute-Spends (ExecuteMsg.set_permissions spender permissions) e = absurd (ground arith)

  staking_agrees :
      (m : StakingMsg) (b : Bool)
      → is_allowed h w env.block info.sender (staking m) st ≡ ok b
      → ((b ≡ true)
          × (st' : State) × (check_message h w env.block info.sender (staking m) st ≡ ok st'))
        ⊎ ((b ≡ false)
            × (e : ContractError) × (check_message h w env.block info.sender (staking m) st
                ≡ err e))
  unfolding is_allowed check_message
  staking_agrees m b q = elim (Option-cases (lookup info.sender st.permissions)) [
    | inl missing ↦ inr (ground arith, not_allowed, ground arith)
    | inr (p, found) ↦ elim (Result-cases (check_staking_permissions m p)) [
      | inl (done, permitted) ↦ inl (ground arith, st, ground arith)
      | inr (inl (e, refused)) ↦ inr (ground arith, e, ground arith)
      | inr (inr broken) ↦ absurd (ground arith)
    ]
  ]

  distribution_agrees :
      (m : DistributionMsg) (b : Bool)
      → is_allowed h w env.block info.sender (distribution m) st ≡ ok b
      → ((b ≡ true)
          × (st' : State) × (check_message h w env.block info.sender (distribution m) st ≡ ok st'))
        ⊎ ((b ≡ false)
            × (e : ContractError) × (check_message h w env.block info.sender (distribution m) st
                ≡ err e))
  unfolding is_allowed check_message
  distribution_agrees m b q = elim (Option-cases (lookup info.sender st.permissions)) [
    | inl missing ↦ inr (ground arith, not_allowed, ground arith)
    | inr (p, found) ↦ elim (Result-cases (check_distribution_permissions m p)) [
      | inl (done, permitted) ↦ inl (ground arith, st, ground arith)
      | inr (inl (e, refused)) ↦ inr (ground arith, e, ground arith)
      | inr (inr broken) ↦ absurd (ground arith)
    ]
  ]

  -- What a check of one message does where the query says what it says.
  is_allowed-check_message :
      (m : Message) (b : Bool)
      → is_allowed h w env.block info.sender m st ≡ ok b
      → ((b ≡ true) × (st' : State) × (check_message h w env.block info.sender m st ≡ ok st'))
        ⊎ ((b ≡ false)
            × (e : ContractError) × (check_message h w env.block info.sender m st ≡ err e))
  unfolding is_allowed check_message
  is_allowed-check_message (staking m) b q = staking_agrees m b q
  is_allowed-check_message (distribution m) b q = distribution_agrees m b q
  is_allowed-check_message (other m) false q = inr (refl, message_type_rejected, refl)
  is_allowed-check_message (other m) true q = absurd (ground arith)
  is_allowed-check_message (bank_send to coins) b q =
      elim (Option-cases (lookup info.sender st.allowances)) [
        | inl missing ↦ inr (ground arith, no_allowance, ground arith)
        | inr (a, found) ↦ elim (Bool-cases (h.is_expired a.expires env.block)) [
          | inl expired ↦ inr (ground arith, no_allowance, ground arith)
          | inr live ↦ elim (Result-cases (w.sub a.balance coins)) [
            | inl (left, covered) ↦ inl (
              ground arith,
              record st {
                allowances = insert info.sender (record a { balance = left }) st.allowances;
              },
              ground arith,
            )
            | inr (inl (e, short)) ↦ inr (ground arith, std e, ground arith)
            | inr (inr broken) ↦ absurd (ground arith)
          ]
        ]
      ]

  -- The answer of the query about one message is what the execution of it does: on yes it goes
  -- through and the message is sent, on no it is refused with an error.
  pub query_can_execute-execute :
      (m : Message) (b : Bool)
      → query_can_execute h w env info.sender m st ≡ ok b
      → ((b ≡ true)
          × (st' : State) × (execute h w env info (ExecuteMsg.execute (m ∷ [])) st
              ≡ ok (st', m ∷ [])))
        ⊎ ((b ≡ false)
            × (e : ContractError) × (execute h w env info (ExecuteMsg.execute (m ∷ [])) st ≡ err e))
  unfolding query_can_execute can_execute execute execute_execute check_messages
  query_can_execute-execute m b q = elim (Option-cases st.whitelist.admin_list) [
    | inl missing ↦ absurd (ground arith)
    | inr (cfg, listed) ↦ elim (Bool-cases (is_admin cfg info.sender)) [
      | inl admin ↦ inl (ground arith, st, ground arith)
      | inr stranger ↦ elim (Result-cases (h.addr_validate info.sender)) [
        | inl (a, v) ↦
            let same : a ≡ info.sender = h.addr_validate_lem info.sender a v in
            elim (is_allowed-check_message m b (ground arith)) [
              | inl (allowed, st', checked) ↦ inl (allowed, st', ground arith)
              | inr (denied, e, refused) ↦ inr (denied, e, ground arith)
            ]
        | inr broken ↦ absurd (ground arith)
      ]
    ]
  ]
