-- ===== src/Cw20Base/Steps.antt =====
-- The steps of a handler that returned, one lemma for each handler.
use cw_plus.Base.{
  ℕ, ◌≤◌, ◌≡◌, ◌==◌, true, false, Option, some, List, ok, arith, ltb, Result-cases, inl, inr, ◌⊎◌,
}
use cw_plus.Base.Dict.{Dict}
use cw_plus.Base.Dict.Pairs.{lookup_pair, insert_pair, erase_pair}
use cw_plus.Host.{Host, Env, MessageInfo, Text, Binary, Expiration}
use cw_plus.Cw20.{Cw20ReceiveMsg, AllowanceResponse}
use cw_plus.Cw20Base.State.{
  State, TokenInfo, MinterData, balance_of, debit, credit, cannot_exceed_cap,
}
use cw_plus.Cw20Base.Transfer.{
  move_tokens, reduce_supply, execute_transfer, execute_burn, execute_mint, execute_send, check_cap,
}
use cw_plus.Cw20Base.Allowances.{
  raise_allowance, lower_allowance, deduct, deduct_allowance, execute_increase_allowance,
  execute_decrease_allowance, execute_transfer_from, execute_burn_from, execute_send_from,
}
use cw_plus.Cw20Base.Ledger.{lowered, debit_lem}

module _ (h : Host) (env : Env) (info : MessageInfo) (st st' : State)
    (ms : List Cw20ReceiveMsg) where
  pub transfer_steps :
      (to : Text) (x : ℕ)
      → execute_transfer h env info to x st ≡ ok (st', ms)
      → (a : ℕ) × (h.addr_validate to ≡ ok a) × (move_tokens h info.sender a x st ≡ ok st')
  unfolding execute_transfer
  transfer_steps to x e = ground arith

  pub transfer_from_steps :
      (owner to : Text) (x : ℕ)
      → execute_transfer_from h env info owner to x st ≡ ok (st', ms)
      → (a : ℕ) × (o : ℕ) × (d : State) × (h.addr_validate to ≡ ok a)
        × (h.addr_validate owner ≡ ok o)
        × (deduct_allowance h o info.sender env.block x st ≡ ok d)
        × (move_tokens h o a x d ≡ ok st')
  unfolding execute_transfer_from
  transfer_from_steps owner to x e = ground arith

  pub send_steps :
      (to : Text) (x : ℕ) (msg : Binary)
      → execute_send h env info to x msg st ≡ ok (st', ms)
      → (a : ℕ) × (h.addr_validate to ≡ ok a) × (move_tokens h info.sender a x st ≡ ok st')
  unfolding execute_send
  send_steps to x msg e = ground arith

  pub burn_steps :
      (x : ℕ)
      → execute_burn h env info x st ≡ ok (st', ms)
      → (x ≤ balance_of info.sender st.balances)
        × (reduce_supply h x (record st { balances = lowered info.sender x st.balances }) ≡ ok st')
  unfolding execute_burn
  burn_steps x e = ground (arith, debit_lem h info.sender x st.balances)

  -- A mint is the minter's, and within the cap.
  pub mint_steps :
      (to : Text) (x : ℕ)
      → execute_mint h env info to x st ≡ ok (st', ms)
      → (t : TokenInfo) × (m : MinterData) × (a n : ℕ) × (b : Dict ℕ) × (st.token_info ≡ some t)
        × (t.mint ≡ some m)
        × (m.minter ≡ info.sender)
        × (h.add_128 t.total_supply x ≡ some n)
        × (check_cap m.cap n cannot_exceed_cap ≡ ok tt)
        × (h.addr_validate to ≡ ok a)
        × (credit h a x st.balances ≡ ok b)
        × (st' ≡ record st { token_info = some (record t { total_supply = n }); balances = b })
  unfolding execute_mint
  mint_steps to x e = ground arith

  pub send_from_steps :
      (owner to : Text) (x : ℕ) (msg : Binary)
      → execute_send_from h env info owner to x msg st ≡ ok (st', ms)
      → (a : ℕ) × (o : ℕ) × (d : State) × (h.addr_validate to ≡ ok a)
        × (h.addr_validate owner ≡ ok o)
        × (deduct_allowance h o info.sender env.block x st ≡ ok d)
        × (move_tokens h o a x d ≡ ok st')
  unfolding execute_send_from
  send_from_steps owner to x msg e = ground arith

  pub burn_from_steps :
      (owner : Text) (x : ℕ)
      → execute_burn_from h env info owner x st ≡ ok (st', ms)
      → (o : ℕ) × (d : State) × (h.addr_validate owner ≡ ok o)
        × (deduct_allowance h o info.sender env.block x st ≡ ok d)
        × (debit h o x d.balances ≡ ok (lowered o x d.balances))
        × (x ≤ balance_of o d.balances)
        × (reduce_supply h x (record d { balances = lowered o x d.balances }) ≡ ok st')
  unfolding execute_burn_from
  burn_from_steps owner x e = elim (Result-cases (h.addr_validate owner)) [
    | inl (o, v) ↦ elim (Result-cases (deduct_allowance h o info.sender env.block x st)) [
      | inl (d, c) ↦ (
        o,
        d,
        v,
        c,
        ground (arith, debit_lem h o x d.balances),
        ground (arith, debit_lem h o x d.balances),
        ground (arith, debit_lem h o x d.balances),
      )
      | inr refused ↦ absurd (ground arith)
    ]
    | inr refused ↦ absurd (ground arith)
  ]

  pub deduct_steps :
      (o s x : ℕ)
      → deduct_allowance h o s env.block x st ≡ ok st'
      → (one two : AllowanceResponse) × (deduct h env.block x (lookup_pair o s st.allowances)
          ≡ ok one)
        × (deduct h env.block x (lookup_pair s o st.allowances_spender) ≡ ok two)
        × (st' ≡ record st {
          allowances = insert_pair o s one st.allowances;
          allowances_spender = insert_pair s o two st.allowances_spender;
        })
  unfolding deduct_allowance
  deduct_steps o s x e = ground arith

  pub increase_steps :
      (spender : Text) (x : ℕ) (exp : Option Expiration)
      → execute_increase_allowance h env info spender x exp st ≡ ok (st', ms)
      → (s : ℕ) × (one two : AllowanceResponse) × (h.addr_validate spender ≡ ok s)
        × ((s == info.sender) ≡ false)
        × (raise_allowance h env.block x exp (lookup_pair info.sender s st.allowances) ≡ ok one)
        × (raise_allowance h env.block x exp (lookup_pair s info.sender st.allowances_spender)
            ≡ ok two)
        × (st' ≡ record st {
          allowances = insert_pair info.sender s one st.allowances;
          allowances_spender = insert_pair s info.sender two st.allowances_spender;
        })
  unfolding execute_increase_allowance
  increase_steps spender x exp e = ground arith

  -- A decrease lowers the allowance in both maps, or removes it from both.
  pub decrease_steps :
      (spender : Text) (x : ℕ) (exp : Option Expiration)
      → execute_decrease_allowance h env info spender x exp st ≡ ok (st', ms)
      → (s : ℕ) × (old : AllowanceResponse) × (h.addr_validate spender ≡ ok s)
        × ((s == info.sender) ≡ false)
        × (lookup_pair info.sender s st.allowances ≡ some old)
        × (((new : AllowanceResponse) × (ltb x old.allowance ≡ true)
              × (lower_allowance h env.block x exp old ≡ ok new)
              × (st' ≡ record st {
                allowances = insert_pair info.sender s new st.allowances;
                allowances_spender = insert_pair s info.sender new st.allowances_spender;
              }))
            ⊎ ((ltb x old.allowance ≡ false)
                × (st' ≡ record st {
                  allowances = erase_pair info.sender s st.allowances;
                  allowances_spender = erase_pair s info.sender st.allowances_spender;
                })))
  unfolding execute_decrease_allowance
  decrease_steps spender x exp e = ground arith
