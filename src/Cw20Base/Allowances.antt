-- ===== src/Cw20Base/Allowances.antt =====
-- The handlers of contracts/cw20-base/src/allowances.rs.
use cw_plus.Base.{
  ℕ, ◌==◌, not, Option, none, some, [], ◌∷◌, Result, ok, err, ◌>>=◌, ◌>>◌, ok_or, or_panic, ensure,
  ltb, if◌then◌else◌,
}
use cw_plus.Base.Dict.Pairs.{lookup_pair, insert_pair, erase_pair}
use cw_plus.Host.{Host, Text, Addr, Binary, Block, Env, MessageInfo, StdError, Expiration}
use cw_plus.Cw20.{AllowanceResponse}
use cw_plus.Cw20Base.State.{
  State, ContractError, std, cannot_set_own_account, invalid_expiration, expired, no_allowance,
  Outcome, debit,
}
use cw_plus.Cw20Base.Transfer.{validated, move_tokens, reduce_supply}

module _ (h : Host) where
  -- `AllowanceResponse::default()`
  abbrev pub default_allowance : AllowanceResponse
  default_allowance = record { allowance = 0; expires = h.default_expiration }

  abbrev pub or_default : Option AllowanceResponse → AllowanceResponse
  or_default none = default_allowance
  or_default (some a) = a

  -- `if let Some(exp) = expires { if exp.is_expired(…) { return Err(…) } val.expires = exp; }`
  unfoldable pub set_expires :
      Block → Option Expiration → AllowanceResponse → Result ContractError AllowanceResponse
  set_expires block none val = ok val
  set_expires block (some exp) val = do
    ensure (not (h.is_expired exp block)) invalid_expiration
    ok (record val { expires = exp })

  -- the `update_fn` of `execute_increase_allowance`
  unfoldable pub raise_allowance :
      Block
      → ℕ
      → Option Expiration
      → Option AllowanceResponse
      → Result ContractError AllowanceResponse
  unfolding set_expires
  raise_allowance block amount expires allow = do
    val ← set_expires block expires (or_default allow)
    more ← or_panic (h.add_128 val.allowance amount)
    ok (record val { allowance = more })

  unfoldable pub execute_increase_allowance :
      Env → MessageInfo → Text → ℕ → Option Expiration → State → Outcome
  execute_increase_allowance env info spender amount expires st = do
    spender_addr ← validated h spender
    ensure (not (spender_addr == info.sender)) cannot_set_own_account
    one ←
        raise_allowance env.block amount expires
          (lookup_pair info.sender spender_addr st.allowances)
    two ←
        raise_allowance env.block amount expires
          (lookup_pair spender_addr info.sender st.allowances_spender)
    ok (
      record st {
        allowances = insert_pair info.sender spender_addr one st.allowances;
        allowances_spender = insert_pair spender_addr info.sender two st.allowances_spender;
      },
      [],
    )

  -- The lowered allowance that `execute_decrease_allowance` saves in both maps.
  unfoldable pub lower_allowance :
      Block → ℕ → Option Expiration → AllowanceResponse → Result ContractError AllowanceResponse
  unfolding set_expires
  lower_allowance block amount expires allowance = do
    less ← ok_or (h.sub_128 allowance.allowance amount) (std StdError.overflow)
    set_expires block expires (record allowance { allowance = less })

  unfoldable pub execute_decrease_allowance :
      Env → MessageInfo → Text → ℕ → Option Expiration → State → Outcome
  execute_decrease_allowance env info spender amount expires st = do
    spender_addr ← validated h spender
    ensure (not (spender_addr == info.sender)) cannot_set_own_account
    allowance ← ok_or (lookup_pair info.sender spender_addr st.allowances) (std StdError.not_found)
    if ltb amount allowance.allowance
        then (do
          lowered ← lower_allowance env.block amount expires allowance
          ok (
            record st {
              allowances = insert_pair info.sender spender_addr lowered st.allowances;
              allowances_spender =
                  insert_pair spender_addr info.sender lowered st.allowances_spender;
            },
            [],
          ))
        else ok (
          record st {
            allowances = erase_pair info.sender spender_addr st.allowances;
            allowances_spender = erase_pair spender_addr info.sender st.allowances_spender;
          },
          [],
        )

  -- the `update_fn` of `deduct_allowance`
  unfoldable pub deduct :
      Block → ℕ → Option AllowanceResponse → Result ContractError AllowanceResponse
  deduct block amount none = err no_allowance
  deduct block amount (some a) = do
    ensure (not (h.is_expired a.expires block)) expired
    less ← ok_or (h.sub_128 a.allowance amount) (std StdError.overflow)
    ok (record a { allowance = less })

  unfoldable pub deduct_allowance : Addr → Addr → Block → ℕ → State → Result ContractError State
  deduct_allowance owner spender block amount st = do
    one ← deduct block amount (lookup_pair owner spender st.allowances)
    two ← deduct block amount (lookup_pair spender owner st.allowances_spender)
    ok (record st {
      allowances = insert_pair owner spender one st.allowances;
      allowances_spender = insert_pair spender owner two st.allowances_spender;
    })

  unfoldable pub execute_transfer_from : Env → MessageInfo → Text → Text → ℕ → State → Outcome
  execute_transfer_from env info owner recipient amount st = do
    rcpt_addr ← validated h recipient
    owner_addr ← validated h owner
    deducted ← deduct_allowance owner_addr info.sender env.block amount st
    st' ← move_tokens h owner_addr rcpt_addr amount deducted
    ok (st', [])

  unfoldable pub execute_burn_from : Env → MessageInfo → Text → ℕ → State → Outcome
  unfolding debit
  execute_burn_from env info owner amount st = do
    owner_addr ← validated h owner
    deducted ← deduct_allowance owner_addr info.sender env.block amount st
    lowered ← debit h owner_addr amount deducted.balances
    st' ← reduce_supply h amount (record deducted { balances = lowered })
    ok (st', [])

  unfoldable pub execute_send_from : Env → MessageInfo → Text → Text → ℕ → Binary → State → Outcome
  execute_send_from env info owner contract amount msg st = do
    rcpt_addr ← validated h contract
    owner_addr ← validated h owner
    deducted ← deduct_allowance owner_addr info.sender env.block amount st
    st' ← move_tokens h owner_addr rcpt_addr amount deducted
    ok (st', record { contract = contract; sender = info.sender; amount = amount; msg = msg } ∷ [])

  -- `query_allowance`
  unfoldable pub query_allowance : Text → Text → State → Result ContractError AllowanceResponse
  query_allowance owner spender st = do
    owner_addr ← validated h owner
    spender_addr ← validated h spender
    ok (or_default (lookup_pair owner_addr spender_addr st.allowances))
