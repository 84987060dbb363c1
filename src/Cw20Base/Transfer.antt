-- ===== src/Cw20Base/Transfer.antt =====
-- The handlers of contracts/cw20-base/src/contract.rs that move, make and burn tokens.
use cw_plus.Base.{
  ℕ, ◌==◌, Option, none, some, [], ◌∷◌, Result, ok, ◌>>=◌, ◌>>◌, ok_or, or_panic, map_err, ensure,
  leb,
}
use cw_plus.Host.{Host, Text, Addr, Binary, Env, MessageInfo, StdError}
use cw_plus.Cw20Base.State.{
  MinterData, get_cap, State, ContractError, std, unauthorized, cannot_exceed_cap, Outcome, debit,
  credit,
}

-- `addr_validate(…)?`
abbrev pub validated : Host → Text → Result ContractError Addr
validated h s = map_err std (h.addr_validate s)

-- `opt.map(|a| addr_validate(&a)).transpose()?`
abbrev pub validated_option : Host → Option Text → Result ContractError (Option Addr)
validated_option h none = ok none
validated_option h (some s) = do a ← validated h s; ok (some a)

-- The two updates of the balances by which tokens move.
unfoldable pub move_tokens : Host → Addr → Addr → ℕ → State → Result ContractError State
unfolding debit credit
move_tokens h from to amount st = do
  lowered ← debit h from amount st.balances
  raised ← credit h to amount lowered
  ok (record st { balances = raised })

-- `TOKEN_INFO.update(…, |info| info.total_supply = info.total_supply.checked_sub(amount)?)`
unfoldable pub reduce_supply : Host → ℕ → State → Result ContractError State
reduce_supply h amount st = do
  info ← ok_or st.token_info (std StdError.not_found)
  supply ← ok_or (h.sub_128 info.total_supply amount) (std StdError.overflow)
  ok (record st { token_info = some (record info { total_supply = supply }) })

-- `if let Some(limit) = config.get_cap() { if total_supply > limit { … } }`
unfoldable pub check_cap : Option ℕ → ℕ → ContractError → Result ContractError (Unit {0})
check_cap none supply e = ok tt
check_cap (some limit) supply e = ensure (leb supply limit) e

-- `.map(|minter| MinterData { minter, cap: mint.cap })`
abbrev pub with_cap : Option ℕ → Option Addr → Option MinterData
with_cap cap none = none
with_cap cap (some a) = some (record { minter = a; cap = cap })

module _ (h : Host) where
  unfoldable pub execute_transfer : Env → MessageInfo → Text → ℕ → State → Outcome
  execute_transfer env info recipient amount st = do
    rcpt_addr ← validated h recipient
    st' ← move_tokens h info.sender rcpt_addr amount st
    ok (st', [])

  unfoldable pub execute_burn : Env → MessageInfo → ℕ → State → Outcome
  unfolding debit
  execute_burn env info amount st = do
    lowered ← debit h info.sender amount st.balances
    st' ← reduce_supply h amount (record st { balances = lowered })
    ok (st', [])

  unfoldable pub execute_mint : Env → MessageInfo → Text → ℕ → State → Outcome
  unfolding credit
  execute_mint env info recipient amount st = do
    config ← ok_or st.token_info unauthorized
    mint ← ok_or config.mint unauthorized
    ensure (mint.minter == info.sender) unauthorized
    supply ← or_panic (h.add_128 config.total_supply amount)
    check_cap (get_cap config) supply cannot_exceed_cap
    rcpt_addr ← validated h recipient
    raised ← credit h rcpt_addr amount st.balances
    ok (
      record st { token_info = some (record config { total_supply = supply }); balances = raised },
      [],
    )

  unfoldable pub execute_send : Env → MessageInfo → Text → ℕ → Binary → State → Outcome
  execute_send env info contract amount msg st = do
    rcpt_addr ← validated h contract
    st' ← move_tokens h info.sender rcpt_addr amount st
    ok (st', record { contract = contract; sender = info.sender; amount = amount; msg = msg } ∷ [])

  unfoldable pub execute_update_minter : Env → MessageInfo → Option Text → State → Outcome
  execute_update_minter env info new_minter st = do
    config ← ok_or st.token_info unauthorized
    mint ← ok_or config.mint unauthorized
    ensure (mint.minter == info.sender) unauthorized
    addr ← validated_option h new_minter
    ok (record st { token_info = some (record config { mint = with_cap mint.cap addr }) }, [])
