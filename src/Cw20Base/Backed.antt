-- ===== src/Cw20Base/Backed.antt =====
-- Every handler keeps the balances adding up to the total supply.
use cw_plus.Base.{ℕ, ◌+◌, ◌-◌, ◌≤◌, ◌≡◌, List, ok, arith}
use cw_plus.Base.Dict.{insert-IsMap}
use cw_plus.Host.{Host, Env, MessageInfo, Text}
use cw_plus.Cw20.{
  Cw20ReceiveMsg, Cw20ExecuteMsg, transfer, burn, send, increase_allowance, decrease_allowance,
  transfer_from, send_from, burn_from, mint, update_minter, update_marketing, upload_logo,
}
use cw_plus.Cw20Base.State.{State, balance_of}
use cw_plus.Cw20Base.Transfer.{move_tokens, reduce_supply, execute_mint, execute_update_minter}
use cw_plus.Cw20Base.Allowances.{deduct_allowance}
use cw_plus.Cw20Base.Marketing.{execute_update_marketing, execute_upload_logo}
use cw_plus.Cw20Base.Execute.{execute}
use cw_plus.Cw20Base.Steps.{
  transfer_steps, send_steps, burn_steps, mint_steps, transfer_from_steps, send_from_steps,
  burn_from_steps, deduct_steps, increase_steps, decrease_steps,
}
use cw_plus.Cw20Base.Ledger.{
  IsBacked, supply, lowered, credit_lem, total_of-lowered, total_of-raised, move_tokens-moved,
  moved-IsBacked,
}

module _ (h : Host) where
  move_tokens-IsBacked :
      (from to x : ℕ) (st st' : State)
      → IsBacked st
      → move_tokens h from to x st ≡ ok st'
      → IsBacked st'
  move_tokens-IsBacked from to x st st' good e =
      ground (arith, move_tokens-moved h from to x st good, moved-IsBacked h from to x st good)

  -- Burning takes the amount from a balance and from the supply.
  burn-IsBacked :
      (a x : ℕ) (st st' : State)
      → IsBacked st
      → x ≤ balance_of a st.balances
      → reduce_supply h x (record st { balances = lowered a x st.balances }) ≡ ok st'
      → IsBacked st'
  unfolding reduce_supply
  burn-IsBacked a x st st' good le e = ground (
    arith,
    h.sub_128_lem (supply st) x,
    total_of-lowered a x st.balances good.is_map,
    insert-IsMap a (balance_of a st.balances - x) st.balances good.is_map,
  )

  module _ (env : Env) (info : MessageInfo) (st st' : State) (ms : List Cw20ReceiveMsg)
      (good : IsBacked st) where
    execute_mint-IsBacked :
        (to : Text) (x : ℕ) → execute_mint h env info to x st ≡ ok (st', ms) → IsBacked st'
    execute_mint-IsBacked to x e =
        let (t, m, a, n, b, et, em, es, en, cap, va, eb, e') =
          mint_steps h env info st st' ms to x e in
        ground (
          arith,
          h.add_128_lem (supply st) x,
          credit_lem h a x st.balances,
          total_of-raised a x st.balances good.is_map,
          insert-IsMap a (balance_of a st.balances + x) st.balances good.is_map,
        )

    pub deducted-IsBacked :
        (o s x : ℕ) (d : State) → deduct_allowance h o s env.block x st ≡ ok d → IsBacked d
    deducted-IsBacked o s x d e =
        let (one, two, e1, e2, e') = deduct_steps h env info st d ms o s x e in ground (arith, good)

    -- A message that is handled keeps the balances adding up to the supply.
    pub execute-IsBacked :
        (msg : Cw20ExecuteMsg) → execute h env info msg st ≡ ok (st', ms) → IsBacked st'
    unfolding execute
    execute-IsBacked (transfer to x) e =
        let (a, va, m) = transfer_steps h env info st st' ms to x e in
        move_tokens-IsBacked info.sender a x st st' good m
    execute-IsBacked (burn x) e =
        let (le, r) = burn_steps h env info st st' ms x e in
        burn-IsBacked info.sender x st st' good le r
    execute-IsBacked (send to x msg) e =
        let (a, va, m) = send_steps h env info st st' ms to x msg e in
        move_tokens-IsBacked info.sender a x st st' good m
    execute-IsBacked (mint to x) e = execute_mint-IsBacked to x e
    execute-IsBacked (increase_allowance s x exp) e =
        let (a, one, two, v, n, e1, e2, e') = increase_steps h env info st st' ms s x exp e in
        ground (arith, good)
    execute-IsBacked (decrease_allowance s x exp) e =
        let (a, old, v, n, e1, e') = decrease_steps h env info st st' ms s x exp e in
        ground (arith, good)
    execute-IsBacked (transfer_from owner to x) e =
        let (a, o, d, va, vo, c, m) = transfer_from_steps h env info st st' ms owner to x e in
        move_tokens-IsBacked o a x d st' (deducted-IsBacked o info.sender x d c) m
    execute-IsBacked (burn_from owner x) e =
        let (o, d, vo, c, b, le, r) = burn_from_steps h env info st st' ms owner x e in
        burn-IsBacked o x d st' (deducted-IsBacked o info.sender x d c) le r
    execute-IsBacked (send_from owner to x msg) e =
        let (a, o, d, va, vo, c, m) = send_from_steps h env info st st' ms owner to x msg e in
        move_tokens-IsBacked o a x d st' (deducted-IsBacked o info.sender x d c) m
    execute-IsBacked (update_marketing p d m) e =
        unfold execute_update_marketing in ground (arith, good)
    execute-IsBacked (upload_logo logo) e = unfold execute_upload_logo in ground (arith, good)
    execute-IsBacked (update_minter new) e = unfold execute_update_minter in ground (arith, good)
