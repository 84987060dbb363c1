-- ===== src/Cw20Base/Cap.antt =====
-- The cap on the supply, and who changes the supply.
use cw_plus.Base.{ℕ, ◌+◌, ◌≤◌, ◌≡◌, Option, none, some, List, ok, arith}
use cw_plus.Base.Dict.{Dict}
use cw_plus.Host.{Host, Env, MessageInfo}
use cw_plus.Cw20.{
  Cw20ReceiveMsg, Cw20ExecuteMsg, transfer, burn, send, increase_allowance, decrease_allowance,
  transfer_from, send_from, burn_from, mint, update_minter, update_marketing, upload_logo,
}
use cw_plus.Cw20Base.State.{State, TokenInfo, MinterData, get_cap, cannot_exceed_cap, ContractError}
use cw_plus.Cw20Base.Transfer.{move_tokens, reduce_supply, execute_update_minter, check_cap}
use cw_plus.Cw20Base.Marketing.{execute_update_marketing, execute_upload_logo}
use cw_plus.Cw20Base.Execute.{execute}
use cw_plus.Cw20Base.Ledger.{supply}
use cw_plus.Cw20Base.Steps.{
  transfer_steps, send_steps, burn_steps, mint_steps, transfer_from_steps, send_from_steps,
  burn_from_steps, deduct_steps, increase_steps, decrease_steps,
}

abbrev pub Within : Option ℕ → ℕ → Type 0
Within none n = Unit
Within (some cap) n = n ≤ cap

abbrev pub info_cap : Option TokenInfo → Option ℕ
info_cap none = none
info_cap (some t) = get_cap t

-- The supply is within the cap, if there is one.
abbrev pub IsCapped : State → Type 0
IsCapped st = Within (info_cap st.token_info) (supply st)

pub check_cap-Within :
    (cap : Option ℕ) (n : ℕ) (e : ContractError) → check_cap cap n e ≡ ok tt → Within cap n
unfolding check_cap
check_cap-Within none n e h = tt
check_cap-Within (some cap) n e h = ground arith

-- How a message moves the supply.
abbrev pub Issues : Cw20ExecuteMsg → ℕ → ℕ → Type 0
Issues (mint to x) n n' = n' ≡ n + x
Issues (burn x) n n' = n' + x ≡ n
Issues (burn_from owner x) n n' = n' + x ≡ n
Issues _ n n' = n' ≡ n

module _ (h : Host) (st st' : State) where
  moved-info :
      (from to x : ℕ) → move_tokens h from to x st ≡ ok st' → st'.token_info ≡ st.token_info
  unfolding move_tokens
  moved-info from to x e = ground arith

  reduced-info :
      (x : ℕ) (b : Dict ℕ)
      → reduce_supply h x (record st { balances = b }) ≡ ok st'
      → (supply st' + x ≡ supply st) × (info_cap st'.token_info ≡ info_cap st.token_info)
  unfolding reduce_supply
  reduced-info x b e = ground (arith, h.sub_128_lem (supply st) x)

module _ (h : Host) (env : Env) (info : MessageInfo) (st st' : State)
    (ms : List Cw20ReceiveMsg) where
  -- A message that is handled changes the supply by the amount it mints or burns, and all others
  -- leave it alone.
  pub execute-Issues :
      (msg : Cw20ExecuteMsg)
      → execute h env info msg st ≡ ok (st', ms)
      → Issues msg (supply st) (supply st')
  unfolding execute
  execute-Issues (transfer to x) e =
      let (a, va, m) = transfer_steps h env info st st' ms to x e in
      ground (arith, moved-info h st st' info.sender a x m)
  execute-Issues (burn x) e =
      let (le, r) = burn_steps h env info st st' ms x e in (reduced-info h st st' x _ r).0
  execute-Issues (send to x msg) e =
      let (a, va, m) = send_steps h env info st st' ms to x msg e in
      ground (arith, moved-info h st st' info.sender a x m)
  execute-Issues (mint to x) e =
      let (t, m, a, n, b, et, em, es, en, cap, va, eb, e') =
        mint_steps h env info st st' ms to x e in
      ground (arith, h.add_128_lem (supply st) x)
  execute-Issues (increase_allowance s x exp) e =
      let (a, one, two, v, n, e1, e2, e') = increase_steps h env info st st' ms s x exp e in
      ground arith
  execute-Issues (decrease_allowance s x exp) e =
      let (a, old, v, n, e1, e') = decrease_steps h env info st st' ms s x exp e in ground arith
  execute-Issues (transfer_from owner to x) e =
      let (a, o, d, va, vo, c, m) = transfer_from_steps h env info st st' ms owner to x e in
      let (one, two, e1, e2, e') = deduct_steps h env info st d ms o info.sender x c in
      ground (arith, moved-info h d st' o a x m)
  execute-Issues (burn_from owner x) e =
      let (o, d, vo, c, b, le, r) = burn_from_steps h env info st st' ms owner x e in
      let (one, two, e1, e2, e') = deduct_steps h env info st d ms o info.sender x c in
      ground (arith, reduced-info h d st' x _ r)
  execute-Issues (send_from owner to x msg) e =
      let (a, o, d, va, vo, c, m) = send_from_steps h env info st st' ms owner to x msg e in
      let (one, two, e1, e2, e') = deduct_steps h env info st d ms o info.sender x c in
      ground (arith, moved-info h d st' o a x m)
  execute-Issues (update_marketing p d m) e = unfold execute_update_marketing in ground arith
  execute-Issues (upload_logo logo) e = unfold execute_upload_logo in ground arith
  execute-Issues (update_minter new) e = unfold execute_update_minter in ground arith

  -- A mint that is handled is the minter's, and leaves the supply within the cap.
  pub execute-mint-authorized :
      (to x : ℕ)
      → execute h env info (mint to x) st ≡ ok (st', ms)
      → (t : TokenInfo) × (m : MinterData) × (st.token_info ≡ some t)
        × (t.mint ≡ some m)
        × (info.sender ≡ m.minter)
        × Within m.cap (supply st')
  unfolding execute
  execute-mint-authorized to x e =
      let (t, m, a, n, b, et, em, es, en, cap, va, eb, e') =
        mint_steps h env info st st' ms to x e in
      (t, m, et, em, ground arith, ground (arith, check_cap-Within m.cap n cannot_exceed_cap cap))
