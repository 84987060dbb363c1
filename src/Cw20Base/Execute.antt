-- ===== src/Cw20Base/Execute.antt =====
-- `execute` and `migrate` of contracts/cw20-base/src/contract.rs.
use cw_plus.Base.{[], ◌∷◌, ok, ◌>>=◌, map_err, some, if◌then◌else◌}
use cw_plus.Base.Dict.{Dict}
use cw_plus.Base.Dict.Pairs.{insert_pair}
use cw_plus.Host.{Host, Addr, Env, MessageInfo}
use cw_plus.Cw20.{
  AllowanceResponse, Cw20ExecuteMsg, transfer, burn, send, increase_allowance, decrease_allowance,
  transfer_from, send_from, burn_from, mint, update_minter, update_marketing, upload_logo,
}
use cw_plus.Cw20Base.State.{State, std, Outcome}
use cw_plus.Cw20Base.Transfer.{
  execute_transfer, execute_burn, execute_mint, execute_send, execute_update_minter,
}
use cw_plus.Cw20Base.Allowances.{
  execute_increase_allowance, execute_decrease_allowance, execute_transfer_from, execute_burn_from,
  execute_send_from,
}
use cw_plus.Cw20Base.Marketing.{execute_update_marketing, execute_upload_logo}

unfoldable pub execute : Host → Env → MessageInfo → Cw20ExecuteMsg → State → Outcome
execute h env info (transfer recipient amount) = execute_transfer h env info recipient amount
execute h env info (burn amount) = execute_burn h env info amount
execute h env info (send contract amount msg) = execute_send h env info contract amount msg
execute h env info (mint recipient amount) = execute_mint h env info recipient amount
execute h env info (increase_allowance spender amount expires) =
    execute_increase_allowance h env info spender amount expires
execute h env info (decrease_allowance spender amount expires) =
    execute_decrease_allowance h env info spender amount expires
execute h env info (transfer_from owner recipient amount) =
    execute_transfer_from h env info owner recipient amount
execute h env info (burn_from owner amount) = execute_burn_from h env info owner amount
execute h env info (send_from owner contract amount msg) =
    execute_send_from h env info owner contract amount msg
execute h env info (update_marketing project description marketing) =
    execute_update_marketing h env info project description marketing
execute h env info (upload_logo logo) = execute_upload_logo h env info logo
execute h env info (update_minter new_minter) = execute_update_minter h env info new_minter

-- The loop of `migrate`, over the spenders of one owner and over all owners.
unfoldable pub reverse_spenders :
    Addr → Dict AllowanceResponse → Dict (Dict AllowanceResponse) → Dict (Dict AllowanceResponse)
reverse_spenders owner [] m = m
reverse_spenders owner ((spender, a) ∷ rest) m =
    reverse_spenders owner rest (insert_pair spender owner a m)

unfoldable pub reverse_allowances :
    Dict (Dict AllowanceResponse) → Dict (Dict AllowanceResponse) → Dict (Dict AllowanceResponse)
reverse_allowances [] m = m
reverse_allowances ((owner, spenders) ∷ rest) m =
    reverse_allowances rest (reverse_spenders owner spenders m)

unfoldable pub migrate : Host → State → Outcome
migrate h st = do
  original ← map_err std (h.ensure_from_older_version st.version)
  let current = record st { version = some h.contract_version }
  ok (
      if h.is_before_0_14_0 original
      then (
        record current {
          allowances_spender = reverse_allowances st.allowances st.allowances_spender;
        },
        [],
      )
      else (current, []))
