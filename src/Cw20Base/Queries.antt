-- ===== src/Cw20Base/Queries.antt =====
-- The queries of contracts/cw20-base/src/contract.rs and enumerable.rs.
use cw_plus.Base.{
  ℕ, Option, none, some, List, map, Result, ok, err, ◌>>=◌, ok_or, unwrap_or, leb, if◌then◌else◌,
}
use cw_plus.Base.Dict.Pairs.{prefix}
use cw_plus.Base.Dict.Page.{page}
use cw_plus.Host.{Host, Text, Binary, Expiration, StdError}
use cw_plus.Cw20.{MarketingInfoResponse, MinterResponse, Logo, embedded, svg, png}
use cw_plus.Cw20Base.State.{MinterData, State, balance_of}

-- `TokenInfoResponse`
pub record TokenInfoResponse : Type 0 where
  pub name : Text
  pub symbol : Text
  pub decimals : ℕ
  pub total_supply : ℕ

-- The two values of `mime_type`.
pub data MimeType : Type 0 where
  image_svg_xml image_png : MimeType

-- `DownloadLogoResponse`
pub record DownloadLogoResponse : Type 0 where
  pub mime_type : MimeType
  pub data_bytes : Binary

-- `AllowanceInfo` and `SpenderAllowanceInfo`
pub record AllowanceInfo : Type 0 where
  pub spender : Text
  pub allowance : ℕ
  pub expires : Expiration

pub record SpenderAllowanceInfo : Type 0 where
  pub owner : Text
  pub allowance : ℕ
  pub expires : Expiration

unfoldable pub query_balance : Host → Text → State → Result StdError ℕ
query_balance h address st = do addr ← h.addr_validate address; ok (balance_of addr st.balances)

unfoldable pub query_token_info : State → Result StdError TokenInfoResponse
query_token_info st = do
  info ← ok_or st.token_info StdError.not_found
  ok (record {
    name = info.name;
    symbol = info.symbol;
    decimals = info.decimals;
    total_supply = info.total_supply;
  })

-- `match meta.mint { Some(m) => Some(MinterResponse { … }), None => None }`
unfoldable pub minter_response : Option MinterData → Option MinterResponse
minter_response none = none
minter_response (some m) = some (record { minter = m.minter; cap = m.cap })

unfoldable pub query_minter : State → Result StdError (Option MinterResponse)
query_minter st = do meta ← ok_or st.token_info StdError.not_found; ok (minter_response meta.mint)

unfoldable pub query_marketing_info : State → Result StdError MarketingInfoResponse
query_marketing_info st = ok (
    unwrap_or st.marketing_info
      (record { project = none; description = none; logo = none; marketing = none }))

-- `match logo { … }` of `query_download_logo`
unfoldable pub logo_response : Logo → Result StdError DownloadLogoResponse
logo_response (embedded (svg logo)) = ok (record { mime_type = image_svg_xml; data_bytes = logo })
logo_response (embedded (png logo)) = ok (record { mime_type = image_png; data_bytes = logo })
logo_response (Logo.url _) = err StdError.not_found

unfoldable pub query_download_logo : State → Result StdError DownloadLogoResponse
query_download_logo st = do logo ← ok_or st.logo StdError.not_found; logo_response logo

-- `limit.unwrap_or(DEFAULT_LIMIT).min(MAX_LIMIT)`
unfoldable pub listing_size : Option ℕ → ℕ
listing_size limit = let asked = unwrap_or limit 10 in if leb asked 30 then asked else 30

unfoldable pub query_owner_allowances :
    Host → Text → Option Text → Option ℕ → State → Result StdError (List AllowanceInfo)
query_owner_allowances h owner start_after limit st = do
  owner_addr ← h.addr_validate owner
  ok (
      map (λ e. record { spender = e.0; allowance = e.1.allowance; expires = e.1.expires })
        (page start_after (listing_size limit) (prefix owner_addr st.allowances)))

unfoldable pub query_spender_allowances :
    Host → Text → Option Text → Option ℕ → State → Result StdError (List SpenderAllowanceInfo)
query_spender_allowances h spender start_after limit st = do
  spender_addr ← h.addr_validate spender
  ok (
      map (λ e. record { owner = e.0; allowance = e.1.allowance; expires = e.1.expires })
        (page start_after (listing_size limit) (prefix spender_addr st.allowances_spender)))

unfoldable pub query_all_accounts : Option Text → Option ℕ → State → List Text
query_all_accounts start_after limit st =
    map (λ e. e.0) (page start_after (listing_size limit) st.balances)
