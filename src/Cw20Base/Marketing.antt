-- ===== src/Cw20Base/Marketing.antt =====
-- The handlers of the marketing data, in contracts/cw20-base/src/contract.rs.
use cw_plus.Base.{
  ◌==◌, ◌&&◌, Option, none, some, [], Result, ok, ◌>>=◌, ◌>>◌, ok_or, ensure, is_none,
  if◌then◌else◌,
}
use cw_plus.Host.{Host, Text, Addr, MessageInfo, Env}
use cw_plus.Cw20.{Logo, LogoInfo, MarketingInfoResponse}
use cw_plus.Cw20Base.State.{State, ContractError, unauthorized, Outcome}
use cw_plus.Cw20Base.Transfer.{validated}
use cw_plus.Cw20Base.Logos.{verify_logo}

-- `match logo { Logo::Url(url) => LogoInfo::Url(url), Logo::Embedded(_) => LogoInfo::Embedded }`
unfoldable pub logo_info : Logo → LogoInfo
logo_info (Logo.url u) = LogoInfo.url u
logo_info (Logo.embedded _) = LogoInfo.embedded

module _ (h : Host) where
  -- `match project { Some(empty) if blank => None, Some(project) => Some(project), None => () }`
  unfoldable pub set_text : Option Text → Option Text → Option Text
  set_text none old = old
  set_text (some text) old = if h.is_blank text then none else some text

  -- the same for `marketing`, whose text is validated
  unfoldable pub set_address : Option Text → Option Addr → Result ContractError (Option Addr)
  set_address none old = ok old
  set_address (some text) old =
      if h.is_blank text then ok none else do a ← validated h text; ok (some a)

  -- Nothing is left to save.
  unfoldable pub remaining_info : MarketingInfoResponse → Option MarketingInfoResponse
  remaining_info m =
      if is_none m.project && is_none m.description && is_none m.marketing && is_none m.logo
      then none
      else some m

  unfoldable pub execute_update_marketing :
      Env → MessageInfo → Option Text → Option Text → Option Text → State → Outcome
  unfolding remaining_info
  execute_update_marketing env info project description marketing st = do
    old ← ok_or st.marketing_info unauthorized
    owner ← ok_or old.marketing unauthorized
    ensure (owner == info.sender) unauthorized
    address ← set_address marketing old.marketing
    ok (
      record st {
        marketing_info = remaining_info (record {
          project = set_text project old.project;
          description = set_text description old.description;
          logo = old.logo;
          marketing = address;
        });
      },
      [],
    )

  unfoldable pub execute_upload_logo : Env → MessageInfo → Logo → State → Outcome
  execute_upload_logo env info logo st = do
    old ← ok_or st.marketing_info unauthorized
    verify_logo logo
    owner ← ok_or old.marketing unauthorized
    ensure (owner == info.sender) unauthorized
    ok (
      record st {
        logo = some logo;
        marketing_info = some (record old { logo = some (logo_info logo) });
      },
      [],
    )
