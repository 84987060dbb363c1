-- ===== src/Tests/Answers.antt =====
-- The queries of contracts/cw20-base after an upload and after a new allowance, and a migration.
use cw_plus.Base.{true, arith, ℕ, ◌≡◌, Option, none, some, [], ◌∷◌, ok, refl}
use cw_plus.Base.Dict.{lookup, insert}
use cw_plus.Base.Dict.Pairs.{ArePrefixes, lookup_pair, insert_pair}
use cw_plus.Cw20.{AllowanceResponse, MarketingInfoResponse, Logo, LogoInfo, png}
use cw_plus.Cw20Base.State.{State}
use cw_plus.Cw20Base.Logos.{verify_logo, verify_png_logo, starts_with, png_header}
use cw_plus.Cw20Base.Marketing.{execute_upload_logo, logo_info}
use cw_plus.Cw20Base.Allowances.{
  execute_increase_allowance, raise_allowance, set_expires, query_allowance,
}
use cw_plus.Cw20Base.Answers.{IsMarketer, IsShown, execute_upload_logo-query_download_logo}
use cw_plus.Cw20Base.Execute.{migrate, reverse_allowances, reverse_spenders}
use cw_plus.Cw20Base.Mirror.{IsMirrored}
use cw_plus.Cw20Base.Migration.{migrate-IsMirrored}
use cw_plus.Tests.{plain_host, at, from}

abbrev picture : Logo
picture = Logo.embedded (png png_header)

abbrev marketing_info : Option LogoInfo → MarketingInfoResponse
marketing_info logo = record {
  project = none;
  description = some 4;
  logo = logo;
  marketing = some 6;
}

abbrev allowed : ℕ → ℕ → AllowanceResponse
allowed amount expires = record { allowance = amount; expires = expires }

abbrev branded : Option Logo → Option LogoInfo → AllowanceResponse → State
branded logo info a = record {
  version = some 20;
  token_info = none;
  marketing_info = some (marketing_info info);
  logo = logo;
  balances = [];
  allowances = (1, (2, a) ∷ []) ∷ [];
  allowances_spender = (2, (1, a) ∷ []) ∷ [];
}

abbrev plain : State
plain = branded none none (allowed 5 80)

abbrev uploaded : State
uploaded = branded (some picture) (some LogoInfo.embedded) (allowed 5 80)

abbrev raised : State
raised = branded none none (allowed 12 90)

upload_run : execute_upload_logo plain_host (at 7) (from 6) picture plain ≡ ok (uploaded, [])
unfolding execute_upload_logo verify_logo verify_png_logo starts_with logo_info plain_host
upload_run = refl

increase_run :
    execute_increase_allowance plain_host (at 7) (from 1) 2 7 (some 90) plain ≡ ok (raised, [])
unfolding execute_increase_allowance raise_allowance set_expires lookup_pair insert_pair lookup
    insert plain_host
increase_run = refl

asked : query_allowance plain_host 1 2 plain ≡ ok (allowed 5 80)
unfolding query_allowance lookup_pair lookup plain_host
asked = refl

is_valid : plain_host.addr_validate 1 ≡ ok 1
unfolding plain_host
is_valid = refl

execute_upload_logo-query_download_logo_example : IsMarketer plain 6 × IsShown picture uploaded
execute_upload_logo-query_download_logo_example =
    execute_upload_logo-query_download_logo plain_host (at 7) (from 6) picture plain uploaded []
      upload_run

-- A token of version 13, and what version 20 makes of it.
abbrev old_token : State
old_token = record plain { version = some 13; allowances_spender = [] }

migrate_run : migrate plain_host old_token ≡ ok (plain, [])
unfolding migrate reverse_allowances reverse_spenders insert_pair insert lookup plain_host
migrate_run = refl

old_version : plain_host.ensure_from_older_version (some 13) ≡ ok 13
unfolding plain_host
old_version = refl

is_old : plain_host.is_before_0_14_0 13 ≡ true
unfolding plain_host
is_old = refl

old-ArePrefixes : ArePrefixes old_token.allowances
unfolding lookup
old-ArePrefixes k = ground arith

migrate-IsMirrored_example :
    IsMirrored plain
    × (plain.allowances ≡ old_token.allowances)
    × (plain.balances ≡ old_token.balances)
migrate-IsMirrored_example =
    migrate-IsMirrored plain_host old_token plain [] 13 migrate_run old_version is_old (tt, tt)
      old-ArePrefixes refl
