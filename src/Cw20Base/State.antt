-- ===== src/Cw20Base/State.antt =====
-- state.rs and error.rs of contracts/cw20-base, and the updates of the balances that the handlers
-- share.
use cw_plus.Base.{ℕ, Option, none, some, List, Result, ok, ◌>>=◌, ok_or, or_panic, unwrap_or}
use cw_plus.Base.Dict.{Dict, lookup, insert}
use cw_plus.Host.{Host, Text, Addr, StdError, Version}
use cw_plus.Cw20.{AllowanceResponse, Logo, MarketingInfoResponse, Cw20ReceiveMsg}

-- `MinterData`
pub record MinterData : Type 0 where
  pub minter : Addr
  pub cap : Option ℕ

-- `TokenInfo`
pub record TokenInfo : Type 0 where
  pub name : Text
  pub symbol : Text
  pub decimals : ℕ
  pub total_supply : ℕ
  pub mint : Option MinterData

-- `TokenInfo::get_cap`
abbrev pub minter_cap : Option MinterData → Option ℕ
minter_cap none = none
minter_cap (some m) = m.cap

abbrev pub get_cap : TokenInfo → Option ℕ
get_cap info = minter_cap info.mint

-- The storage: an item or a map for each constant of state.rs, and the version that cw2 stores.
-- `allowances` is keyed by owner and spender, `allowances_spender` by spender and owner.
pub record State : Type 0 where
  pub version : Option Version
  pub token_info : Option TokenInfo
  pub marketing_info : Option MarketingInfoResponse
  pub logo : Option Logo
  pub balances : Dict ℕ
  pub allowances : Dict (Dict AllowanceResponse)
  pub allowances_spender : Dict (Dict AllowanceResponse)

-- `ContractError`
pub data ContractError : Type 0 where
  std : StdError → ContractError
  unauthorized cannot_set_own_account expired no_allowance cannot_exceed_cap : ContractError
  logo_too_big invalid_xml_preamble invalid_png_header invalid_expiration : ContractError
  duplicate_initial_balance_addresses : ContractError

-- What a handler returns: the state, and the messages of its `Response`.
abbrev pub Outcome : Type 0
Outcome = Result ContractError (State × List Cw20ReceiveMsg)

abbrev pub balance_of : Addr → Dict ℕ → ℕ
balance_of a balances = unwrap_or (lookup a balances) 0

-- `BALANCES.update(…, |balance| Ok(balance.unwrap_or_default().checked_sub(amount)?))`
unfoldable pub debit : Host → Addr → ℕ → Dict ℕ → Result ContractError (Dict ℕ)
debit h a amount balances = do
  rest ← ok_or (h.sub_128 (balance_of a balances) amount) (std StdError.overflow)
  ok (insert a rest balances)

-- `BALANCES.update(…, |balance| Ok(balance.unwrap_or_default() + amount))`
unfoldable pub credit : Host → Addr → ℕ → Dict ℕ → Result ContractError (Dict ℕ)
credit h a amount balances = do
  more ← or_panic (h.add_128 (balance_of a balances) amount)
  ok (insert a more balances)
