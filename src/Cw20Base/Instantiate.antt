-- ===== src/Cw20Base/Instantiate.antt =====
-- `instantiate` of contracts/cw20-base/src/contract.rs, with the checks of msg.rs.
use cw_plus.Base.{
  ℕ, ◌==◌, ◌&&◌, ◌||◌, not, Bool, true, Option, none, some, List, [], ◌∷◌, map, Result, ok, ◌>>=◌,
  ◌>>◌, or_panic, ensure, leb, ltb, length,
}
use cw_plus.Base.Dict.{Dict, insert}
use cw_plus.Base.Sort.{sort_by, dedup}
use cw_plus.Host.{Host, Text, StdError}
use cw_plus.Cw20.{Cw20Coin, Logo, LogoInfo, MinterResponse}
use cw_plus.Cw20Base.State.{
  MinterData, TokenInfo, State, ContractError, std, duplicate_initial_balance_addresses,
}
use cw_plus.Cw20Base.Transfer.{validated, validated_option, check_cap}
use cw_plus.Cw20Base.Logos.{verify_logo}
use cw_plus.Cw20Base.Marketing.{logo_info}

-- `InstantiateMarketingInfo`
pub record InstantiateMarketingInfo : Type 0 where
  pub project : Option Text
  pub description : Option Text
  pub marketing : Option Text
  pub logo : Option Logo

-- `InstantiateMsg`
pub record InstantiateMsg : Type 0 where
  pub name : Text
  pub symbol : Text
  pub decimals : ℕ
  pub initial_balances : List Cw20Coin
  pub mint : Option MinterResponse
  pub marketing : Option InstantiateMarketingInfo

-- The test of one byte in `has_valid_symbol`, negated: a dash or a letter.
unfoldable pub is_symbol_byte : ℕ → Bool
is_symbol_byte b = not (not (b == 45) && (ltb b 65 || ltb 90 b) && (ltb b 97 || ltb 122 b))

unfoldable pub all_symbol_bytes : List ℕ → Bool
unfolding is_symbol_byte
all_symbol_bytes [] = true
all_symbol_bytes (b ∷ bytes) = is_symbol_byte b && all_symbol_bytes bytes

-- `has_valid_name` and `has_valid_symbol`, on the bytes
unfoldable pub has_valid_name : List ℕ → Bool
has_valid_name bytes = not (ltb (length bytes) 3 || ltb 50 (length bytes))

unfoldable pub has_valid_symbol : List ℕ → Bool
unfolding all_symbol_bytes
has_valid_symbol bytes =
    not (ltb (length bytes) 3 || ltb 12 (length bytes)) && all_symbol_bytes bytes

-- `InstantiateMsg::validate`
unfoldable pub validate_msg : Host → InstantiateMsg → Result ContractError (Unit {0})
unfolding has_valid_name has_valid_symbol
validate_msg h msg = do
  ensure (has_valid_name (h.as_bytes msg.name)) (std StdError.generic_err)
  ensure (has_valid_symbol (h.as_bytes msg.symbol)) (std StdError.generic_err)
  ensure (leb msg.decimals 18) (std StdError.generic_err)

unfoldable pub validate_accounts : List Cw20Coin → Result ContractError (Unit {0})
validate_accounts accounts =
    let addresses = dedup (sort_by (λ x. x) (map (λ c. c.address) accounts)) in
    ensure (length addresses == length accounts) duplicate_initial_balance_addresses

-- The loop of `create_accounts`, on the balances and the supply so far.
unfoldable pub create_rows : Host → List Cw20Coin → Dict ℕ → ℕ → Result ContractError (Dict ℕ × ℕ)
create_rows h [] balances total_supply = ok (balances, total_supply)
create_rows h (row ∷ rows) balances total_supply = do
  address ← validated h row.address
  supply ← or_panic (h.add_128 total_supply row.amount)
  create_rows h rows (insert address row.amount balances) supply

unfoldable pub create_accounts : Host → List Cw20Coin → Dict ℕ → Result ContractError (Dict ℕ × ℕ)
unfolding validate_accounts create_rows
create_accounts h accounts balances = do
  validate_accounts accounts
  create_rows h accounts balances 0

-- `msg.get_cap()`
abbrev pub msg_cap : Option MinterResponse → Option ℕ
msg_cap none = none
msg_cap (some m) = m.cap

-- `match msg.mint { Some(m) => Some(MinterData { … }), None => None }`
unfoldable pub minter_data : Host → Option MinterResponse → Result ContractError (Option MinterData)
minter_data h none = ok none
minter_data h (some m) = do
  minter ← validated h m.minter
  ok (some (record { minter = minter; cap = m.cap }))

-- `if let Some(logo) = marketing.logo { … }`: the logo is checked and saved.
unfoldable pub save_logo : Option Logo → State → Result ContractError State
save_logo none st = ok st
save_logo (some logo) st = do verify_logo logo; ok (record st { logo = some logo })

abbrev pub info_of_logo : Option Logo → Option LogoInfo
info_of_logo none = none
info_of_logo (some logo) = some (logo_info logo)

-- `if let Some(marketing) = msg.marketing { … }`
unfoldable pub save_marketing :
    Host → Option InstantiateMarketingInfo → State → Result ContractError State
unfolding save_logo
save_marketing h none st = ok st
save_marketing h (some m) st = do
  st' ← save_logo m.logo st
  address ← validated_option h m.marketing
  ok (record st' {
    marketing_info = some (record {
      project = m.project;
      description = m.description;
      logo = info_of_logo m.logo;
      marketing = address;
    });
  })

-- `let data = TokenInfo { … }`
abbrev pub token_of : InstantiateMsg → ℕ → Option MinterData → TokenInfo
token_of msg total_supply mint = record {
  name = msg.name;
  symbol = msg.symbol;
  decimals = msg.decimals;
  total_supply = total_supply;
  mint = mint;
}

-- The storage of a contract before it is instantiated.
abbrev pub blank : State
blank = record {
  version = none;
  token_info = none;
  marketing_info = none;
  logo = none;
  balances = [];
  allowances = [];
  allowances_spender = [];
}

unfoldable pub instantiate : Host → InstantiateMsg → Result ContractError State
instantiate h msg = do
  let st = record blank { version = some h.contract_version }
  validate_msg h msg
  (balances, total_supply) ← create_accounts h msg.initial_balances st.balances
  check_cap (msg_cap msg.mint) total_supply (std StdError.generic_err)
  mint ← minter_data h msg.mint
  let saved = record st { balances = balances; token_info = some (token_of msg total_supply mint) }
  save_marketing h msg.marketing saved
