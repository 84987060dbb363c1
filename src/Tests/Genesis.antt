-- ===== src/Tests/Genesis.antt =====
-- `instantiate` of contracts/cw20-base.
use cw_plus.Base.{◌≡◌, none, some, [], ◌∷◌, List, ok, refl}
use cw_plus.Base.Sort.{sort_by, insert_sorted, dedup, AreDistinct}
use cw_plus.Base.Dict.{insert}
use cw_plus.Cw20.{Cw20Coin}
use cw_plus.Cw20Base.State.{State}
use cw_plus.Cw20Base.Transfer.{check_cap}
use cw_plus.Cw20Base.Instantiate.{
  InstantiateMsg, instantiate, validate_msg, validate_accounts, create_accounts, create_rows,
  has_valid_name, has_valid_symbol, all_symbol_bytes, is_symbol_byte, minter_data, save_marketing,
}
use cw_plus.Cw20Base.Genesis.{IsFounded, address_of, instantiate-IsFounded}
use cw_plus.Tests.{plain_host}

abbrev rows : List Cw20Coin
rows = record { address = 5; amount = 70 } ∷ record { address = 3; amount = 30 } ∷ []

abbrev token_msg : InstantiateMsg
token_msg = record {
  name = 1;
  symbol = 2;
  decimals = 6;
  initial_balances = rows;
  mint = some (record { minter = 9; cap = some 100 });
  marketing = none;
}

abbrev founded : State
founded = record {
  version = some 20;
  token_info = some (record {
    name = 1;
    symbol = 2;
    decimals = 6;
    total_supply = 100;
    mint = some (record { minter = 9; cap = some 100 });
  });
  marketing_info = none;
  logo = none;
  balances = (3, 30) ∷ (5, 70) ∷ [];
  allowances = [];
  allowances_spender = [];
}

token_run : instantiate plain_host token_msg ≡ ok founded
unfolding instantiate sort_by insert_sorted dedup insert check_cap validate_msg validate_accounts
    create_accounts create_rows has_valid_name has_valid_symbol all_symbol_bytes is_symbol_byte
    minter_data save_marketing plain_host
token_run = refl

instantiate-IsFounded_example : IsFounded founded × AreDistinct address_of rows
instantiate-IsFounded_example = instantiate-IsFounded plain_host token_msg founded token_run
