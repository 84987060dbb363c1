-- ===== src/Cw20Ics20/Migrate.antt =====
-- migrate of contracts/cw20-ics20/src/contract.rs, with migrations.rs.
use cw_plus.Base.{
  ℕ, ◌==◌, ltb, leb, Option, none, some, [], ◌∷◌, Result, ok, err, ◌>>=◌, ◌>>◌, ok_or, or_panic,
  map_err, ensure, if◌then◌else◌,
}
use cw_plus.Base.Dict.{Dict}
use cw_plus.Base.Dict.Pairs.{insert_pair, prefix}
use cw_plus.Host.{Host, Text, Addr, StdError, Version}
use cw_plus.Cw20Ics20.State.{
  ChannelState, ChannelInfo, State, ContractError, std, cannot_migrate, cannot_migrate_version,
  Amount, native, cw20, Outside, from_parts,
}

-- What migrate takes from outside besides: the parser and the order of semver, with the three
-- constants it compares with, and the queries of the contract's own balances.
pub record Chain : Type 0 where
  pub parse : Version → Result StdError ℕ
  pub migrate_min_version : ℕ
  pub migrate_version_2 : ℕ
  pub migrate_version_3 : ℕ
  pub contract_name : Text
  pub multiple_channels_open : Text
  pub query_balance : Text → Result StdError ℕ
  pub query_cw20_balance : Text → Result StdError ℕ

-- `v1::Config`
pub record OldConfig : Type 0 where
  pub default_timeout : ℕ
  pub gov_contract : Addr

-- What the storage holds besides `State`: the name of the contract that cw2 stores, and what
-- `v1::CONFIG` reads at the key of CONFIG.
pub record Stored : Type 0 where
  pub contract : Text
  pub old_config : Result StdError OldConfig

module _ (h : Host) (x : Outside) (n : Chain) where
  -- the balance in `update_denom`
  unfoldable pub balance_of : Amount → Result StdError ℕ
  balance_of (native coin) = n.query_balance coin.denom
  balance_of (cw20 coin) = n.query_cw20_balance coin.address

  unfoldable pub update_denom : Text → Text → ChannelState → State → Result ContractError State
  update_denom channel denom state st = do
    balance ← map_err std (balance_of (from_parts x denom state.outstanding))
    diff ← or_panic (h.sub_128 balance state.outstanding)
    if diff == 0 then ok st else (do
      outstanding ← or_panic (h.add_128 state.outstanding diff)
      total_sent ← or_panic (h.add_128 state.total_sent diff)
      ok (record st {
        channel_state =
            insert_pair channel denom
              (record { outstanding = outstanding; total_sent = total_sent }) st.channel_state;
      }))

  -- The loop of `update_balances`.
  unfoldable pub update_denoms : Text → Dict ChannelState → State → Result ContractError State
  update_denoms channel [] st = ok st
  update_denoms channel ((denom, state) ∷ rest) st = do
    st' ← update_denom channel denom state st
    update_denoms channel rest st'

  -- the match on the channels
  unfoldable pub update_channels : Dict ChannelInfo → State → Result ContractError State
  update_channels [] st = ok st
  update_channels ((channel, _) ∷ []) st =
      update_denoms channel (prefix channel st.channel_state) st
  update_channels (_ ∷ _ ∷ _) st = err (cannot_migrate n.multiple_channels_open)

  abbrev pub update_balances : State → Result ContractError State
  update_balances st = update_channels st.channel_info st

  -- the conversion of the configuration of v1
  unfoldable pub convert_config : Stored → State → Result ContractError State
  convert_config stored st = do
    old ← map_err std stored.old_config
    ok (record st {
      admin = some old.gov_contract;
      config = some (record { default_timeout = old.default_timeout; default_gas_limit = none });
    })

  -- the conversions from v1 to v2 and from v2 to v3
  unfoldable pub convert : Stored → ℕ → State → Result ContractError State
  convert stored storage_version st = do
    converted ← if leb storage_version n.migrate_version_2 then convert_config stored st else ok st
    if leb storage_version n.migrate_version_3 then update_balances converted else ok converted

  -- the default gas limit of the message
  unfoldable pub set_gas_limit : Option ℕ → State → Result ContractError State
  set_gas_limit none st = ok st
  set_gas_limit (some limit) st = do
    old ← ok_or st.config (std StdError.not_found)
    ok (record st { config = some (record old { default_gas_limit = some limit }) })

  unfoldable pub save_version : ℕ → ℕ → State → State
  save_version storage_version version st =
      if ltb storage_version version then record st { version = some h.contract_version } else st

  unfoldable pub migrate :
      Stored → (default_gas_limit : Option ℕ) → State → Result ContractError State
  migrate stored default_gas_limit st = do
    version ← map_err std (n.parse h.contract_version)
    found ← ok_or st.version (std StdError.not_found)
    storage_version ← map_err std (n.parse found)
    ensure (stored.contract == n.contract_name) (cannot_migrate stored.contract)
    ensure (leb storage_version version) (cannot_migrate_version found)
    ensure (leb n.migrate_min_version storage_version) (cannot_migrate_version found)
    updated ← convert stored storage_version st
    limited ← set_gas_limit default_gas_limit updated
    ok (save_version storage_version version limited)
