-- ===== src/Tests/Token.antt =====
-- contracts/cw20-base on a token with a few accounts.
use cw_plus.Base.{
  ◌⊎◌, ℕ, ◌+◌, ◌≤◌, ◌<◌, ◌≡◌, ◌==◌, if◌then◌else◌, none, some, [], ◌∷◌, ok, err, arith, refl,
}
use cw_plus.Base.Dict.{Dict, lookup, insert}
use cw_plus.Base.Dict.Sum.{sum_by}
use cw_plus.Base.Dict.Pairs.{lookup_pair, insert_pair}
use cw_plus.Cw20.{AllowanceResponse, transfer_from, mint}
use cw_plus.Cw20Base.State.{State, std, TokenInfo, MinterData, balance_of}
use cw_plus.Cw20Base.Transfer.{move_tokens, execute_transfer, execute_mint, check_cap}
use cw_plus.Cw20Base.Allowances.{deduct, deduct_allowance, execute_transfer_from}
use cw_plus.Cw20Base.Execute.{execute}
use cw_plus.Cw20Base.Ledger.{IsBacked}
use cw_plus.Cw20Base.Backed.{execute-IsBacked}
use cw_plus.Cw20Base.Mirror.{IsMirrored, execute-IsMirrored}
use cw_plus.Cw20Base.Holders.{TakesAtMost, execute-TakesAtMost, execute_transfer_lem}
use cw_plus.Cw20Base.Cap.{Within, execute-Issues, execute-mint-authorized}
use cw_plus.Host.{StdError}
use cw_plus.Tests.{plain_host, at, from}

-- 25 of the 40 of account 2 are allowed to account 1, until block 100; account 9 may mint up to
-- 500.
abbrev allowed : ℕ → AllowanceResponse
allowed n = record { allowance = n; expires = 100 }

abbrev token_info : ℕ → TokenInfo
token_info supply = record {
  name = 1;
  symbol = 2;
  decimals = 6;
  total_supply = supply;
  mint = some (record { minter = 9; cap = some 500 });
}

abbrev token : ℕ → Dict ℕ → ℕ → State
token supply balances allowance = record {
  version = some 20;
  token_info = some (token_info supply);
  marketing_info = none;
  logo = none;
  balances = balances;
  allowances = (2, (1, allowed allowance) ∷ []) ∷ [];
  allowances_spender = (1, (2, allowed allowance) ∷ []) ∷ [];
}

abbrev before : State
before = token 100 ((1, 60) ∷ (2, 40) ∷ []) 25

abbrev after_transfer_from : State
after_transfer_from = token 100 ((1, 60) ∷ (2, 25) ∷ (3, 15) ∷ []) 10

abbrev after_mint : State
after_mint = token 150 ((1, 60) ∷ (2, 40) ∷ (3, 50) ∷ []) 25

transfer_from_run :
    execute plain_host (at 7) (from 1) (transfer_from 2 3 15) before ≡ ok (after_transfer_from, [])
unfolding execute execute_transfer_from deduct_allowance deduct move_tokens lookup insert
    lookup_pair insert_pair plain_host
transfer_from_run = refl

mint_run : execute plain_host (at 7) (from 9) (mint 3 50) before ≡ ok (after_mint, [])
unfolding execute execute_mint check_cap lookup insert plain_host
mint_run = refl

before-IsBacked : IsBacked before
unfolding sum_by
before-IsBacked = record {
  is_map = (omega arith, ((tt, tt)));
  backed = refl;
  bounded = omega arith;
}

before-IsMirrored : IsMirrored before
unfolding lookup_pair lookup
before-IsMirrored = record {
  owners = λ k. ground arith;
  spenders = λ k. ground arith;
  mirrored = λ o s. ground arith;
}

execute-IsBacked_example : IsBacked after_transfer_from
execute-IsBacked_example =
    execute-IsBacked plain_host (at 7) (from 1) before after_transfer_from [] before-IsBacked
      (transfer_from 2 3 15) transfer_from_run

execute-IsMirrored_example : IsMirrored after_transfer_from
execute-IsMirrored_example =
    execute-IsMirrored plain_host (at 7) (from 1) before after_transfer_from [] before-IsMirrored
      (transfer_from 2 3 15) transfer_from_run

-- Account 2 loses 15, and account 1 has 15 less to take from it.
execute-TakesAtMost_example : TakesAtMost 2 1 before after_transfer_from
execute-TakesAtMost_example =
    execute-TakesAtMost plain_host (at 7) (from 1) before after_transfer_from [] before-IsBacked 2
      (λ e. omega (arith, e)) (transfer_from 2 3 15) transfer_from_run

execute_transfer_lem_example :
    ((15 ≤ balance_of 1 before.balances)
      × (st' : State) × (execute_transfer plain_host (at 7) (from 1) 2 15 before ≡ ok (st', []))
      × (st' ≡ record before { balances = st'.balances })
      × ((k : ℕ)
          → balance_of k st'.balances + (if k == 1 then 15 else 0)
            ≡ balance_of k before.balances + (if k == 2 then 15 else 0)))
    ⊎ ((balance_of 1 before.balances < 15)
        × (execute_transfer plain_host (at 7) (from 1) 2 15 before ≡ err (std StdError.overflow)))
unfolding plain_host
execute_transfer_lem_example =
    execute_transfer_lem plain_host (at 7) (from 1) 2 2 15 before before-IsBacked refl

execute-Issues_example : 150 ≡ 100 + 50
execute-Issues_example =
    execute-Issues plain_host (at 7) (from 9) before after_mint [] (mint 3 50) mint_run

execute-mint-authorized_example :
    (t : TokenInfo) × (m : MinterData) × (before.token_info ≡ some t)
    × (t.mint ≡ some m)
    × (9 ≡ m.minter)
    × Within m.cap 150
execute-mint-authorized_example =
    execute-mint-authorized plain_host (at 7) (from 9) before after_mint [] 3 50 mint_run
