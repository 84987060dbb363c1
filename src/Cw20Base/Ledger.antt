-- ===== src/Cw20Base/Ledger.antt =====
-- How the updates of the balances act on their sum. While the balances add up to a `Uint128`, a
-- credit that follows a debit cannot overflow.
use cw_plus.Base.{ℕ, ◌+◌, ◌-◌, ◌≤◌, ◌≡◌, ◌==◌, ok, err, panic, arith, leb, u128_max, if◌then◌else◌}
use cw_plus.Base.Dict.{Dict, insert, IsMap, lookup-insert, insert-IsMap}
use cw_plus.Base.Dict.Sum.{sum_by, measure, sum_by-insert, measure-le-sum_by}
use cw_plus.Host.{Host, StdError, Addr}
use cw_plus.Cw20Base.State.{TokenInfo, State, std, balance_of, debit, credit}
use cw_plus.Cw20Base.Transfer.{move_tokens}

abbrev pub total_of : Dict ℕ → ℕ
total_of = sum_by (λ v. v)

pub total_of-insert :
    (a n : ℕ) (b : Dict ℕ) → IsMap b → total_of (insert a n b) + balance_of a b ≡ total_of b + n
total_of-insert a n b m = ground (arith, sum_by-insert (λ v. v) a n b m)

balance_of-le-total_of : (a : ℕ) (b : Dict ℕ) → balance_of a b ≤ total_of b
balance_of-le-total_of a b = ground (arith, measure-le-sum_by (λ v. v) a b)

-- The balances after a debit and after a credit.
abbrev pub lowered : Addr → ℕ → Dict ℕ → Dict ℕ
lowered a x b = insert a (balance_of a b - x) b

abbrev pub raised : Addr → ℕ → Dict ℕ → Dict ℕ
raised a x b = insert a (balance_of a b + x) b

pub debit_lem :
    (h : Host) (a x : ℕ) (b : Dict ℕ)
    → debit h a x b
      ≡ (if leb x (balance_of a b) then ok (lowered a x b) else err (std StdError.overflow))
unfolding debit
debit_lem h a x b = ground (arith, h.sub_128_lem (balance_of a b) x)

pub credit_lem :
    (h : Host) (a x : ℕ) (b : Dict ℕ)
    → credit h a x b ≡ (if leb (balance_of a b + x) u128_max then ok (raised a x b) else panic)
unfolding credit
credit_lem h a x b = ground (arith, h.add_128_lem (balance_of a b) x)

pub total_of-lowered :
    (a x : ℕ) (b : Dict ℕ)
    → IsMap b
    → x ≤ balance_of a b
    → total_of (lowered a x b) + x ≡ total_of b
total_of-lowered a x b m le = omega (arith, total_of-insert a (balance_of a b - x) b m)

pub total_of-raised : (a x : ℕ) (b : Dict ℕ) → IsMap b → total_of (raised a x b) ≡ total_of b + x
total_of-raised a x b m = omega (arith, total_of-insert a (balance_of a b + x) b m)

pub balance_of-insert :
    (k a n : ℕ) (b : Dict ℕ) → balance_of k (insert a n b) ≡ (if k == a then n else balance_of k b)
balance_of-insert k a n b = ground (arith, lookup-insert k a n b)

abbrev pub moved : Addr → Addr → ℕ → Dict ℕ → Dict ℕ
moved from to x b = raised to x (lowered from x b)

-- The supply on record, 0 before there is one.
abbrev pub supply : State → ℕ
supply st = measure (λ (t : TokenInfo). t.total_supply) st.token_info

-- The balances add up to the total supply, and that is a `Uint128`.
pub record IsBacked (st : State) : Type 0 where
  pub is_map : IsMap st.balances
  pub backed : total_of st.balances ≡ supply st
  pub bounded : supply st ≤ u128_max

module _ (h : Host) (from to x : ℕ) (st : State) (good : IsBacked st) where
  -- `move_tokens` fails only for a lack of funds.
  pub move_tokens-moved : move_tokens h from to x st ≡ (
      if leb x (balance_of from st.balances)
      then ok (record st { balances = moved from to x st.balances })
      else err (std StdError.overflow))
  unfolding move_tokens
  move_tokens-moved = ground (
    arith,
    debit_lem h from x st.balances,
    credit_lem h to x (lowered from x st.balances),
    total_of-lowered from x st.balances good.is_map,
    balance_of-le-total_of to (lowered from x st.balances),
  )

  pub moved-IsBacked :
      x ≤ balance_of from st.balances
      → IsBacked (record st { balances = moved from to x st.balances })
  moved-IsBacked le = ground (
    arith,
    good,
    insert-IsMap from (balance_of from st.balances - x) st.balances good.is_map,
    insert-IsMap to (balance_of to (lowered from x st.balances) + x) (lowered from x st.balances),
    total_of-lowered from x st.balances good.is_map,
    total_of-raised to x (lowered from x st.balances),
  )

-- A transfer takes the amount from one balance and adds it to the other; from an account to itself
-- it changes nothing.
pub balance_of-moved :
    (k from to x : ℕ) (b : Dict ℕ)
    → x ≤ balance_of from b
    → balance_of k (moved from to x b) + (if k == from then x else 0)
      ≡ balance_of k b + (if k == to then x else 0)
balance_of-moved k from to x b le = ground (
  arith,
  balance_of-insert k to (balance_of to (lowered from x b) + x) (lowered from x b),
  balance_of-insert k from (balance_of from b - x) b,
  balance_of-insert to from (balance_of from b - x) b,
)
