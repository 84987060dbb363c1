-- ===== src/Cw1Subkeys/Queries.antt =====
-- The queries of contracts/cw1-subkeys/src/contract.rs.
use cw_plus.Base.{
  ℕ, Bool, true, false, Option, none, some, List, [], ◌∷◌, map, Result, ok, err, panic, ◌>>=◌,
  unwrap_or, leb, take, if◌then◌else◌,
}
use cw_plus.Base.Dict.{Dict, lookup}
use cw_plus.Base.Dict.Page.{page, range_from}
use cw_plus.Host.{Host, Text, Addr, Expiration, StdError, Block, Env}
use cw_plus.Cw1Whitelist.Handlers.{is_admin}
use cw_plus.Cw1Subkeys.State.{
  NativeBalance, Wallets, Message, staking, distribution, bank_send, other, Permissions, Allowance,
  State,
}
use cw_plus.Cw1Subkeys.Handlers.{
  check_staking_permissions, check_distribution_permissions, load_admins, unexpired,
  default_allowance,
}

-- `is_ok`; a panic is passed on.
abbrev pub is_ok {ℓ κ} : {E : Type κ} {A : Type ℓ} → Result E A → Result StdError Bool
is_ok (ok _) = ok true
is_ok (err _) = ok false
is_ok panic = panic

-- `AllowanceInfo` and `PermissionsInfo`
pub record AllowanceInfo : Type 0 where
  pub spender : Text
  pub balance : NativeBalance
  pub expires : Expiration

pub record PermissionsInfo : Type 0 where
  pub spender : Text
  pub permissions : Permissions

-- `calc_limit`
unfoldable pub calc_limit : Option ℕ → ℕ
calc_limit request = let asked = unwrap_or request 10 in if leb asked 30 then asked else 30

module _ (h : Host) (w : Wallets) where
  unfoldable pub query_allowance : Env → Text → State → Result StdError Allowance
  query_allowance env spender st = do
    addr ← h.addr_validate spender
    ok (unwrap_or (unexpired h w env.block (lookup addr st.allowances)) (default_allowance h w))

  unfoldable pub query_permissions : Text → State → Result StdError Permissions
  query_permissions spender st = do
    addr ← h.addr_validate spender
    ok (
        unwrap_or (lookup addr st.permissions)
          (record { delegate = false; redelegate = false; undelegate = false; withdraw = false }))

  -- The `match msg` of `can_execute`.
  unfoldable pub is_allowed : Block → Addr → Message → State → Result StdError Bool
  is_allowed block sender (bank_send _ amount) st = elim (lookup sender st.allowances) [
    | none ↦ ok false
    | some allow ↦
        if h.is_expired allow.expires block then ok false else is_ok (w.sub allow.balance amount)
  ]
  is_allowed block sender (staking m) st = elim (lookup sender st.permissions) [
    | none ↦ ok false
    | some permission ↦ is_ok (check_staking_permissions m permission)
  ]
  is_allowed block sender (distribution m) st = elim (lookup sender st.permissions) [
    | none ↦ ok false
    | some permission ↦ is_ok (check_distribution_permissions m permission)
  ]
  is_allowed block sender (other _) st = ok false

  unfoldable pub can_execute : Env → Text → Message → State → Result StdError Bool
  can_execute env sender msg st = do
    cfg ← load_admins st
    if is_admin cfg sender
        then ok true
        else do addr ← h.addr_validate sender; is_allowed env.block addr msg st

  unfoldable pub query_can_execute : Env → Text → Message → State → Result StdError Bool
  query_can_execute env sender msg st = can_execute env sender msg st

  -- `filter` on a range: the allowances that are not expired
  unfoldable pub drop_expired : Block → Dict Allowance → Dict Allowance
  drop_expired block [] = []
  drop_expired block ((a, allow) ∷ rest) =
      let kept = drop_expired block rest in
      if h.is_expired allow.expires block then kept else (a, allow) ∷ kept

  unfoldable pub query_all_allowances : Env → Option Text → Option ℕ → State → List AllowanceInfo
  query_all_allowances env start_after limit st =
      map (λ e. record { spender = e.0; balance = e.1.balance; expires = e.1.expires })
        (take (calc_limit limit) (drop_expired env.block (range_from start_after st.allowances)))

unfoldable pub query_all_permissions : Option Text → Option ℕ → State → List PermissionsInfo
query_all_permissions start_after limit st =
    map (λ e. record { spender = e.0; permissions = e.1 })
      (page start_after (calc_limit limit) st.permissions)
