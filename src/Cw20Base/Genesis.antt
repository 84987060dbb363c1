-- ===== src/Cw20Base/Genesis.antt =====
-- What `instantiate` sets up.
use cw_plus.Base.{
  ℕ, ◌+◌, ◌≤◌, ◌≡◌, ◌↔◌, Option, none, some, List, [], ◌∷◌, map, ok, arith, inl, inr, length,
  u128_max, refl, Result-cases,
}
use cw_plus.Base.Dict.{Dict, lookup, insert, IsMap, lookup-insert, insert-IsMap}
use cw_plus.Base.Dict.Sum.{sum_by}
use cw_plus.Base.Dict.Pairs.{lookup_pair}
use cw_plus.Base.Sort.{
  sort_by, Fresh, AreDistinct, sorted_neighbours_lem, length-dedup, length-sort_by,
}
use cw_plus.Host.{Host, StdError}
use cw_plus.Cw20.{Cw20Coin, MinterResponse}
use cw_plus.Cw20Base.State.{State, MinterData, minter_cap, std}
use cw_plus.Cw20Base.Transfer.{check_cap}
use cw_plus.Cw20Base.Instantiate.{
  InstantiateMsg, InstantiateMarketingInfo, validate_accounts, create_rows, create_accounts,
  minter_data, msg_cap, save_marketing, instantiate, blank, token_of,
}
use cw_plus.Cw20Base.Ledger.{IsBacked, total_of, total_of-insert}
use cw_plus.Cw20Base.Mirror.{IsMirrored}
use cw_plus.Cw20Base.Cap.{IsCapped, check_cap-Within}

abbrev pub address_of : Cw20Coin → ℕ
address_of c = c.address

Fresh-map :
    (k : ℕ) (cs : List Cw20Coin) → Fresh (λ x. x) k (map address_of cs) ↔ Fresh address_of k cs
Fresh-map k [] = (λ h. h, λ h. h)
Fresh-map k (c ∷ cs) = ground (arith, Fresh-map k cs)

AreDistinct-map :
    (cs : List Cw20Coin) → AreDistinct (λ x. x) (map address_of cs) ↔ AreDistinct address_of cs
AreDistinct-map [] = (λ h. h, λ h. h)
AreDistinct-map (c ∷ cs) = ground (arith, AreDistinct-map cs, Fresh-map c.address cs)

length-map_address : (cs : List Cw20Coin) → length (map address_of cs) ≡ length cs
length-map_address [] = refl
length-map_address (c ∷ cs) = ground (arith, length-map_address cs)

-- The initial accounts are accepted exactly when no address stands twice among them.
pub validate_accounts_iff :
    (cs : List Cw20Coin) → (validate_accounts cs ≡ ok tt) ↔ AreDistinct address_of cs
unfolding validate_accounts
validate_accounts_iff cs = ground (
  arith,
  length-dedup (sort_by (λ x. x) (map address_of cs)),
  length-sort_by (map address_of cs),
  length-map_address cs,
  sorted_neighbours_lem (λ x. x) (map address_of cs),
  AreDistinct-map cs,
)

-- No address of the rows has a balance yet.
abbrev NotYet : List Cw20Coin → Dict ℕ → Type 0
NotYet [] b = Unit
NotYet (c ∷ cs) b = (lookup c.address b ≡ none) × NotYet cs b

insert-NotYet :
    (k n : ℕ) (cs : List Cw20Coin) (b : Dict ℕ)
    → Fresh address_of k cs
    → NotYet cs b
    → NotYet cs (insert k n b)
insert-NotYet k n [] b f y = tt
insert-NotYet k n (c ∷ cs) b f y =
    ground (arith, insert-NotYet k n cs b f.1 y.1, lookup-insert c.address k n b)

NotYet-nil : (cs : List Cw20Coin) → NotYet cs []
unfolding lookup
NotYet-nil [] = tt
NotYet-nil (c ∷ cs) = (refl, NotYet-nil cs)

total_of-nil : total_of [] ≡ 0
unfolding sum_by
total_of-nil = refl

-- The supply is the sum of the balances after each row.
create_rows-backed :
    (h : Host) (cs : List Cw20Coin) (b b' : Dict ℕ) (n n' : ℕ)
    → create_rows h cs b n ≡ ok (b', n')
    → IsMap b
    → total_of b ≡ n
    → n ≤ u128_max
    → AreDistinct address_of cs
    → NotYet cs b
    → IsMap b' × (total_of b' ≡ n') × (n' ≤ u128_max)
unfolding create_rows
create_rows-backed h [] b b' n n' e m s le d y = ground arith
create_rows-backed h (c ∷ cs) b b' n n' e m s le d y =
    elim (Result-cases (h.addr_validate c.address)) [
      | inl (a, v) ↦
          let same : a ≡ c.address = h.addr_validate_lem c.address a v in
          ground (
            arith,
            h.add_128_lem n c.amount,
            insert-IsMap a c.amount b m,
            total_of-insert a c.amount b m,
            insert-NotYet c.address c.amount cs b d.0 y.1,
            create_rows-backed h cs (insert a c.amount b) b' (n + c.amount) n',
          )
      | inr refused ↦ ground arith
    ]

-- The token that `instantiate` saves, before the marketing data.
abbrev pub IsFounded : State → Type 0
IsFounded st = IsBacked st × IsCapped st × IsMirrored st

create_accounts-backed :
    (h : Host) (cs : List Cw20Coin) (b' : Dict ℕ) (n' : ℕ)
    → create_accounts h cs [] ≡ ok (b', n')
    → IsMap b' × (total_of b' ≡ n') × (n' ≤ u128_max)
unfolding create_accounts
create_accounts-backed h cs b' n' e = elim (Result-cases (validate_accounts cs)) [
  | inl (_, v) ↦
      create_rows-backed h cs [] b' 0 n' (ground arith) tt total_of-nil (omega arith)
        ((validate_accounts_iff cs).0 v) (NotYet-nil cs)
  | inr refused ↦ absurd (ground arith)
]

create_accounts-AreDistinct :
    (h : Host) (cs : List Cw20Coin) (b' : Dict ℕ) (n' : ℕ)
    → create_accounts h cs [] ≡ ok (b', n')
    → AreDistinct address_of cs
unfolding create_accounts
create_accounts-AreDistinct h cs b' n' e = ground (arith, validate_accounts_iff cs)

no_allowances-IsMirrored :
    (st : State) → st.allowances ≡ [] → st.allowances_spender ≡ [] → IsMirrored st
unfolding lookup lookup_pair
no_allowances-IsMirrored st e f = record {
  owners = λ k. rw e tt;
  spenders = λ k. rw f tt;
  mirrored = λ o s. rw (e, f) refl;
}

minter_data-cap :
    (h : Host) (m : Option MinterResponse) (d : Option MinterData)
    → minter_data h m ≡ ok d
    → minter_cap d ≡ msg_cap m
unfolding minter_data
minter_data-cap h none d e = ground arith
minter_data-cap h (some m) d e = ground arith

-- Saving the marketing data leaves the rest of the token alone.
save_marketing-rest :
    (h : Host) (m : Option InstantiateMarketingInfo) (st st' : State)
    → save_marketing h m st ≡ ok st'
    → (st'.token_info ≡ st.token_info)
      × (st'.balances ≡ st.balances)
      × (st'.allowances ≡ st.allowances)
      × (st'.allowances_spender ≡ st.allowances_spender)
unfolding save_marketing
save_marketing-rest h none st st' e = ground arith
save_marketing-rest h (some m) st st' e = ground arith

-- The steps of `instantiate`.
instantiate_steps :
    (h : Host) (msg : InstantiateMsg) (st : State)
    → instantiate h msg ≡ ok st
    → (b : Dict ℕ) × (n : ℕ) × (d : Option MinterData) × (create_accounts h msg.initial_balances []
        ≡ ok (b, n))
      × (check_cap (msg_cap msg.mint) n (std StdError.generic_err) ≡ ok tt)
      × (minter_data h msg.mint ≡ ok d)
      × (save_marketing h msg.marketing (record blank {
        version = some h.contract_version;
        balances = b;
        token_info = some (token_of msg n d);
      })
          ≡ ok st)
unfolding instantiate
instantiate_steps h msg st e = elim (Result-cases (create_accounts h msg.initial_balances [])) [
  | inl (p, ec) ↦ elim (Result-cases (minter_data h msg.mint)) [
    | inl (d, em) ↦ (p.0, p.1, d, ground arith, ground arith, ground arith, ground arith)
    | inr refused ↦ absurd (ground arith)
  ]
  | inr refused ↦ absurd (ground arith)
]

-- A token that is instantiated has balances that add up to its supply, a supply within its cap, and
-- allowances that agree in both maps; and no address stood twice among the initial balances.
pub instantiate-IsFounded :
    (h : Host) (msg : InstantiateMsg) (st : State)
    → instantiate h msg ≡ ok st
    → IsFounded st × AreDistinct address_of msg.initial_balances
instantiate-IsFounded h msg st e =
    let (b, n, d, ec, cap, em, es) = instantiate_steps h msg st e in
    let (kept_info, kept_balances, kept_owners, kept_spenders) =
      save_marketing-rest h msg.marketing _ st es in
    let (map, sums, fits) = create_accounts-backed h msg.initial_balances b n ec in
    (
      (
        ground arith,
        ground (
          arith,
          check_cap-Within (msg_cap msg.mint) n (std StdError.generic_err) cap,
          minter_data-cap h msg.mint d em,
        ),
        no_allowances-IsMirrored st kept_owners kept_spenders,
      ),
      create_accounts-AreDistinct h msg.initial_balances b n ec,
    )
