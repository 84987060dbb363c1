-- ===== src/Cw4Group/Handlers.antt =====
-- contracts/cw4-group/src/contract.rs and helpers.rs.
use cw_plus.Base.{
  map, leb, ℕ, ◌==◌, Option, none, some, List, [], ◌∷◌, ◌++◌, Result, ok, err, ◌>>=◌, ◌>>◌, ok_or,
  map_err, unwrap_or, if◌then◌else◌,
}
use cw_plus.Base.Dict.{Dict, lookup, insert, erase}
use cw_plus.Base.Dict.Page.{page}
use cw_plus.Base.Sort.{sort_by}
use cw_plus.Host.{Host, Text, Addr, StdError, Env, MessageInfo}
use cw_plus.Cw4Group.State.{
  Member, MemberDiff, State, InstantiateMsg, ExecuteMsg, ContractError, std, hook, overflow,
  duplicate_member, Outcome, Controllers,
}

-- The first address that stands twice in a row.
unfoldable pub first_duplicate : List Member → Option Text
first_duplicate [] = none
first_duplicate (x ∷ []) = none
first_duplicate (x ∷ y ∷ ys) =
    let rest = first_duplicate (y ∷ ys) in if x.addr == y.addr then some x.addr else rest

abbrev pub addr_of : Member → Text
addr_of x = x.addr

-- `validate_unique_members`: the members, sorted.
unfoldable pub validate_unique_members : List Member → Result ContractError (List Member)
validate_unique_members members =
    let sorted = sort_by addr_of members in
    elim (first_duplicate sorted) [ none ↦ ok sorted | some a ↦ err (duplicate_member a) ]

abbrev pub validated : Host → Text → Result ContractError Addr
validated h s = map_err std (h.addr_validate s)

abbrev pub validated_option : Host → Option Text → Result ContractError (Option Addr)
validated_option h none = ok none
validated_option h (some s) = do a ← validated h s; ok (some a)

-- The loop of `create`.
unfoldable pub save_members : Host → List Member → Dict ℕ → ℕ → Result ContractError (Dict ℕ × ℕ)
save_members h [] members total = ok (members, total)
save_members h (member ∷ rest) members total = do
  more ← ok_or (h.add_64 total member.weight) overflow
  addr ← validated h member.addr
  save_members h rest (insert addr member.weight members) more

-- `create`, on the storage of a contract that has been given its version
unfoldable pub create : Host → Option Text → List Member → State → Result ContractError State
create h admin members st = do
  sorted ← validate_unique_members members
  admin_addr ← validated_option h admin
  (saved, total) ← save_members h sorted st.members 0
  ok (record st { admin = admin_addr; members = saved; total = some total })

unfoldable pub instantiate : Host → InstantiateMsg → Result ContractError State
instantiate h msg = create h msg.admin msg.members (record {
  version = some h.contract_version;
  admin = none;
  hooks = [];
  total = none;
  members = [];
})

-- The first loop of `update_members`: the members, the total and the diffs.
unfoldable pub add_members :
    Host → List Member → Dict ℕ → ℕ → Result ContractError (Dict ℕ × ℕ × List MemberDiff)
add_members h [] members total = ok (members, total, [])
add_members h (add ∷ rest) members total = do
  addr ← validated h add.addr
  less ← ok_or (h.sub_64 total (unwrap_or (lookup addr members) 0)) (std StdError.overflow)
  more ← ok_or (h.add_64 less add.weight) (std StdError.overflow)
  (members', total', diffs) ← add_members h rest (insert addr add.weight members) more
  ok (
    members',
    total',
    record { key = add.addr; old = lookup addr members; new = some add.weight } ∷ diffs,
  )

-- The second loop.
unfoldable pub remove_members :
    Host → List Text → Dict ℕ → ℕ → Result ContractError (Dict ℕ × ℕ × List MemberDiff)
remove_members h [] members total = ok (members, total, [])
remove_members h (remove ∷ rest) members total = do
  addr ← validated h remove
  elim (lookup addr members) [
    | none ↦ remove_members h rest members total
    | some weight ↦ do
      less ← ok_or (h.sub_64 total weight) overflow
      (members', total', diffs) ← remove_members h rest (erase addr members) less
      ok (members', total', record { key = remove; old = some weight; new = none } ∷ diffs)
  ]

module _ (h : Host) (c : Controllers) where
  -- `update_members`: the storage and the diffs
  unfoldable pub update_members :
      Addr → List Member → List Text → State → Result ContractError (State × List MemberDiff)
  update_members sender to_add to_remove st = do
    sorted ← validate_unique_members to_add
    map_err ContractError.admin (c.assert_admin st.admin sender)
    total ← ok_or st.total (std StdError.not_found)
    (added, total', diffs) ← add_members h sorted st.members total
    (removed, total'', diffs') ← remove_members h to_remove added total'
    ok (record st { members = removed; total = some total'' }, diffs ++ diffs')

  unfoldable pub execute_update_members :
      Env → MessageInfo → List Member → List Text → State → Outcome
  execute_update_members env info add remove st = do
    (st', diffs) ← update_members info.sender add remove st
    ok (st', c.prepare_hooks st'.hooks (λ addr. record { contract_addr = addr; diffs = diffs }))

  unfoldable pub execute : Env → MessageInfo → ExecuteMsg → State → Outcome
  execute env info (ExecuteMsg.update_admin admin) st = do
    new_admin ← validated_option h admin
    stored ← map_err ContractError.admin (c.execute_update_admin st.admin info.sender new_admin)
    ok (record st { admin = stored }, [])
  execute env info (ExecuteMsg.update_members remove add) st =
      execute_update_members env info add remove st
  execute env info (ExecuteMsg.add_hook addr) st = do
    hook_addr ← validated h addr
    stored ← map_err hook (c.execute_add_hook st.admin st.hooks info.sender hook_addr)
    ok (record st { hooks = stored }, [])
  execute env info (ExecuteMsg.remove_hook addr) st = do
    hook_addr ← validated h addr
    stored ← map_err hook (c.execute_remove_hook st.admin st.hooks info.sender hook_addr)
    ok (record st { hooks = stored }, [])

-- `query_total_weight` and `query_member`, at the current height
unfoldable pub query_total_weight : State → ℕ
query_total_weight st = unwrap_or st.total 0

unfoldable pub query_member : Host → Text → State → Result ContractError (Option ℕ)
query_member h addr st = do a ← validated h addr; ok (lookup a st.members)

abbrev pub member_of : ℕ × ℕ → Member
member_of (addr, weight) = record { addr = addr; weight = weight }

-- `query_list_members`: a page of at most 30 members
unfoldable pub query_list_members :
    Host → Option Text → Option ℕ → State → Result ContractError (List Member)
query_list_members h start_after limit st = do
  start ← validated_option h start_after
  let asked = unwrap_or limit 10
  let size = if leb asked 30 then asked else 30
  ok (map member_of (page start size st.members))
