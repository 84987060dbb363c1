-- ===== src/Tests/Group.antt =====
-- contracts/cw4-group with two members, one hook and an admin.
use cw_plus.Base.{
  ℕ, ◌≡◌, ◌↔◌, ◌==◌, Option, none, some, List, [], ◌∷◌, map, Result, ok, err, refl, arith,
  if◌then◌else◌,
}
use cw_plus.Base.Dict.{Dict, lookup, insert, erase}
use cw_plus.Base.Dict.Sum.{sum_by}
use cw_plus.Base.Sort.{sort_by, insert_sorted, AreDistinct}
use cw_plus.Host.{Addr}
use cw_plus.Cw4Group.State.{
  Member, MemberDiff, HookCall, State, InstantiateMsg, ExecuteMsg, Controllers, AdminError,
  HookError,
}
use cw_plus.Cw4Group.Handlers.{
  addr_of, first_duplicate, validate_unique_members, save_members, create, instantiate, add_members,
  remove_members, update_members, execute_update_members, execute,
}
use cw_plus.Cw4Group.Sums.{IsSummed, execute-IsSummed}
use cw_plus.Cw4Group.Changes.{
  Replays, wanted, is_removed, execute_update_members_lem, execute_update_members-Replays,
}
use cw_plus.Tests.{plain_host, at, from}

-- Whether the sender is the admin; the error is numbered 1.
abbrev pub asserts : Option Addr → Addr → Result AdminError (Unit {0})
asserts none sender = err 1
asserts (some a) sender = if a == sender then ok tt else err 1

pub asserts_lem : (a : Option ℕ) (sender : ℕ) → (asserts a sender ≡ ok tt) ↔ (a ≡ some sender)
asserts_lem none sender = ground arith
asserts_lem (some a) sender = ground arith

abbrev pub updates : Option Addr → Addr → Option Addr → Result AdminError (Option Addr)
updates a sender new = elim (asserts a sender) [ ok _ ↦ ok new | _ ↦ err 1 ]

pub updates_lem :
    (a new a' : Option ℕ) (sender : ℕ)
    → updates a sender new ≡ ok a'
    → (a ≡ some sender) × (a' ≡ new)
updates_lem none new a' sender e = ground arith
updates_lem (some a) new a' sender e = ground arith

abbrev pub hooks_after :
    (List Addr → List Addr) → Option Addr → List Addr → Addr → Result HookError (List Addr)
hooks_after edit a hooks sender = elim (asserts a sender) [ ok _ ↦ ok (edit hooks) | _ ↦ err 1 ]

pub hooks_after_lem :
    (edit : List ℕ → List ℕ) (a : Option ℕ) (hooks hooks' : List ℕ) (sender : ℕ)
    → hooks_after edit a hooks sender ≡ ok hooks'
    → a ≡ some sender
hooks_after_lem edit none hooks hooks' sender e = ground arith
hooks_after_lem edit (some a) hooks hooks' sender e = ground arith

abbrev pub without : Addr → List Addr → List Addr
without addr [] = []
without addr (x ∷ xs) = let rest = without addr xs in if x == addr then rest else x ∷ rest

abbrev pub plain_controllers : Controllers
plain_controllers = record {
  assert_admin = asserts;
  assert_admin_lem = asserts_lem;
  execute_update_admin = updates;
  execute_update_admin_lem = updates_lem;
  execute_add_hook = λ a hooks sender addr. hooks_after (λ hs. addr ∷ hs) a hooks sender;
  execute_add_hook_lem =
      λ a hooks hooks' sender addr. hooks_after_lem (λ hs. addr ∷ hs) a hooks hooks' sender;
  execute_remove_hook = λ a hooks sender addr. hooks_after (without addr) a hooks sender;
  execute_remove_hook_lem =
      λ a hooks hooks' sender addr. hooks_after_lem (without addr) a hooks hooks' sender;
  prepare_hooks = λ hooks call. map call hooks;
  prepare_hooks_lem = λ hooks call. refl;
}

abbrev member : ℕ → ℕ → Member
member addr weight = record { addr = addr; weight = weight }

abbrev group : List Addr → ℕ → Dict ℕ → State
group hooks total members = record {
  version = some 20;
  admin = some 9;
  hooks = hooks;
  total = some total;
  members = members;
}

abbrev msg : InstantiateMsg
msg = record { admin = some 9; members = member 4 6 ∷ member 2 5 ∷ [] }

abbrev founded : State
founded = group [] 11 ((2, 5) ∷ (4, 6) ∷ [])

abbrev hooked : State
hooked = group (70 ∷ []) 11 ((2, 5) ∷ (4, 6) ∷ [])

abbrev edited : State
edited = group (70 ∷ []) 10 ((2, 7) ∷ (3, 3) ∷ [])

abbrev additions : List Member
additions = member 3 3 ∷ member 2 7 ∷ []

abbrev told : List HookCall
told =
    record {
      contract_addr = 70;
      diffs =
          record { key = 2; old = some 5; new = some 7 }
          ∷ record { key = 3; old = none; new = some 3 }
          ∷ record { key = 4; old = some 6; new = none }
          ∷ [];
    }
    ∷ []

instantiate_run : instantiate plain_host msg ≡ ok founded
unfolding instantiate create validate_unique_members sort_by insert_sorted first_duplicate
    save_members insert plain_host
instantiate_run = refl

edit_run :
    execute_update_members plain_host plain_controllers
      (at 3)
      (from 9)
      additions
      (4 ∷ 8 ∷ [])
      hooked
    ≡ ok (edited, told)
unfolding execute_update_members update_members validate_unique_members sort_by insert_sorted
    first_duplicate add_members remove_members insert lookup erase plain_host
edit_run = refl

execute_run :
    execute plain_host plain_controllers
      (at 3)
      (from 9)
      (ExecuteMsg.update_members (4 ∷ 8 ∷ []) additions)
      hooked
    ≡ ok (edited, told)
unfolding execute
execute_run = edit_run

hooked-IsSummed : IsSummed hooked
unfolding sum_by
hooked-IsSummed = record {
  is_map = (((omega arith, tt)), (tt, tt));
  summed = refl;
  is_u64 = omega arith;
}

execute-IsSummed_example : IsSummed edited
execute-IsSummed_example =
    execute-IsSummed plain_host plain_controllers (at 3) (from 9)
      (ExecuteMsg.update_members (4 ∷ 8 ∷ []) additions) hooked edited told execute_run
      hooked-IsSummed

execute_update_members_lem_example :
    (hooked.admin ≡ some 9)
    × AreDistinct addr_of additions
    × ((k : ℕ)
        → lookup k edited.members ≡ (
            if is_removed k (4 ∷ 8 ∷ [])
            then none
            else wanted k additions (lookup k hooked.members)))
execute_update_members_lem_example =
    execute_update_members_lem plain_host plain_controllers (at 3) (from 9) additions (4 ∷ 8 ∷ [])
      hooked edited told hooked-IsSummed edit_run

execute_update_members-Replays_example :
    (ds : List MemberDiff) × Replays ds hooked.members edited.members
    × (told ≡ map (λ a. record { contract_addr = a; diffs = ds }) hooked.hooks)
execute_update_members-Replays_example =
    execute_update_members-Replays plain_host plain_controllers (at 3) (from 9) additions
      (4 ∷ 8 ∷ []) hooked edited told hooked-IsSummed edit_run
