-- ===== src/Cw4Stake/Membership.antt =====
-- What a handled `update_membership` of contracts/cw4-stake has done.
use cw_plus.Base.{
  ℕ, ◌+◌, ◌-◌, ◌≤◌, ◌≡◌, ◌⊎◌, true, Option, none, some, List, [], ◌∷◌, map, ok, arith, refl, inl,
  inr, unwrap_or, Option-cases, Result-cases, Bool-cases, u64_max,
}
use cw_plus.Base.Dict.{lookup}
use cw_plus.Host.{Host}
use cw_plus.Cw4Group.State.{MemberDiff, HookCall, Controllers}
use cw_plus.Cw4Stake.State.{Claims, Config, State, Message, call_hook}
use cw_plus.Cw4Stake.Handlers.{calc_weight, same_weight, set_member, update_membership}

same_weight_lem : (a b : Option ℕ) → same_weight a b ≡ true → a ≡ b
unfolding same_weight
same_weight_lem none none e = refl
same_weight_lem (some a) (some b) e = ground arith
same_weight_lem none (some b) e = absurd (ground arith)
same_weight_lem (some a) none e = absurd (ground arith)

-- The call that tells one hook of one diff.
abbrev pub tell : MemberDiff → ℕ → HookCall
tell diff a = record { contract_addr = a; diffs = diff ∷ [] }

-- The storage after the weight of an account has changed.
abbrev pub reweighed : ℕ → Option ℕ → ℕ → State → State
reweighed a new total st = record st { members = set_member a new st.members; total = some total }

module _ (h : Host) (c : Controllers) (cl : Claims h) where
  pub update_membership_steps :
      (a stake : ℕ) (cfg : Config) (st st' : State) (out : List Message)
      → update_membership h c cl a stake cfg st ≡ ok (st', out)
      → (new : Option ℕ) × (calc_weight stake cfg ≡ ok new)
        × (((new ≡ lookup a st.members) × (st' ≡ st) × (out ≡ []))
            ⊎ ((t : ℕ) × (st.total ≡ some t)
                × (t + unwrap_or new 0 ≤ u64_max)
                × (unwrap_or (lookup a st.members) 0 ≤ t + unwrap_or new 0)
                × (st'
                    ≡ reweighed a new (t + unwrap_or new 0 - unwrap_or (lookup a st.members) 0) st)
                × (out
                    ≡ map call_hook (
                        map
                          (tell (record { key = a; old = lookup a st.members; new = new }))
                          st.hooks))))
  unfolding update_membership
  update_membership_steps a stake cfg st st' out e = elim (Result-cases (calc_weight stake cfg)) [
    | inl (new, weighed) ↦
        let diff : MemberDiff = record { key = a; old = lookup a st.members; new = new } in
        elim (Bool-cases (same_weight new (lookup a st.members))) [
          | inl same ↦ (
            new,
            weighed,
            inl (same_weight_lem new (lookup a st.members) same, ground arith, ground arith),
          )
          | inr other ↦ elim (Option-cases st.total) [
            | inl missing ↦ absurd (ground arith)
            | inr (t, known) ↦ (
              new,
              weighed,
              inr (
                t,
                known,
                ground arith,
                ground arith,
                ground arith,
                ground (arith, c.prepare_hooks_lem st.hooks (tell diff)),
              ),
            )
          ]
        ]
    | inr refused ↦ absurd (ground arith)
  ]
