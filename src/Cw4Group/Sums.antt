-- ===== src/Cw4Group/Sums.antt =====
-- The total weight of contracts/cw4-group is the sum of its members' weights.
use cw_plus.Base.{
  ℕ, ◌+◌, ◌-◌, ◌≤◌, ◌≡◌, none, some, List, [], ◌∷◌, ◌++◌, ok, arith, inl, inr, false, ◌↔◌, u64_max,
  refl, Result-cases, Option-cases, unwrap_or,
}
use cw_plus.Base.Dict.{Dict, lookup, insert, erase, IsMap, insert-IsMap, erase-IsMap}
use cw_plus.Base.Dict.Sum.{sum_by, sum_by-insert, sum_by-erase}
use cw_plus.Base.Dict.Absent.{Absent, insert-Absent, Absent-nil}
use cw_plus.Base.Sort.{
  sort_by, has_equal_neighbours, AreDistinct, sort_by-AreDistinct, sorted_neighbours_lem,
}
use cw_plus.Host.{Host, Text, Env, MessageInfo}
use cw_plus.Cw4Group.State.{
  Member, MemberDiff, HookCall, State, InstantiateMsg, ExecuteMsg, Controllers,
}
use cw_plus.Cw4Group.Handlers.{
  first_duplicate, addr_of, save_members, add_members, remove_members, validate_unique_members,
  create, instantiate, update_members, execute_update_members, execute, validated_option,
}

abbrev pub weight_sum : Dict ℕ → ℕ
weight_sum = sum_by (λ w. w)

-- A map of members with a total that is their sum.
abbrev pub Sums : Dict ℕ → ℕ → Type 0
Sums m total = IsMap m × (weight_sum m ≡ total) × (total ≤ u64_max)

pub record IsSummed (st : State) : Type 0 where
  pub is_map : IsMap st.members
  pub summed : st.total ≡ some (weight_sum st.members)
  pub is_u64 : weight_sum st.members ≤ u64_max

module _ (h : Host) where
  add_members-Sums :
      (ms : List Member) (m m' : Dict ℕ) (t t' : ℕ) (ds : List MemberDiff)
      → add_members h ms m t ≡ ok (m', t', ds)
      → Sums m t
      → Sums m' t'
  unfolding add_members
  add_members-Sums [] m m' t t' ds e s = ground arith
  add_members-Sums (x ∷ ms) m m' t t' ds e s = elim (Result-cases (h.addr_validate x.addr)) [
    | inl (a, v) ↦
        let old = unwrap_or (lookup a m) 0 in
        elim (Result-cases (add_members h ms (insert a x.weight m) (t - old + x.weight))) [
          | inl (r, e') ↦ ground (
            arith,
            h.sub_64_lem t old,
            h.add_64_lem (t - old) x.weight,
            insert-IsMap a x.weight m s.0,
            sum_by-insert (λ w. w) a x.weight m s.0,
            add_members-Sums ms (insert a x.weight m) m' (t - old + x.weight) t' r.2,
          )
          | inr refused ↦
              absurd (ground (arith, h.sub_64_lem t old, h.add_64_lem (t - old) x.weight))
        ]
    | inr refused ↦ absurd (ground arith)
  ]

  remove_members-Sums :
      (ks : List Text) (m m' : Dict ℕ) (t t' : ℕ) (ds : List MemberDiff)
      → remove_members h ks m t ≡ ok (m', t', ds)
      → Sums m t
      → Sums m' t'
  unfolding remove_members
  remove_members-Sums [] m m' t t' ds e s = ground arith
  remove_members-Sums (k ∷ ks) m m' t t' ds e s = elim (Result-cases (h.addr_validate k)) [
    | inl (a, v) ↦ elim (Option-cases (lookup a m)) [
      | inl missing ↦ remove_members-Sums ks m m' t t' ds (ground arith) s
      | inr (w, found) ↦ elim (Result-cases (remove_members h ks (erase a m) (t - w))) [
        | inl (r, e') ↦ ground (
          arith,
          h.sub_64_lem t w,
          erase-IsMap a m s.0,
          sum_by-erase (λ w. w) a m,
          remove_members-Sums ks (erase a m) m' (t - w) t' r.2,
        )
        | inr refused ↦ absurd (ground (arith, h.sub_64_lem t w))
      ]
    ]
    | inr refused ↦ absurd (ground arith)
  ]

first_duplicate-has_equal_neighbours :
    (ms : List Member) → (first_duplicate ms ≡ none) ↔ (has_equal_neighbours addr_of ms ≡ false)
unfolding first_duplicate has_equal_neighbours
first_duplicate-has_equal_neighbours [] = (λ e. refl, λ e. refl)
first_duplicate-has_equal_neighbours (x ∷ []) = (λ e. refl, λ e. refl)
first_duplicate-has_equal_neighbours (x ∷ y ∷ ys) =
    ground (arith, first_duplicate-has_equal_neighbours (y ∷ ys))

-- A list of members is accepted exactly when no address stands in it twice, and then sorted.
pub validate_unique_members_lem :
    (ms sorted : List Member)
    → (validate_unique_members ms ≡ ok sorted)
      ↔ (AreDistinct addr_of ms × (sorted ≡ sort_by addr_of ms))
unfolding validate_unique_members
validate_unique_members_lem ms sorted = elim (Option-cases (first_duplicate (sort_by addr_of ms))) [
  | inl unique ↦ ground (
    arith,
    sorted_neighbours_lem addr_of ms,
    first_duplicate-has_equal_neighbours (sort_by addr_of ms),
  )
  | inr (a, found) ↦ ground (
    arith,
    sorted_neighbours_lem addr_of ms,
    first_duplicate-has_equal_neighbours (sort_by addr_of ms),
  )
]

weight_sum-nil : weight_sum [] ≡ 0
unfolding sum_by
weight_sum-nil = refl

module _ (h : Host) where
  save_members-Sums :
      (ms : List Member) (m m' : Dict ℕ) (t t' : ℕ)
      → save_members h ms m t ≡ ok (m', t')
      → Sums m t
      → AreDistinct addr_of ms
      → Absent addr_of ms m
      → Sums m' t'
  unfolding save_members
  save_members-Sums [] m m' t t' e s d y = ground arith
  save_members-Sums (x ∷ ms) m m' t t' e s d y = elim (Result-cases (h.addr_validate x.addr)) [
    | inl (a, v) ↦
        let same : a ≡ x.addr = h.addr_validate_lem x.addr a v in
        ground (
          arith,
          h.add_64_lem t x.weight,
          insert-IsMap a x.weight m s.0,
          sum_by-insert (λ w. w) a x.weight m s.0,
          insert-Absent addr_of x.addr x.weight ms m d.0 y.1,
          save_members-Sums ms (insert a x.weight m) m' (t + x.weight) t',
        )
    | inr refused ↦ absurd (ground (arith, h.add_64_lem t x.weight))
  ]

  -- A group that is created has a total that is the sum of its members' weights.
  pub instantiate-IsSummed :
      (msg : InstantiateMsg) (st : State) → instantiate h msg ≡ ok st → IsSummed st
  unfolding instantiate create
  instantiate-IsSummed msg st e = elim (Result-cases (validate_unique_members msg.members)) [
    | inl (sorted, accepted) ↦ elim (Result-cases (validated_option h msg.admin)) [
      | inl (admin, v) ↦ elim (Result-cases (save_members h sorted [] 0)) [
        | inl (r, saved) ↦
            let (d, order) = (validate_unique_members_lem msg.members sorted).0 accepted in
            let distinct : AreDistinct addr_of sorted =
              ground (arith, sort_by-AreDistinct addr_of msg.members) in
            let (map, sum, top) =
              save_members-Sums sorted [] r.0 0 r.1 saved (tt, weight_sum-nil, omega arith) distinct
                (Absent-nil addr_of sorted [] refl) in
            let same : (st.members ≡ r.0) × (st.total ≡ some r.1) = ground arith in
            record { is_map = ground (arith, map); summed = ground arith; is_u64 = ground arith }
        | inr refused ↦ absurd (ground arith)
      ]
      | inr refused ↦ absurd (ground arith)
    ]
    | inr refused ↦ absurd (ground arith)
  ]

  module _ (c : Controllers) where
    -- What a handled `update_members` has done.
    pub update_steps :
        (sender : ℕ) (add : List Member) (remove : List Text) (st st' : State)
        (ds : List MemberDiff)
        → update_members h c sender add remove st ≡ ok (st', ds)
        → (t : ℕ) × (a : Dict ℕ × ℕ × List MemberDiff) × (r : Dict ℕ × ℕ × List MemberDiff)
          × (st.admin ≡ some sender)
          × AreDistinct addr_of add
          × (st.total ≡ some t)
          × (add_members h (sort_by addr_of add) st.members t ≡ ok a)
          × (remove_members h remove a.0 a.1 ≡ ok r)
          × (st' ≡ record st { members = r.0; total = some r.1 })
          × (ds ≡ a.2 ++ r.2)
    unfolding update_members
    update_steps sender add remove st st' ds e = elim (Result-cases (validate_unique_members add)) [
      | inl (sorted, accepted) ↦
          let (d, order) = (validate_unique_members_lem add sorted).0 accepted in
          elim (Option-cases st.total) [
            | inl missing ↦ absurd (ground arith)
            | inr (t, known) ↦ elim (Result-cases (add_members h sorted st.members t)) [
              | inl (a, added) ↦ elim (Result-cases (remove_members h remove a.0 a.1)) [
                | inl (r, removed) ↦ (
                  t,
                  a,
                  r,
                  ground (arith, c.assert_admin_lem st.admin sender),
                  d,
                  known,
                  ground arith,
                  removed,
                  ground arith,
                  ground arith,
                )
                | inr refused ↦ absurd (ground arith)
              ]
              | inr refused ↦ absurd (ground arith)
            ]
          ]
      | inr refused ↦ absurd (ground arith)
    ]

    update_members-IsSummed :
        (sender : ℕ) (add : List Member) (remove : List Text) (st st' : State)
        (ds : List MemberDiff)
        → update_members h c sender add remove st ≡ ok (st', ds)
        → IsSummed st
        → IsSummed st'
    update_members-IsSummed sender add remove st st' ds e good =
        let (t, a, r, admin, d, known, added, removed, e', all) =
          update_steps sender add remove st st' ds e in
        let start : Sums st.members t =
          (good.is_map, ground (arith, good.summed), ground (arith, good.summed, good.is_u64)) in
        let (map, sum, top) =
          remove_members-Sums h remove a.0 r.0 a.1 r.1 r.2 removed
            (add_members-Sums h (sort_by addr_of add) st.members a.0 t a.1 a.2 added start) in
        rw e' (record { is_map = map; summed = rw sum refl; is_u64 = ground arith })

    -- A message that is handled keeps the total the sum of the members' weights, and a `u64`.
    pub execute-IsSummed :
        (env : Env) (info : MessageInfo) (msg : ExecuteMsg) (st st' : State) (calls : List HookCall)
        → execute h c env info msg st ≡ ok (st', calls)
        → IsSummed st
        → IsSummed st'
    unfolding execute execute_update_members
    execute-IsSummed env info (ExecuteMsg.update_admin admin) st st' calls e good =
        ground (arith, good)
    execute-IsSummed env info (ExecuteMsg.update_members remove add) st st' calls e good =
        elim (Result-cases (update_members h c info.sender add remove st)) [
          | inl (r, done) ↦
              ground (arith, update_members-IsSummed info.sender add remove st st' r.1)
          | inr refused ↦ absurd (ground arith)
        ]
    execute-IsSummed env info (ExecuteMsg.add_hook addr) st st' calls e good = ground (arith, good)
    execute-IsSummed env info (ExecuteMsg.remove_hook addr) st st' calls e good =
        ground (arith, good)
