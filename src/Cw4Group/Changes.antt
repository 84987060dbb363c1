-- ===== src/Cw4Group/Changes.antt =====
-- What an edit of contracts/cw4-group does to the members, and what its hooks are told.
use cw_plus.Base.{
  ℕ, ◌+◌, ◌-◌, ◌≡◌, ◌==◌, ◌||◌, Bool, false, Option, none, some, List, [], ◌∷◌, ◌++◌, map, ok,
  arith, refl, inl, inr, unwrap_or, if◌then◌else◌, Result-cases, Option-cases,
}
use cw_plus.Base.Dict.{
  Dict, lookup, insert, erase, IsMap, lookup-insert, lookup-erase, insert-IsMap, erase-IsMap,
}
use cw_plus.Base.Sort.{
  sort_by, insert_sorted, Fresh, AreDistinct, sort_by-AreDistinct, sort_by-Fresh,
}
use cw_plus.Host.{Host, Text, Env, MessageInfo}
use cw_plus.Cw4Group.State.{Member, MemberDiff, HookCall, State, Controllers}
use cw_plus.Cw4Group.Handlers.{
  addr_of, add_members, remove_members, update_members, execute_update_members,
}
use cw_plus.Cw4Group.Sums.{IsSummed, update_steps}

-- The weight that an address is to have after the additions, from the one it has.
abbrev pub wanted : ℕ → List Member → Option ℕ → Option ℕ
wanted k [] old = old
wanted k (x ∷ xs) old = if k == x.addr then some x.weight else wanted k xs old

abbrev pub is_removed : ℕ → List Text → Bool
is_removed k [] = false
is_removed k (j ∷ js) = k == j || is_removed k js

-- An edit as its diffs tell it: each diff has the weight before it.
abbrev pub apply_diff : MemberDiff → Dict ℕ → Dict ℕ
apply_diff d m = elim d.new [ none ↦ erase d.key m | some w ↦ insert d.key w m ]

abbrev pub Replays : List MemberDiff → Dict ℕ → Dict ℕ → Type 0
Replays [] m m' = m' ≡ m
Replays (d ∷ ds) m m' = (lookup d.key m ≡ d.old) × Replays ds (apply_diff d m) m'

Replays-++ :
    (ds es : List MemberDiff) (m m' m'' : Dict ℕ)
    → Replays ds m m'
    → Replays es m' m''
    → Replays (ds ++ es) m m''
Replays-++ [] es m m' m'' r s = rw (← r) s
Replays-++ (d ∷ ds) es m m' m'' r s = (r.0, Replays-++ ds es (apply_diff d m) m' m'' r.1 s)

Fresh-wanted :
    (k : ℕ) (xs : List Member) (old : Option ℕ) → Fresh addr_of k xs → wanted k xs old ≡ old
Fresh-wanted k [] old f = refl
Fresh-wanted k (x ∷ xs) old f = ground (arith, Fresh-wanted k xs old f.1)

wanted-insert_sorted :
    (k : ℕ) (x : Member) (xs : List Member) (old : Option ℕ)
    → Fresh addr_of x.addr xs
    → wanted k (insert_sorted addr_of x xs) old ≡ wanted k (x ∷ xs) old
unfolding insert_sorted
wanted-insert_sorted k x [] old f = refl
wanted-insert_sorted k x (y ∷ ys) old f = ground (arith, wanted-insert_sorted k x ys old f.1)

wanted-sort_by :
    (k : ℕ) (xs : List Member) (old : Option ℕ)
    → AreDistinct addr_of xs
    → wanted k (sort_by addr_of xs) old ≡ wanted k xs old
unfolding sort_by
wanted-sort_by k [] old d = refl
wanted-sort_by k (x ∷ xs) old d = ground (
  arith,
  wanted-insert_sorted k x (sort_by addr_of xs) old,
  sort_by-Fresh addr_of x.addr xs,
  wanted-sort_by k xs old d.1,
)

module _ (h : Host) where
  add_members_lem :
      (ms : List Member) (m m' : Dict ℕ) (t t' : ℕ) (ds : List MemberDiff)
      → add_members h ms m t ≡ ok (m', t', ds)
      → IsMap m
      → AreDistinct addr_of ms
      → IsMap m' × Replays ds m m' × ((k : ℕ) → lookup k m' ≡ wanted k ms (lookup k m))
  unfolding add_members
  add_members_lem [] m m' t t' ds e is d =
      let end : (m' ≡ m) × (ds ≡ []) = ground arith in
      (rw end.0 is, rw end.1 end.0, λ k. rw end.0 refl)
  add_members_lem (x ∷ ms) m m' t t' ds e is d = elim (Result-cases (h.addr_validate x.addr)) [
    | inl (a, v) ↦
        let same : a ≡ x.addr = h.addr_validate_lem x.addr a v in
        let old = unwrap_or (lookup a m) 0 in
        elim (Result-cases (add_members h ms (insert a x.weight m) (t - old + x.weight))) [
          | inl (r, e') ↦
              let (map, told, after) =
                add_members_lem ms (insert a x.weight m) m' (t - old + x.weight) t' r.2
                  (ground (arith, h.sub_64_lem t old, h.add_64_lem (t - old) x.weight))
                  (insert-IsMap a x.weight m is) d.1 in
              let diff : MemberDiff = record {
                key = x.addr;
                old = lookup a m;
                new = some x.weight;
              } in
              let all : ds ≡ diff ∷ r.2 =
                ground (arith, h.sub_64_lem t old, h.add_64_lem (t - old) x.weight) in
              (
                map,
                rw all (rw (← same) (refl, told)),
                λ k. ground (
                  arith,
                  after k,
                  lookup-insert k a x.weight m,
                  Fresh-wanted k ms (lookup k (insert a x.weight m)),
                ),
              )
          | inr refused ↦
              absurd (ground (arith, h.sub_64_lem t old, h.add_64_lem (t - old) x.weight))
        ]
    | inr refused ↦ absurd (ground arith)
  ]

  remove_members_lem :
      (ks : List Text) (m m' : Dict ℕ) (t t' : ℕ) (ds : List MemberDiff)
      → remove_members h ks m t ≡ ok (m', t', ds)
      → IsMap m
      → Replays ds m m' × ((k : ℕ) → lookup k m' ≡ (if is_removed k ks then none else lookup k m))
  unfolding remove_members
  remove_members_lem [] m m' t t' ds e is =
      let end : (m' ≡ m) × (ds ≡ []) = ground arith in (rw end.1 end.0, λ k. rw end.0 refl)
  remove_members_lem (j ∷ ks) m m' t t' ds e is = elim (Result-cases (h.addr_validate j)) [
    | inl (a, v) ↦
        let same : a ≡ j = h.addr_validate_lem j a v in
        elim (Option-cases (lookup a m)) [
          | inl missing ↦
              let (told, after) = remove_members_lem ks m m' t t' ds (ground arith) is in
              (told, λ k. ground (arith, after k))
          | inr (w, found) ↦ elim (Result-cases (remove_members h ks (erase a m) (t - w))) [
            | inl (r, e') ↦
                let (told, after) =
                  remove_members_lem ks (erase a m) m' (t - w) t' r.2
                    (ground (arith, h.sub_64_lem t w)) (erase-IsMap a m is) in
                let diff : MemberDiff = record { key = j; old = some w; new = none } in
                let all : ds ≡ diff ∷ r.2 = ground (arith, h.sub_64_lem t w) in
                (
                  rw all (rw (← same) (found, told)),
                  λ k. ground (arith, after k, lookup-erase k a m is),
                )
            | inr refused ↦ absurd (ground (arith, h.sub_64_lem t w))
          ]
        ]
    | inr refused ↦ absurd (ground arith)
  ]

  module _ (c : Controllers) (env : Env) (info : MessageInfo) (add : List Member)
      (remove : List Text) (st st' : State) (calls : List HookCall) (good : IsSummed st) where
    -- An edit that is handled is the admin's and names no address twice to add; a removed address
    -- is then no member, also if it is added, an added one has its weight, and all others are as
    -- they were.
    pub execute_update_members_lem :
        execute_update_members h c env info add remove st ≡ ok (st', calls)
        → (st.admin ≡ some info.sender)
          × AreDistinct addr_of add
          × ((k : ℕ)
              → lookup k st'.members
                ≡ (if is_removed k remove then none else wanted k add (lookup k st.members)))
    unfolding execute_update_members
    execute_update_members_lem e =
        elim (Result-cases (update_members h c info.sender add remove st)) [
          | inl (done, did) ↦
              let (t, a, r, admin, d, known, added, removed, e', all) =
                update_steps h c info.sender add remove st done.0 done.1 did in
              let (map, told, after) =
                add_members_lem (sort_by addr_of add) st.members a.0 t a.1 a.2 added good.is_map
                  ((sort_by-AreDistinct addr_of add).1 d) in
              let (told', after') = remove_members_lem remove a.0 r.0 a.1 r.1 r.2 removed map in
              (
                admin,
                d,
                λ k. ground (arith, after k, after' k, wanted-sort_by k add (lookup k st.members)),
              )
          | inr refused ↦ absurd (ground arith)
        ]

    -- Each hook is sent the same diffs, one message per hook and in the order of the hooks, and
    -- the diffs tell the edit: replayed one by one on the old members, each meets the weight that
    -- it gives as the old one, and together they make the new members.
    pub execute_update_members-Replays :
        execute_update_members h c env info add remove st ≡ ok (st', calls)
        → (ds : List MemberDiff) × Replays ds st.members st'.members
          × (calls ≡ map (λ a. record { contract_addr = a; diffs = ds }) st.hooks)
    unfolding execute_update_members
    execute_update_members-Replays e =
        elim (Result-cases (update_members h c info.sender add remove st)) [
          | inl (done, did) ↦
              let (t, a, r, admin, d, known, added, removed, e', all) =
                update_steps h c info.sender add remove st done.0 done.1 did in
              let (map, told, after) =
                add_members_lem (sort_by addr_of add) st.members a.0 t a.1 a.2 added good.is_map
                  ((sort_by-AreDistinct addr_of add).1 d) in
              let (told', after') = remove_members_lem remove a.0 r.0 a.1 r.1 r.2 removed map in
              let same : st'.members ≡ r.0 = ground arith in
              (
                a.2 ++ r.2,
                rw same (Replays-++ a.2 r.2 st.members a.0 r.0 told told'),
                ground (
                  arith,
                  c.prepare_hooks_lem done.0.hooks
                      (λ x. record { contract_addr = x; diffs = done.1 }),
                ),
              )
          | inr refused ↦ absurd (ground arith)
        ]
