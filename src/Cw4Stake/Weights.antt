-- ===== src/Cw4Stake/Weights.antt =====
-- The weights of contracts/cw4-stake follow the stakes, and the total is their sum.
use cw_plus.Base.{
  Option-cases, ℕ, ◌+◌, ◌-◌, ◌≤◌, ◌<◌, ◌≡◌, ◌≢◌, ◌==◌, Option, none, some, List, [], Result, ok,
  arith, refl, inl, inr, unwrap_or, if◌then◌else◌, Result-cases, Bool-cases, u64_max, leb,
}
use cw_plus.Base.Dict.{
  Dict, lookup, insert, IsMap, insert-IsMap, erase-IsMap, lookup-insert, lookup-erase,
}
use cw_plus.Base.Dict.Sum.{sum_by, sum_by-insert, sum_by-erase}
use cw_plus.Host.{Host, Binary, StdError, Env, MessageInfo}
use cw_plus.Cw20.{Balance}
use cw_plus.Cw4Group.State.{Controllers}
use cw_plus.Cw4Group.Sums.{weight_sum}
use cw_plus.Cw4Stake.State.{Claims, Config, State, InstantiateMsg, ExecuteMsg, ReceiveMsg, Message}
use cw_plus.Cw4Stake.Scale.{IsWeightOf, calc_weight-IsWeightOf, IsWeightOf-calc_weight}
use cw_plus.Cw4Stake.Membership.{update_membership_steps}
use cw_plus.Cw4Stake.Handlers.{
  calc_weight, payment, update_membership, execute_bond, execute_receive, execute_unbond,
  execute_claim, instantiate, set_member, execute,
}

-- The stake of an account.
abbrev pub stake_of : ℕ → State → ℕ
stake_of k st = unwrap_or (lookup k st.stake) 0

-- A total that is the sum of the weights, and a `u64`.
pub record IsTotalled (st : State) : Type 0 where
  pub is_map : IsMap st.members
  pub summed : st.total ≡ some (weight_sum st.members)
  pub is_u64 : weight_sum st.members ≤ u64_max

-- Every account has the weight of its stake.
pub record IsWeighed (cfg : Config) (st : State) : Type 0 where
  pub configured : st.config ≡ some cfg
  pub totalled : IsTotalled st
  pub weighed : (k : ℕ) → IsWeightOf cfg (stake_of k st) (lookup k st.members)

-- A new weight under an account moves the sum by the difference.
set_member-weight_sum :
    (a : ℕ) (new : Option ℕ) (m : Dict ℕ)
    → IsMap m
    → IsMap (set_member a new m)
      × (weight_sum (set_member a new m) + unwrap_or (lookup a m) 0
          ≡ weight_sum m + unwrap_or new 0)
      × ((k : ℕ) → lookup k (set_member a new m) ≡ (if k == a then new else lookup k m))
set_member-weight_sum a none m is = (
  erase-IsMap a m is,
  ground (arith, sum_by-erase (λ w. w) a m),
  λ k. ground (arith, lookup-erase k a m is),
)
set_member-weight_sum a (some w) m is = (
  insert-IsMap a w m is,
  ground (arith, sum_by-insert (λ w. w) a w m is),
  λ k. ground (arith, lookup-insert k a w m),
)

module _ (h : Host) (c : Controllers) (cl : Claims h) (cfg : Config) where
  update_membership-IsWeighed :
      (a : ℕ) (st st' : State) (out : List Message)
      → update_membership h c cl a (stake_of a st) cfg st ≡ ok (st', out)
      → st.config ≡ some cfg
      → IsTotalled st
      → ((k : ℕ) → k ≢ a → calc_weight (stake_of k st) cfg ≡ ok (lookup k st.members))
      → IsWeighed cfg st'
  update_membership-IsWeighed a st st' out e configured totalled others =
      let (new, weight, did) = update_membership_steps h c cl a (stake_of a st) cfg st st' out e in
      elim did [
        | inl (same, kept, nothing) ↦ rw kept (record {
          configured = configured;
          totalled = totalled;
          weighed = λ k. elim (Bool-cases (k == a)) [
            | inl this ↦
                calc_weight-IsWeightOf cfg (stake_of k st) (lookup k st.members)
                  (ground (arith, weight))
            | inr other ↦
                calc_weight-IsWeightOf cfg (stake_of k st) (lookup k st.members)
                  (ground (arith, others k))
          ];
        })
        | inr (t, known, le, le', e', told) ↦
            let (is, sum, after) = set_member-weight_sum a new st.members totalled.is_map in
            rw e' (record {
              configured = configured;
              totalled = record {
                is_map = is;
                summed = ground (arith, totalled.summed);
                is_u64 = ground (arith, totalled.summed);
              };
              weighed = λ k. elim (Bool-cases (k == a)) [
                | inl this ↦
                    calc_weight-IsWeightOf cfg (stake_of k st)
                      (lookup k (set_member a new st.members)) (ground (arith, after k, weight))
                | inr other ↦
                    calc_weight-IsWeightOf cfg (stake_of k st)
                      (lookup k (set_member a new st.members)) (ground (arith, after k, others k))
              ];
            })
      ]

  module _ (env : Env) (st st' : State) (out : List Message) (good : IsWeighed cfg st) where
    -- A step that stores a stake and then the weight of it.
    stake-IsWeighed :
        (a n : ℕ) (next : State)
        → update_membership h c cl a n cfg next ≡ ok (st', out)
        → next.stake ≡ insert a n st.stake
        → next.config ≡ st.config
        → next.members ≡ st.members
        → next.total ≡ st.total
        → IsWeighed cfg st'
    stake-IsWeighed a n next e stake config members total =
        update_membership-IsWeighed a next st' out (ground (arith, lookup-insert a a n st.stake))
          (ground (arith, good.configured))
          (record {
            is_map = rw members good.totalled.is_map;
            summed = rw (members, total) good.totalled.summed;
            is_u64 = rw members good.totalled.is_u64;
          })
          (λ k ne. ground (
            arith,
            lookup-insert k a n st.stake,
            IsWeightOf-calc_weight cfg (stake_of k st) (lookup k st.members) (good.weighed k),
          ))

    execute_bond-IsWeighed :
        (b : Balance) (sender : ℕ)
        → execute_bond h c cl env b sender st ≡ ok (st', out)
        → IsWeighed cfg st'
    unfolding execute_bond
    execute_bond-IsWeighed b sender e = elim (Result-cases (payment cfg.denom b)) [
      | inl (paid, accepted) ↦
          let n = stake_of sender st + paid in
          stake-IsWeighed sender n (record st { stake = insert sender n st.stake })
            (ground (arith, good.configured, h.add_128_lem (stake_of sender st) paid)) refl refl
            refl refl
      | inr refused ↦ absurd (ground (arith, good.configured))
    ]

    execute_unbond-IsWeighed :
        (info : MessageInfo) (amount : ℕ)
        → execute_unbond h c cl env info amount st ≡ ok (st', out)
        → IsWeighed cfg st'
    unfolding execute_unbond
    execute_unbond-IsWeighed info amount e =
        let old = stake_of info.sender st in
        elim (Option-cases (h.after cfg.unbonding_period env.block)) [
          | inl stopped ↦ absurd (ground (arith, good.configured, h.sub_128_lem old amount))
          | inr (at_end, over) ↦
              elim (Result-cases (cl.create_claim st.claims info.sender amount at_end)) [
                | inl (created, done) ↦
                    stake-IsWeighed info.sender (old - amount)
                      (record st {
                        stake = insert info.sender (old - amount) st.stake;
                        claims = created;
                      })
                      (ground (arith, good.configured, h.sub_128_lem old amount)) refl refl refl
                      refl
                | inr refused ↦ absurd (ground (arith, good.configured, h.sub_128_lem old amount))
              ]
        ]

    -- A step that touches neither stakes nor members.
    same-IsWeighed :
        st'.stake ≡ st.stake
        → st'.config ≡ st.config
        → st'.members ≡ st.members
        → st'.total ≡ st.total
        → IsWeighed cfg st'
    same-IsWeighed stake config members total = record {
      configured = rw config good.configured;
      totalled = record {
        is_map = rw members good.totalled.is_map;
        summed = rw (members, total) good.totalled.summed;
        is_u64 = rw members good.totalled.is_u64;
      };
      weighed = λ k. rw (stake, members) (good.weighed k);
    }

    -- A message that is handled keeps it so that every account has the weight of its stake, none
    -- below the minimal bond, and from there on how many times the tokens per weight go into the
    -- stake, less the multiples of 2^64 that a u64 loses; and that the total is the sum of the
    -- weights.
    pub execute-IsWeighed :
        (from_json : Binary → Result StdError ReceiveMsg) (info : MessageInfo) (msg : ExecuteMsg)
        → execute h c cl from_json env info msg st ≡ ok (st', out)
        → IsWeighed cfg st'
    unfolding execute execute_receive execute_claim
    execute-IsWeighed from_json info ExecuteMsg.bond e =
        execute_bond-IsWeighed (Balance.native info.funds) info.sender e
    execute-IsWeighed from_json info (ExecuteMsg.unbond amount) e =
        execute_unbond-IsWeighed info amount e
    execute-IsWeighed from_json info (ExecuteMsg.receive msg) e =
        elim (Result-cases (from_json msg.msg)) [
          | inl (m, parsed) ↦ elim (Result-cases (h.addr_validate msg.sender)) [
            | inl (sender, v) ↦
                execute_bond-IsWeighed
                  (Balance.cw20 (record { address = info.sender; amount = msg.amount })) sender
                  (ground arith)
            | inr refused ↦ absurd (ground arith)
          ]
          | inr refused ↦ absurd (ground arith)
        ]
    execute-IsWeighed from_json info ExecuteMsg.claim e =
        same-IsWeighed (ground arith) (ground arith) (ground arith) (ground arith)
    execute-IsWeighed from_json info (ExecuteMsg.update_admin admin) e =
        same-IsWeighed (ground arith) (ground arith) (ground arith) (ground arith)
    execute-IsWeighed from_json info (ExecuteMsg.add_hook addr) e =
        same-IsWeighed (ground arith) (ground arith) (ground arith) (ground arith)
    execute-IsWeighed from_json info (ExecuteMsg.remove_hook addr) e =
        same-IsWeighed (ground arith) (ground arith) (ground arith) (ground arith)

-- A group that is created has no members, no stakes and no claims, and a minimal bond that keeps
-- an account without a stake out.
pub instantiate-IsWeighed :
    (h : Host) (msg : InstantiateMsg) (st : State)
    → instantiate h msg ≡ ok st
    → (cfg : Config) × (0 < cfg.min_bond) × IsWeighed cfg st
unfolding instantiate calc_weight lookup sum_by
instantiate-IsWeighed h msg st e =
    let bond = if leb msg.min_bond 1 then 1 else msg.min_bond in
    let cfg : Config = record {
      denom = msg.denom;
      tokens_per_weight = msg.tokens_per_weight;
      min_bond = bond;
      unbonding_period = msg.unbonding_period;
    } in
    let all : (st.config ≡ some cfg) × (st.members ≡ []) × (st.stake ≡ []) × (st.total ≡ some 0) =
      ground arith in
    (
      cfg,
      ground arith,
      record {
        configured = all.0;
        totalled = record {
          is_map = rw (all.1) tt;
          summed = rw (all.1, all.3) refl;
          is_u64 = rw (all.1) (omega arith);
        };
        weighed = λ k. ground arith;
      },
    )
