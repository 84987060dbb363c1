-- ===== src/Cw3Fixed/Founding.antt =====
-- What `instantiate` of contracts/cw3-fixed-multisig sets up.
use cw_plus.Base.{
  ℕ, ◌+◌, ◌≤◌, ◌≡◌, none, some, List, [], ◌∷◌, ok, arith, refl, inl, inr, u64_max, Result-cases,
  Option-cases,
}
use cw_plus.Base.Dict.{Dict, lookup, insert, IsMap, insert-IsMap}
use cw_plus.Base.Dict.Sum.{sum_by, sum_by-insert}
use cw_plus.Host.{Host}
use cw_plus.Cw3Fixed.State.{State, Voter, InstantiateMsg}
use cw_plus.Cw3Fixed.Handlers.{sum_weights, save_voters, instantiate}
use cw_plus.Cw3Fixed.Tally.{Inv, Fits, voters_weight}

-- Each listed voter's weight is counted, also where a later one replaces it.
save_voters-fit :
    (h : Host) (vs : List Voter) (m m' : Dict ℕ) (acc n : ℕ)
    → save_voters h vs m ≡ ok m'
    → sum_weights acc vs ≡ some n
    → IsMap m
    → voters_weight m ≤ acc
    → acc ≤ u64_max
    → IsMap m' × (voters_weight m' ≤ n) × (n ≤ u64_max)
unfolding save_voters sum_weights
save_voters-fit h [] m m' acc n e f im le top = ground arith
save_voters-fit h (v ∷ vs) m m' acc n e f im le top = elim (Result-cases (h.addr_validate v.addr)) [
  | inl (a, va) ↦ ground (
    arith,
    insert-IsMap a v.weight m im,
    sum_by-insert (λ w. w) a v.weight m im,
    save_voters-fit h vs (insert a v.weight m) m' (acc + v.weight) n,
  )
  | inr refused ↦ absurd (ground arith)
]

instantiate_steps :
    (h : Host) (msg : InstantiateMsg) (st : State)
    → instantiate h msg ≡ ok st
    → (total : ℕ) × (voters : Dict ℕ) × (sum_weights 0 msg.voters ≡ some total)
      × (h.validate msg.threshold total ≡ ok tt)
      × (save_voters h msg.voters [] ≡ ok voters)
      × (st ≡ record {
        version = some h.contract_version;
        config = some (record {
          threshold = msg.threshold;
          total_weight = total;
          max_voting_period = msg.max_voting_period;
        });
        proposal_count = none;
        ballots = [];
        proposals = [];
        voters = voters;
      })
unfolding instantiate
instantiate_steps h msg st e = elim (Option-cases (sum_weights 0 msg.voters)) [
  | inl stopped ↦ absurd (ground arith)
  | inr (total, summed) ↦ elim (Result-cases (save_voters h msg.voters [])) [
    | inl (voters, saved) ↦ (total, voters, summed, ground arith, saved, ground arith)
    | inr refused ↦ absurd (ground arith)
  ]
]

no_weight : voters_weight [] ≤ 0
unfolding sum_by
no_weight = omega arith

-- A multisig that is instantiated keeps the invariant, though the list of voters may name one
-- address more than once.
pub instantiate-Inv :
    (h : Host) (msg : InstantiateMsg) (st : State) → instantiate h msg ≡ ok st → Inv st
unfolding lookup
instantiate-Inv h msg st e =
    let (total, voters, summed, valid, saved, e') = instantiate_steps h msg st e in
    let (map, covered, top) =
      save_voters-fit h msg.voters [] voters 0 total saved summed tt no_weight (omega arith) in
    let fits : Fits voters msg.threshold total = record {
      covered = covered;
      is_u64 = top;
      reachable = h.validate_lem msg.threshold total valid;
    } in
    rw e' (record {
      voters_map = map;
      config_fits = λ c same. ground (arith, fits);
      kept = λ id p found. absurd (ground arith);
      issued = λ id p found. absurd (ground arith);
      unused = λ id above. refl;
    })
