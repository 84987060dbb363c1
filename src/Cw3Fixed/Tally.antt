-- ===== src/Cw3Fixed/Tally.antt =====
-- The invariant of contracts/cw3-fixed-multisig: the tally of each proposal counts its ballots,
-- and no proposal can get more votes than its total weight.
use cw_plus.Base.{
  ℕ, ◌+◌, ◌≤◌, ◌<◌, ◌≡◌, ◌==◌, Option, none, some, List, [], ok, arith, refl, inl, inr, u64_max,
  unwrap_or, if◌then◌else◌, Bool-cases,
}
use cw_plus.Base.Dict.{Dict, lookup, insert, IsMap, lookup-insert, insert-IsMap}
use cw_plus.Base.Dict.Sum.{sum_by, sum_by-insert_new}
use cw_plus.Base.Dict.Pairs.{insert_pair, prefix, prefix-insert_pair}
use cw_plus.Host.{CosmosMsg, Text, Expiration, Host, Env, MessageInfo, Threshold, IsReachable}
use cw_plus.Cw3.{Vote, Votes, Status, executed, rejected, Ballot, Proposal, add_vote, yes_votes}
use cw_plus.Cw3.Outcome.{IsSound, cast}
use cw_plus.Cw3Fixed.State.{Config, State, ExecuteMsg}
use cw_plus.Cw3Fixed.Handlers.{
  execute, execute_propose, execute_vote, execute_execute, execute_close,
}
use cw_plus.Cw3Fixed.Steps.{
  update_status_lem, voting_power_lem, vote_steps, proposed, propose_steps, execute_steps,
  close_steps,
}
use cw_plus.Cw3Fixed.Ballots.{
  IsTallied, AreCastBy, weight_of, cast-sum_by, ballots-le-voters, add_vote-IsTallied,
  yes_votes-IsTallied,
}

abbrev pub voters_weight : Dict ℕ → ℕ
voters_weight = sum_by (λ w. w)

-- A total weight that covers the voters and that the threshold was validated against.
pub record Fits (voters : Dict ℕ) (t : Threshold) (total : ℕ) : Type 0 where
  pub covered : voters_weight voters ≤ total
  pub is_u64 : total ≤ u64_max
  pub reachable : IsReachable t total

-- A proposal and its ballots.
pub record IsKept (voters : Dict ℕ) (p : Proposal) (bs : Dict Ballot) : Type 0 where
  pub ballots_map : IsMap bs
  pub tallied : IsTallied p.votes bs
  pub cast_by : AreCastBy voters bs
  pub fits : Fits voters p.threshold p.total_weight

pub record Inv (st : State) : Type 0 where
  pub voters_map : IsMap st.voters
  pub config_fits : (c : Config) → st.config ≡ some c → Fits st.voters c.threshold c.total_weight
  pub kept :
      (id : ℕ) (p : Proposal)
      → lookup id st.proposals ≡ some p
      → IsKept st.voters p (prefix id st.ballots)
  pub issued :
      (id : ℕ) (p : Proposal) → lookup id st.proposals ≡ some p → id ≤ unwrap_or st.proposal_count 0
  pub unused : (id : ℕ) → unwrap_or st.proposal_count 0 < id → prefix id st.ballots ≡ []

-- All votes on a kept proposal stay within its total weight.
pub kept-IsSound :
    (voters : Dict ℕ) (p : Proposal) (bs : Dict Ballot)
    → IsMap voters
    → IsKept voters p bs
    → IsSound p
kept-IsSound voters p bs m k = record {
  weight_fits = k.fits.is_u64;
  within = omega (
    arith,
    cast-sum_by p.votes bs k.tallied,
    ballots-le-voters bs voters k.ballots_map m k.cast_by,
    k.fits.covered,
  );
  reachable = k.fits.reachable;
}

pub insert-AreCastBy :
    (voters : Dict ℕ) (bs : Dict Ballot) (a w : ℕ) (x : Vote)
    → AreCastBy voters bs
    → lookup a voters ≡ some w
    → AreCastBy voters (insert a (record { weight = w; vote = x }) bs)
insert-AreCastBy voters bs a w x h member c b found =
    ground (arith, h c b, lookup-insert {V = Ballot} c a (record { weight = w; vote = x }) bs)

-- A voter's weight still fits beside the votes of the others.
pub vote-room :
    (voters : Dict ℕ) (p : Proposal) (bs : Dict Ballot) (a w : ℕ)
    → IsMap voters
    → IsKept voters p bs
    → lookup a voters ≡ some w
    → lookup a bs ≡ none
    → cast p.votes + w ≤ p.total_weight
vote-room voters p bs a w m k member new =
    let ballot : Ballot = record { weight = w; vote = Vote.yes } in
    omega (
      arith,
      cast-sum_by p.votes bs k.tallied,
      sum_by-insert_new weight_of a ballot bs k.ballots_map new,
      ballots-le-voters (insert a ballot bs) voters (insert-IsMap a ballot bs k.ballots_map) m
          (insert-AreCastBy voters bs a w Vote.yes k.cast_by member),
      k.fits.covered,
    )

-- A new ballot of a voter who has not voted.
pub voted-IsKept :
    (voters : Dict ℕ) (p : Proposal) (v : Votes) (s : Status) (bs : Dict Ballot) (a w : ℕ)
    (x : Vote)
    → IsKept voters p bs
    → lookup a voters ≡ some w
    → lookup a bs ≡ none
    → add_vote x w p.votes ≡ some v
    → IsKept voters
        (record p { votes = v; status = s })
        (insert a (record { weight = w; vote = x }) bs)
voted-IsKept voters p v s bs a w x k member new e = record {
  ballots_map = insert-IsMap a _ bs k.ballots_map;
  tallied = add_vote-IsTallied a w x p.votes v bs k.ballots_map new k.tallied e;
  cast_by = insert-AreCastBy voters bs a w x k.cast_by member;
  fits = record { covered = k.fits.covered; is_u64 = k.fits.is_u64; reachable = k.fits.reachable };
}

-- A new proposal with its proposer's ballot.
pub first-IsKept :
    (voters : Dict ℕ) (p : Proposal) (a w : ℕ)
    → Fits voters p.threshold p.total_weight
    → lookup a voters ≡ some w
    → p.votes ≡ yes_votes w
    → IsKept voters p (insert a (record { weight = w; vote = Vote.yes }) [])
unfolding lookup
first-IsKept voters p a w f member e = record {
  ballots_map = insert-IsMap a _ [] tt;
  tallied = rw e (yes_votes-IsTallied a w);
  cast_by = λ c b found.
      ground (arith, lookup-insert {V = Ballot} c a (record { weight = w; vote = Vote.yes }) []);
  fits = f;
}

-- Saving one proposal with its ballots keeps them all.
saved-IsKept :
    (st : State) (id : ℕ) (p : Proposal) (bs : Dict Ballot) (ballots : Dict (Dict Ballot))
    → Inv st
    → ((j : ℕ) → prefix j ballots ≡ (if j == id then bs else prefix j st.ballots))
    → IsKept st.voters p bs
    → (j : ℕ) (q : Proposal) → lookup j (insert id p st.proposals) ≡ some q
    → IsKept st.voters q (prefix j ballots)
saved-IsKept st id p bs ballots good at k j q found = elim (Bool-cases (j == id)) [
  | inl same ↦
      let e : prefix j ballots ≡ bs = ground (arith, at j) in
      let f : q ≡ p = ground (arith, lookup-insert j id p st.proposals) in rw (e, f) k
  | inr other ↦
      let e : prefix j ballots ≡ prefix j st.ballots = ground (arith, at j) in
      rw e (good.kept j q (ground (arith, lookup-insert j id p st.proposals)))
]

-- Saving a proposal under an issued number.
saved-issued :
    (st : State) (id : ℕ) (p : Proposal)
    → Inv st
    → id ≤ unwrap_or st.proposal_count 0
    → (j : ℕ) (q : Proposal) → lookup j (insert id p st.proposals) ≡ some q
    → j ≤ unwrap_or st.proposal_count 0
saved-issued st id p good le j q found =
    ground (arith, good.issued j q, lookup-insert j id p st.proposals)

-- Saving a proposal that is kept with the ballots as they are.
resaved-Inv :
    (st : State) (id : ℕ) (p : Proposal)
    → Inv st
    → id ≤ unwrap_or st.proposal_count 0
    → IsKept st.voters p (prefix id st.ballots)
    → Inv (record st { proposals = insert id p st.proposals })
resaved-Inv st id p good le k = record {
  voters_map = good.voters_map;
  config_fits = good.config_fits;
  kept = saved-IsKept st id p (prefix id st.ballots) st.ballots good (λ j. ground arith) k;
  issued = saved-issued st id p good le;
  unused = good.unused;
}

pub with_status-IsKept :
    (voters : Dict ℕ) (p : Proposal) (s : Status) (bs : Dict Ballot)
    → IsKept voters p bs
    → IsKept voters (record p { status = s }) bs
with_status-IsKept voters p s bs k = record {
  ballots_map = k.ballots_map;
  tallied = k.tallied;
  cast_by = k.cast_by;
  fits = k.fits;
}

module _ (h : Host) (env : Env) (info : MessageInfo) (st st' : State) (ms : List CosmosMsg)
    (good : Inv st) where
  execute_vote-Inv : (id : ℕ) (x : Vote) → execute_vote h env info id x st ≡ ok (st', ms) → Inv st'
  execute_vote-Inv id x e =
      let (w, p, v, p', power, found, can, live, new, added, updated, e') =
        vote_steps h env info st st' ms id x e in
      let (s, now, same) = update_status_lem h (record p { votes = v }) p' env.block updated in
      let ballot : Ballot = record { weight = w; vote = x } in
      let bs : Dict Ballot = prefix id st.ballots in
      let k : IsKept st.voters p' (insert info.sender ballot bs) = rw same (
        voted-IsKept st.voters p v s bs info.sender w x (good.kept id p found)
          (voting_power_lem (lookup info.sender st.voters) w power).0 new added) in
      rw e' (record {
        voters_map = good.voters_map;
        config_fits = good.config_fits;
        kept =
            saved-IsKept st id p' (insert info.sender ballot bs)
              (insert_pair id info.sender ballot st.ballots) good
              (λ j. prefix-insert_pair j id info.sender ballot st.ballots) k;
        issued = saved-issued st id p' good (good.issued id p found);
        unused = λ j above. ground (
          arith,
          good.issued id p found,
          good.unused j above,
          prefix-insert_pair j id info.sender ballot st.ballots,
        );
      })

  execute_execute-Inv : (id : ℕ) → execute_execute h env info id st ≡ ok (st', ms) → Inv st'
  execute_execute-Inv id e =
      let (p, found, p', updated, won, dispatched, e') = execute_steps h env info st st' ms id e in
      let (s, now, same) = update_status_lem h p p' env.block updated in
      rw (e', same)
        (resaved-Inv st id (record p { status = executed }) good (good.issued id p found)
          (with_status-IsKept st.voters p executed _ (good.kept id p found)))

  execute_close-Inv : (id : ℕ) → execute_close h env info id st ≡ ok (st', ms) → Inv st'
  execute_close-Inv id e =
      let (p, s, found, unsettled, now, lost, over, e') = close_steps h env info st st' ms id e in
      rw e' (
        resaved-Inv st id (record p { status = rejected }) good (good.issued id p found)
          (with_status-IsKept st.voters p rejected _ (good.kept id p found)))

  execute_propose-Inv :
      (title description : Text) (msgs : List CosmosMsg) (latest : Option Expiration)
      → execute_propose h env info title description msgs latest st ≡ ok (st', ms)
      → Inv st'
  execute_propose-Inv title description msgs latest e =
      let (w, c, exp, p', member, config, updated, room, e') =
        propose_steps h env info st st' ms title description msgs latest e in
      let p : Proposal = proposed h env info st st' ms title description msgs exp c w in
      let (s, now, same) = update_status_lem h p p' env.block updated in
      let id : ℕ = unwrap_or st.proposal_count 0 + 1 in
      let ballot : Ballot = record { weight = w; vote = Vote.yes } in
      let none_yet : prefix id st.ballots ≡ [] = good.unused id (omega arith) in
      let k : IsKept st.voters p' (insert info.sender ballot (prefix id st.ballots)) =
        rw (same, none_yet)
          (first-IsKept st.voters (record p { status = s }) info.sender w
            (good.config_fits c config) member refl) in
      rw e' (record {
        voters_map = good.voters_map;
        config_fits = good.config_fits;
        kept =
            saved-IsKept st id p' (insert info.sender ballot (prefix id st.ballots))
              (insert_pair id info.sender ballot st.ballots) good
              (λ j. prefix-insert_pair j id info.sender ballot st.ballots) k;
        issued = λ j q found. ground (arith, good.issued j q, lookup-insert j id p' st.proposals);
        unused = λ j above. ground (
          arith,
          good.unused j (omega arith),
          prefix-insert_pair j id info.sender ballot st.ballots,
        );
      })

  -- A message that is handled keeps the invariant: each tally counts the ballots of its proposal,
  -- each ballot weighs what its voter does, and the total weight covers all voters.
  pub execute-Inv : (msg : ExecuteMsg) → execute h env info msg st ≡ ok (st', ms) → Inv st'
  unfolding execute
  execute-Inv (ExecuteMsg.propose title description msgs latest) e =
      execute_propose-Inv title description msgs latest e
  execute-Inv (ExecuteMsg.vote id x) e = execute_vote-Inv id x e
  execute-Inv (ExecuteMsg.execute id) e = execute_execute-Inv id e
  execute-Inv (ExecuteMsg.close id) e = execute_close-Inv id e
