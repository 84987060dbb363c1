-- ===== src/Cw3Flex/Snapshots.antt =====
-- The votes on a proposal of contracts/cw3-flex-multisig against the group at its start.
use cw_plus.Base.{
  ℕ, ◌+◌, ◌≤◌, ◌≡◌, ◌≢◌, ◌==◌, Option, some, List, [], ok, arith, refl, unwrap_or, u64_max,
  Bool-cases, Option-cases, inl, inr, ◌∙◌, sym,
}
use cw_plus.Base.Dict.{Dict, lookup, insert, IsMap, lookup-insert}
use cw_plus.Base.Dict.Pairs.{prefix, prefix-insert_pair}
use cw_plus.Host.{Host, Env, MessageInfo, Text, Expiration, CosmosMsg, Block, Addr, IsReachable}
use cw_plus.Cw3.{Vote, Status, executed, rejected, Ballot, Proposal, current_status}
use cw_plus.Cw3.Deposits.{Payments, Message}
use cw_plus.Cw3.Outcome.{IsSound, cast, status_now, current_status-status_now}
use cw_plus.Cw3Fixed.Ballots.{cast-sum_by, ballots-le-voters}
use cw_plus.Cw3Fixed.Steps.{update_status_lem}
use cw_plus.Cw3Fixed.Tally.{
  voters_weight, Fits, IsKept, kept-IsSound, voted-IsKept, first-IsKept, with_status-IsKept,
}
use cw_plus.Cw3Flex.State.{Querier, State, Config, ExecuteMsg, is_voting_member, is_member}
use cw_plus.Cw3Flex.Handlers.{execute, execute_propose, execute_membership_hook}
use cw_plus.Cw3Flex.Steps.{vote_steps, execute_steps, close_steps, propose_steps, proposed}
use cw_plus.Cw3Flex.History.{AreIssued, execute-Carries}

-- The group answers for a height from one map of weights.
abbrev pub Answers : Querier → Addr → ℕ → Dict ℕ → Type 0
Answers q group height m = (a : ℕ) → q.member_at_height group a (some height) ≡ ok (lookup a m)

is_voting_member_lem :
    (q : Querier) (group a height w : ℕ) (m : Dict ℕ)
    → Answers q group height m
    → is_voting_member q group a (some height) ≡ ok (some w)
    → lookup a m ≡ some w
unfolding is_voting_member
is_voting_member_lem q group a height w m answers e = elim (Option-cases (lookup a m)) [
  | inl missing ↦ absurd (ground (arith, answers a))
  | inr (n, found) ↦ ground (arith, answers a)
]

-- A proposal on record whose ballots are kept by the weights at its start.
pub record Keeps (m : Dict ℕ) (group height id : ℕ) (st : State) : Type 0 where
  pub issued : AreIssued st
  pub same_group : (c : Config) → st.config ≡ some c → c.group_addr ≡ group
  pub proposal : Proposal
  pub found : lookup id st.proposals ≡ some proposal
  pub starts : proposal.start_height ≡ height
  pub kept : IsKept m proposal (prefix id st.ballots)

module _ (h : Host) (pay : Payments) (m : Dict ℕ) (group height id : ℕ) where
  module _ (q : Querier) (env : Env) (info : MessageInfo) (st st' : State) (ms : List Message)
      (answers : Answers q group height m) (k : Keeps m group height id st) where
    -- A saved proposal with ballots that are kept.
    saved-Keeps :
        (j : ℕ) (p p' : Proposal)
        → AreIssued st'
        → st'.config ≡ st.config
        → lookup j st.proposals ≡ some p
        → st'.proposals ≡ insert j p' st.proposals
        → p'.start_height ≡ p.start_height
        → (j ≡ id → IsKept m p' (prefix id st'.ballots))
        → (j ≢ id → prefix id st'.ballots ≡ prefix id st.ballots)
        → Keeps m group height id st'
    saved-Keeps j p p' issued config at saved start here there = elim (Bool-cases (id == j)) [
      | inl same ↦ record {
        issued = issued;
        same_group = λ c e. k.same_group c (sym config ∙ e);
        proposal = p';
        found = ground (arith, lookup-insert id j p' st.proposals);
        starts = ground (arith, k.found, k.starts);
        kept = here (ground arith);
      }
      | inr other ↦ record {
        issued = issued;
        same_group = λ c e. k.same_group c (sym config ∙ e);
        proposal = k.proposal;
        found = ground (arith, k.found, lookup-insert id j p' st.proposals);
        starts = k.starts;
        kept = rw (there (ground arith)) k.kept;
      }
    ]

    execute-Keeps :
        (msg : ExecuteMsg)
        → execute h pay q env info msg st ≡ ok (st', ms)
        → Keeps m group height id st'
    unfolding execute execute_membership_hook
    execute-Keeps (ExecuteMsg.vote j x) e =
        let (c, w, p, v, p', config, voter, found, can, live, new, added, updated, e') =
          vote_steps h pay q env info st st' ms j x e in
        let (s, now, same) = update_status_lem h (record p { votes = v }) p' env.block updated in
        let ballot : Ballot = record { weight = w; vote = x } in
        let bs : Dict Ballot = prefix id st.ballots in
        saved-Keeps j p p'
          (execute-Carries h pay q env info st st' ms k.issued (ExecuteMsg.vote j x) e).issued
          (rw e' refl) found (rw e' refl) (rw same refl)
          (λ this.
            let p_is : p ≡ k.proposal = ground (arith, k.found) in
            let member : lookup info.sender m ≡ some w =
              is_voting_member_lem q group info.sender height w m answers
                (ground (arith, k.same_group c config, k.starts)) in
            let all : prefix id st'.ballots ≡ insert info.sender ballot bs =
              ground (arith, prefix-insert_pair id j info.sender ballot st.ballots) in
            rw (all, same)
              (voted-IsKept m p v s bs info.sender w x (rw p_is k.kept) member (ground arith)
                added))
          (λ other. ground (arith, prefix-insert_pair id j info.sender ballot st.ballots))
    execute-Keeps (ExecuteMsg.execute j) e =
        let (c, p, p', config, found, updated, won, allowed, sent, e') =
          execute_steps h pay q env info st st' ms j e in
        let (s, now, same) = update_status_lem h p p' env.block updated in
        saved-Keeps j p (record p { status = executed })
          (execute-Carries h pay q env info st st' ms k.issued (ExecuteMsg.execute j) e).issued
          (rw e' refl) found (rw (e', same) refl) refl
          (λ this.
            let p_is : p ≡ k.proposal = ground (arith, k.found) in
            let kp : IsKept m p (prefix id st.ballots) = rw p_is k.kept in
            rw e' (with_status-IsKept m p executed (prefix id st.ballots) kp))
          (λ other. rw e' refl)
    execute-Keeps (ExecuteMsg.close j) e =
        let (p, s, found, unsettled, now, lost, over, sent, e') =
          close_steps h pay q env info st st' ms j e in
        saved-Keeps j p (record p { status = rejected })
          (execute-Carries h pay q env info st st' ms k.issued (ExecuteMsg.close j) e).issued
          (rw e' refl) found (rw e' refl) refl
          (λ this.
            let p_is : p ≡ k.proposal = ground (arith, k.found) in
            let kp : IsKept m p (prefix id st.ballots) = rw p_is k.kept in
            rw e' (with_status-IsKept m p rejected (prefix id st.ballots) kp))
          (λ other. rw e' refl)
    execute-Keeps (ExecuteMsg.member_changed_hook diffs) e =
        let same : st' ≡ st = ground arith in rw same k
    execute-Keeps (ExecuteMsg.propose title description msgs latest) e =
        let (c, w, total, exp, p', config, paid, joined, weighed, updated, room, sent, e') =
          propose_steps h pay q env info st st' ms title description msgs latest e in
        let new = unwrap_or st.proposal_count 0 + 1 in
        let ballot : Ballot = record { weight = w; vote = Vote.yes } in
        let old : id ≤ unwrap_or st.proposal_count 0 = k.issued id k.proposal k.found in
        let all : prefix id st'.ballots ≡ prefix id st.ballots =
          ground (arith, prefix-insert_pair id new info.sender ballot st.ballots) in
        record {
          issued =
              (execute-Carries h pay q env info st st' ms k.issued
                (ExecuteMsg.propose title description msgs latest) e).issued;
          same_group = λ c' at. k.same_group c' (ground arith);
          proposal = k.proposal;
          found = ground (arith, k.found, lookup-insert id new p' st.proposals);
          starts = k.starts;
          kept = rw all k.kept;
        }

  -- Messages that are handled one after the other, while the group answers for the height of the
  -- proposal as it did at its start.
  pub data Runs : State → State → Type 0 where
    stop : (st : State) → Runs st st
    step :
        (q : Querier) (env : Env) (info : MessageInfo) (msg : ExecuteMsg) (st st' st'' : State)
        (ms : List Message)
        → Answers q group height m
        → execute h pay q env info msg st ≡ ok (st', ms)
        → Runs st' st''
        → Runs st st''

  pub Runs-Keeps :
      (st st' : State) → Runs st st' → Keeps m group height id st → Keeps m group height id st'
  Runs-Keeps st st' (stop same) k = k
  Runs-Keeps st st' (step q env info msg first next last ms answers e rest) k =
      Runs-Keeps next last rest (execute-Keeps q env info first next ms answers k msg e)

-- A proposal that is made when the total weight of the group is the sum of its members' weights,
-- with a threshold that this weight can reach, never gets votes beyond that weight and always has a
-- status, at every block, as long as the group answers for the height of its start from those same
-- members; ballots under numbers that are not given out yet are excluded.
pub execute_propose-Runs :
    (h : Host) (pay : Payments) (q : Querier) (env : Env) (info : MessageInfo) (c : Config)
    (m : Dict ℕ) (st st' st'' : State) (out : List Message) (title description : Text)
    (msgs : List CosmosMsg) (latest : Option Expiration)
    → IsMap m
    → voters_weight m ≤ u64_max
    → IsReachable c.threshold (voters_weight m)
    → q.total_weight c.group_addr ≡ ok (voters_weight m)
    → ((a : ℕ) → q.current_weight c.group_addr a ≡ ok (lookup a m))
    → st.config ≡ some c
    → AreIssued st
    → prefix (unwrap_or st.proposal_count 0 + 1) st.ballots ≡ []
    → execute_propose h pay q env info title description msgs latest st ≡ ok (st', out)
    → Runs h pay m c.group_addr env.block.height (unwrap_or st.proposal_count 0 + 1) st' st''
    → (p : Proposal) × (lookup (unwrap_or st.proposal_count 0 + 1) st''.proposals ≡ some p)
      × (cast p.votes ≤ voters_weight m)
      × ((b : Block) → (s : Status) × (current_status h p b ≡ some s))
unfolding execute is_member
execute_propose-Runs h pay q env info c m st st' st'' out title description msgs latest is fits
      reachable weighs answers configured issued unused e runs =
    let id = unwrap_or st.proposal_count 0 + 1 in
    let (c', w, total, exp, p, config, paid, joined, weighed, updated, room, sent, e') =
      propose_steps h pay q env info st st' out title description msgs latest e in
    let made : Proposal = proposed env info c' w total title description msgs exp in
    let (s, now, same) = update_status_lem h made p env.block updated in
    let this : c' ≡ c = ground arith in
    let ballot : Ballot = record { weight = w; vote = Vote.yes } in
    let whole : total ≡ voters_weight m = ground arith in
    let f : Fits m c'.threshold total = record {
      covered = rw whole (omega arith);
      is_u64 = rw whole fits;
      reachable = rw (whole, this) reachable;
    } in
    let first : IsKept m p (insert info.sender ballot []) = rw same (
      first-IsKept m (record made { status = s }) info.sender w f
        (ground (arith, answers info.sender)) refl) in
    let all : prefix id st'.ballots ≡ insert info.sender ballot [] =
      ground (arith, prefix-insert_pair id id info.sender ballot st.ballots) in
    let start : Keeps m c.group_addr env.block.height id st' = record {
      issued =
          (execute-Carries h pay q env info st st' out issued
            (ExecuteMsg.propose title description msgs latest) e).issued;
      same_group = λ d known. ground arith;
      proposal = p;
      found = ground (arith, lookup-insert id id p st.proposals);
      starts = rw same refl;
      kept = rw all first;
    } in
    let end : Keeps m c.group_addr env.block.height id st'' =
      Runs-Keeps h pay m c.group_addr env.block.height id st' st'' runs start in
    let bs : Dict Ballot = prefix id st''.ballots in
    let sound : IsSound end.proposal = kept-IsSound m end.proposal bs is end.kept in
    (
      end.proposal,
      end.found,
      omega (
        arith,
        cast-sum_by end.proposal.votes bs end.kept.tallied,
        ballots-le-voters bs m end.kept.ballots_map is end.kept.cast_by,
      ),
      λ b. (
        status_now h end.proposal b end.proposal.status,
        current_status-status_now h end.proposal b sound,
      ),
    )
