-- ===== src/Cw3Flex/History.antt =====
-- What stays of a proposal of contracts/cw3-flex-multisig while messages are handled.
use cw_plus.Base.{
  ℕ, ◌+◌, ◌≤◌, ◌≡◌, ◌⊎◌, ◌==◌, some, List, ok, arith, refl, true, false, unwrap_or, Bool-cases, inl,
  inr, ◌∙◌,
}
use cw_plus.Base.Dict.{lookup, insert, lookup-insert}
use cw_plus.Host.{Host, Env, MessageInfo, Block}
use cw_plus.Cw3.{Votes, Status, rejected, executed, Proposal, update_status, current_status}
use cw_plus.Cw3.Deposits.{Payments, Message}
use cw_plus.Cw3Fixed.Handlers.{is_passed_status, is_settled}
use cw_plus.Cw3Fixed.Steps.{update_status_lem}
use cw_plus.Cw3Flex.State.{Querier, State, ExecuteMsg}
use cw_plus.Cw3Flex.Handlers.{execute, execute_membership_hook}
use cw_plus.Cw3Flex.Steps.{vote_steps, execute_steps, close_steps, propose_steps}

-- A status that no vote and no block changes any more.
abbrev pub IsFinal : Status → Type 0
IsFinal s = (s ≡ rejected) ⊎ (s ≡ executed)

pub current_status-IsFinal :
    (h : Host) (p : Proposal) (b : Block) → IsFinal p.status → current_status h p b ≡ some p.status
unfolding current_status
current_status-IsFinal h p b (inl e) = ground arith
current_status-IsFinal h p b (inr e) = ground arith

-- A later version of a proposal: its terms are the same, and its status if that was final.
pub record Continues (p p' : Proposal) : Type 0 where
  pub same_msgs : p'.msgs ≡ p.msgs
  pub same_proposer : p'.proposer ≡ p.proposer
  pub same_deposit : p'.deposit ≡ p.deposit
  pub same_expires : p'.expires ≡ p.expires
  pub same_weight : p'.total_weight ≡ p.total_weight
  pub same_threshold : p'.threshold ≡ p.threshold
  pub same_start : p'.start_height ≡ p.start_height
  pub same_final : IsFinal p.status → p'.status ≡ p.status

Continues-refl : (p : Proposal) → Continues p p
Continues-refl p = record {
  same_msgs = refl;
  same_proposer = refl;
  same_deposit = refl;
  same_expires = refl;
  same_weight = refl;
  same_threshold = refl;
  same_start = refl;
  same_final = λ f. refl;
}

Continues-trans : (p q r : Proposal) → Continues p q → Continues q r → Continues p r
Continues-trans p q r a b = record {
  same_msgs = b.same_msgs ∙ a.same_msgs;
  same_proposer = b.same_proposer ∙ a.same_proposer;
  same_deposit = b.same_deposit ∙ a.same_deposit;
  same_expires = b.same_expires ∙ a.same_expires;
  same_weight = b.same_weight ∙ a.same_weight;
  same_threshold = b.same_threshold ∙ a.same_threshold;
  same_start = b.same_start ∙ a.same_start;
  same_final = λ f. b.same_final (rw (a.same_final f) f) ∙ a.same_final f;
}

-- All numbers of proposals have been given out.
abbrev pub AreIssued : State → Type 0
AreIssued st =
    (id : ℕ) (p : Proposal) → lookup id st.proposals ≡ some p → id ≤ unwrap_or st.proposal_count 0

-- What a handled message does to the proposals.
pub record Carries (st st' : State) : Type 0 where
  pub issued : AreIssued st'
  pub continued :
      (id : ℕ) (p : Proposal)
      → lookup id st.proposals ≡ some p
      → (p' : Proposal) × (lookup id st'.proposals ≡ some p') × Continues p p'

settled : (s : Status) → IsFinal s → is_settled s ≡ false → ⊥
unfolding is_settled
settled s (inl f) e = ground arith
settled s (inr f) e = ground arith

module _ (h : Host) where
  -- A new status by `update_status` and new votes continue a proposal.
  updated-Continues :
      (p p' : Proposal) (v : Votes) (b : Block)
      → update_status h (record p { votes = v }) b ≡ some p'
      → Continues p p'
  updated-Continues p p' v b e =
      let (s, now, same) = update_status_lem h (record p { votes = v }) p' b e in
      record {
        same_msgs = rw same refl;
        same_proposer = rw same refl;
        same_deposit = rw same refl;
        same_expires = rw same refl;
        same_weight = rw same refl;
        same_threshold = rw same refl;
        same_start = rw same refl;
        same_final = λ f. ground (arith, current_status-IsFinal h (record p { votes = v }) b f);
      }

  not_passed :
      (p p' : Proposal) (b : Block)
      → IsFinal p.status
      → update_status h p b ≡ some p'
      → is_passed_status p'.status ≡ true
      → ⊥
  unfolding is_passed_status
  not_passed p p' b f e won =
      let (s, now, same) = update_status_lem h p p' b e in
      ground (arith, current_status-IsFinal h p b f)

  -- Saving one proposal that continues the one on record.
  saved-Carries :
      (st st' : State) (id : ℕ) (p p' : Proposal)
      → AreIssued st
      → lookup id st.proposals ≡ some p
      → Continues p p'
      → st'.proposals ≡ insert id p' st.proposals
      → st'.proposal_count ≡ st.proposal_count
      → Carries st st'
  saved-Carries st st' id p p' issued found c saved count = record {
    issued = λ j q at. ground (arith, issued j q, issued id p, lookup-insert j id p' st.proposals);
    continued = λ j q at. elim (Bool-cases (j == id)) [
      | inl same ↦
          let e : q ≡ p = ground arith in
          (p', ground (arith, lookup-insert j id p' st.proposals), rw e c)
      | inr other ↦ (q, ground (arith, lookup-insert j id p' st.proposals), Continues-refl q)
    ];
  }

  module _ (pay : Payments) (q : Querier) (env : Env) (info : MessageInfo) (st st' : State)
      (ms : List Message) (issued : AreIssued st) where
    pub execute-Carries :
        (msg : ExecuteMsg) → execute h pay q env info msg st ≡ ok (st', ms) → Carries st st'
    unfolding execute execute_membership_hook
    execute-Carries (ExecuteMsg.vote id x) e =
        let (c, w, p, v, p', config, member, found, can, live, new, added, updated, e') =
          vote_steps h pay q env info st st' ms id x e in
        saved-Carries st st' id p p' issued found (updated-Continues p p' v env.block updated)
          (rw e' refl) (rw e' refl)
    execute-Carries (ExecuteMsg.execute id) e =
        let (c, p, p', config, found, updated, won, allowed, sent, e') =
          execute_steps h pay q env info st st' ms id e in
        let k = updated-Continues p p' p.votes env.block updated in
        let (s, now, same) = update_status_lem h p p' env.block updated in
        saved-Carries st st' id p (record p' { status = executed }) issued found
          (record {
            same_msgs = k.same_msgs;
            same_proposer = k.same_proposer;
            same_deposit = k.same_deposit;
            same_expires = k.same_expires;
            same_weight = k.same_weight;
            same_threshold = k.same_threshold;
            same_start = k.same_start;
            same_final = λ f. absurd (not_passed p p' env.block f updated won);
          })
          (rw e' refl) (rw e' refl)
    execute-Carries (ExecuteMsg.close id) e =
        let (p, s, found, unsettled, now, lost, over, sent, e') =
          close_steps h pay q env info st st' ms id e in
        saved-Carries st st' id p (record p { status = rejected }) issued found
          (record {
            same_msgs = refl;
            same_proposer = refl;
            same_deposit = refl;
            same_expires = refl;
            same_weight = refl;
            same_threshold = refl;
            same_start = refl;
            same_final = λ f. absurd (settled p.status f unsettled);
          })
          (rw e' refl) (rw e' refl)
    execute-Carries (ExecuteMsg.member_changed_hook diffs) e =
        let same : st' ≡ st = ground arith in
        rw same (record { issued = issued; continued = λ id p found. (p, found, Continues-refl p) })
    execute-Carries (ExecuteMsg.propose title description msgs latest) e =
        let (c, w, total, exp, p', config, paid, member, weighed, updated, room, sent, e') =
          propose_steps h pay q env info st st' ms title description msgs latest e in
        let id = unwrap_or st.proposal_count 0 + 1 in
        rw e' (record {
          issued = λ j p at. ground (arith, issued j p, lookup-insert j id p' st.proposals);
          continued = λ j p at.
              (p, ground (arith, issued j p, lookup-insert j id p' st.proposals), Continues-refl p);
        })

  -- Messages that are handled one after the other, each with the answers of its time.
  pub data Runs (pay : Payments) : State → State → Type 0 where
    stop : (st : State) → Runs pay st st
    step :
        (q : Querier) (env : Env) (info : MessageInfo) (msg : ExecuteMsg) (st st' st'' : State)
        (ms : List Message)
        → execute h pay q env info msg st ≡ ok (st', ms)
        → Runs pay st' st''
        → Runs pay st st''

  pub Runs-Carries :
      (pay : Payments) (st st' : State) → Runs pay st st' → AreIssued st → Carries st st'
  Runs-Carries pay st st' (stop same) issued = record {
    issued = issued;
    continued = λ id p found. (p, found, Continues-refl p);
  }
  Runs-Carries pay st st' (step q env info msg first next last ms e rest) issued =
      let one : Carries first next = execute-Carries pay q env info first next ms issued msg e in
      let more : Carries next last = Runs-Carries pay next last rest one.issued in
      record {
        issued = more.issued;
        continued = λ id p found.
            let (p', found', c) = one.continued id p found in
            let (p'', found'', c') = more.continued id p' found' in
            (p'', found'', Continues-trans p p' p'' c c');
      }
