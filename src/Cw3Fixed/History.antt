-- ===== src/Cw3Fixed/History.antt =====
-- What stays of a proposal and of a ballot of contracts/cw3-fixed-multisig while messages are
-- handled.
use cw_plus.Base.{
  ℕ, ◌+◌, ◌≤◌, ◌≡◌, some, List, ok, arith, refl, unwrap_or, inl, inr, sym, Bool-cases, ◌==◌, ◌&&◌,
}
use cw_plus.Base.Dict.{lookup, insert, lookup-insert}
use cw_plus.Base.Dict.Pairs.{lookup_pair, insert_pair, lookup_pair-insert_pair}
use cw_plus.Host.{Host, Env, MessageInfo, CosmosMsg, Block}
use cw_plus.Cw3.{Vote, Status, executed, Ballot, Proposal, update_status, current_status}
use cw_plus.Cw3Fixed.State.{State, ExecuteMsg}
use cw_plus.Cw3Fixed.Handlers.{execute, may_vote_on, is_passed_status, is_settled, execute_execute}
use cw_plus.Cw3Fixed.Steps.{vote_steps, execute_steps, close_steps, propose_steps}

-- All numbers of proposals have been given out.
abbrev pub AreIssued : State → Type 0
AreIssued st =
    (id : ℕ) (p : Proposal) → lookup id st.proposals ≡ some p → id ≤ unwrap_or st.proposal_count 0

-- An account has a ballot on a proposal.
abbrev pub HasVoted : ℕ → ℕ → State → Type 0
HasVoted id a st = (b : Ballot) × (lookup_pair id a st.ballots ≡ some b)

-- A proposal is on record as executed.
abbrev pub IsExecuted : ℕ → State → Type 0
IsExecuted id st = (p : Proposal) × (lookup id st.proposals ≡ some p) × (p.status ≡ executed)

module _ (h : Host) where
  -- Messages that are handled one after the other.
  pub data Runs : State → State → Type 0 where
    stop : (st : State) → Runs st st
    step :
        (env : Env) (info : MessageInfo) (msg : ExecuteMsg) (st st' st'' : State)
        (ms : List CosmosMsg)
        → execute h env info msg st ≡ ok (st', ms)
        → Runs st' st''
        → Runs st st''

  -- Where a ballot is cast, one stays.
  insert_pair-HasVoted :
      (id a j c : ℕ) (b : Ballot) (st st' : State)
      → st'.ballots ≡ insert_pair j c b st.ballots
      → HasVoted id a st
      → HasVoted id a st'
  insert_pair-HasVoted id a j c b st st' e (old, found) =
      elim (Bool-cases ((id == j) && (a == c))) [
        | inl same ↦ (b, ground (arith, lookup_pair-insert_pair id a j c b st.ballots))
        | inr other ↦ (old, ground (arith, lookup_pair-insert_pair id a j c b st.ballots))
      ]

  executed_update :
      (p p' : Proposal) (b : Block)
      → p.status ≡ executed
      → update_status h p b ≡ some p'
      → p'.status ≡ executed
  unfolding update_status current_status
  executed_update p p' b e u = ground arith

  -- A proposal that is not executed is saved.
  insert-IsExecuted :
      (id j : ℕ) (p p' : Proposal) (st st' : State)
      → lookup j st.proposals ≡ some p
      → (p.status ≡ executed → ⊥)
      → st'.proposals ≡ insert j p' st.proposals
      → IsExecuted id st
      → IsExecuted id st'
  insert-IsExecuted id j p p' st st' found live e (q, at, done) = elim (Bool-cases (id == j)) [
    | inl same ↦ let this : q ≡ p = ground arith in absurd (live (rw (sym this) done))
    | inr other ↦ (q, ground (arith, lookup-insert id j p' st.proposals), done)
  ]

  module _ (env : Env) (info : MessageInfo) (st st' : State) (ms : List CosmosMsg) where
    execute-HasVoted :
        (msg : ExecuteMsg) (id a : ℕ)
        → execute h env info msg st ≡ ok (st', ms)
        → HasVoted id a st
        → HasVoted id a st'
    unfolding execute
    execute-HasVoted (ExecuteMsg.propose title description msgs latest) id a e (b, found) =
        let (w, c, exp, p', member, config, updated, room, e') =
          propose_steps h env info st st' ms title description msgs latest e in
        insert_pair-HasVoted id a (unwrap_or st.proposal_count 0 + 1) info.sender
          (record { weight = w; vote = Vote.yes }) st st' (rw e' refl) (b, found)
    execute-HasVoted (ExecuteMsg.vote j x) id a e (b, found) =
        let (w, p, v, p', power, known, can, live, new, added, updated, e') =
          vote_steps h env info st st' ms j x e in
        insert_pair-HasVoted id a j info.sender (record { weight = w; vote = x }) st st'
          (rw e' refl) (b, found)
    execute-HasVoted (ExecuteMsg.execute j) id a e (b, found) =
        let (p, known, p', updated, won, dispatched, e') = execute_steps h env info st st' ms j e in
        (b, rw e' found)
    execute-HasVoted (ExecuteMsg.close j) id a e (b, found) =
        let (p, s, known, unsettled, now, lost, over, e') = close_steps h env info st st' ms j e in
        (b, rw e' found)

    execute-AreIssued :
        (msg : ExecuteMsg) → execute h env info msg st ≡ ok (st', ms) → AreIssued st → AreIssued st'
    unfolding execute
    execute-AreIssued (ExecuteMsg.propose title description msgs latest) e issued =
        let (w, c, exp, p', member, config, updated, room, e') =
          propose_steps h env info st st' ms title description msgs latest e in
        let id = unwrap_or st.proposal_count 0 + 1 in
        rw e' (λ j q at. ground (arith, issued j q, lookup-insert j id p' st.proposals))
    execute-AreIssued (ExecuteMsg.vote id x) e issued =
        let (w, p, v, p', power, known, can, live, new, added, updated, e') =
          vote_steps h env info st st' ms id x e in
        rw e'
          (λ j q at. ground (arith, issued j q, issued id p, lookup-insert j id p' st.proposals))
    execute-AreIssued (ExecuteMsg.execute id) e issued =
        let (p, known, p', updated, won, dispatched, e') =
          execute_steps h env info st st' ms id e in
        rw e' (λ j q at. ground (
          arith,
          issued j q,
          issued id p,
          lookup-insert j id (record p' { status = executed }) st.proposals,
        ))
    execute-AreIssued (ExecuteMsg.close id) e issued =
        let (p, s, known, unsettled, now, lost, over, e') = close_steps h env info st st' ms id e in
        rw e' (λ j q at. ground (
          arith,
          issued j q,
          issued id p,
          lookup-insert j id (record p { status = Status.rejected }) st.proposals,
        ))

    execute-IsExecuted :
        (msg : ExecuteMsg) (id : ℕ)
        → execute h env info msg st ≡ ok (st', ms)
        → AreIssued st
        → IsExecuted id st
        → IsExecuted id st'
    unfolding execute may_vote_on is_settled is_passed_status
    execute-IsExecuted (ExecuteMsg.propose title description msgs latest) id e issued (q, at, ex) =
        let (w, c, exp, p', member, config, updated, room, e') =
          propose_steps h env info st st' ms title description msgs latest e in
        rw e' (
          q,
          ground (
            arith,
            issued id q,
            lookup-insert id (unwrap_or st.proposal_count 0 + 1) p' st.proposals,
          ),
          ex,
        )
    execute-IsExecuted (ExecuteMsg.vote j x) id e issued before =
        let (w, p, v, p', power, known, can, live, new, added, updated, e') =
          vote_steps h env info st st' ms j x e in
        insert-IsExecuted id j p p' st st' known (λ ex. ground arith) (rw e' refl) before
    execute-IsExecuted (ExecuteMsg.execute j) id e issued before =
        let (p, known, p', updated, won, dispatched, e') = execute_steps h env info st st' ms j e in
        insert-IsExecuted id j p (record p' { status = executed }) st st' known
          (λ ex. ground (arith, executed_update p p' env.block ex updated)) (rw e' refl) before
    execute-IsExecuted (ExecuteMsg.close j) id e issued before =
        let (p, s, known, unsettled, now, lost, over, e') = close_steps h env info st st' ms j e in
        insert-IsExecuted id j p (record p { status = Status.rejected }) st st' known
          (λ ex. ground arith) (rw e' refl) before

  pub Runs-HasVoted :
      (id a : ℕ) (st st' : State) → Runs st st' → HasVoted id a st → HasVoted id a st'
  Runs-HasVoted id a st st' (stop _) v = v
  Runs-HasVoted id a st st' (step env info msg _ next _ ms e rest) v =
      Runs-HasVoted id a next st' rest (execute-HasVoted env info st next ms msg id a e v)

  pub Runs-IsExecuted :
      (id : ℕ) (st st' : State) → Runs st st' → AreIssued st → IsExecuted id st → IsExecuted id st'
  Runs-IsExecuted id st st' (stop _) issued done = done
  Runs-IsExecuted id st st' (step env info msg _ next _ ms e rest) issued done =
      Runs-IsExecuted id next st' rest (execute-AreIssued env info st next ms msg e issued)
        (execute-IsExecuted env info st next ms msg id e issued done)

  -- An execution leaves the proposal on record as executed.
  pub execute_execute-IsExecuted :
      (env : Env) (info : MessageInfo) (st st' : State) (ms : List CosmosMsg) (id : ℕ)
      → execute_execute h env info id st ≡ ok (st', ms)
      → AreIssued st
      → IsExecuted id st' × AreIssued st'
  execute_execute-IsExecuted env info st st' ms id e issued =
      let (p, known, p', updated, won, dispatched, e') = execute_steps h env info st st' ms id e in
      let saved : Proposal = record p' { status = executed } in
      (
        (saved, ground (arith, lookup-insert id id saved st.proposals), refl),
        λ j q at. ground (arith, issued j q, issued id p, lookup-insert j id saved st.proposals),
      )
