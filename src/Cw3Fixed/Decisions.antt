-- ===== src/Cw3Fixed/Decisions.antt =====
-- Who votes, and what is executed, in contracts/cw3-fixed-multisig.
use cw_plus.Base.{
  Bool-cases, inl, inr, true, false, ℕ, ◌+◌, ◌≤◌, ◌≡◌, ◌≢◌, ◌⊎◌, none, some, List, [], ok, err,
  arith, true, false,
}
use cw_plus.Base.Dict.{Dict, lookup, insert, lookup-insert}
use cw_plus.Base.Dict.Pairs.{lookup_pair, insert_pair, prefix, prefix-insert_pair}
use cw_plus.Host.{Host, Env, MessageInfo, CosmosMsg}
use cw_plus.Cw3.{
  Vote, Status, open_status, passed, executed, Ballot, Proposal, update_status, current_status,
}
use cw_plus.Cw3.Outcome.{IsSound, cast, status_now, current_status-status_now}
use cw_plus.Cw3.Certain.{Wins, passing-Wins}
use cw_plus.Cw3Fixed.State.{State, wrong_execute_status}
use cw_plus.Cw3Fixed.Handlers.{
  execute_vote, execute_execute, may_vote_on, is_passed_status, voting_power,
}
use cw_plus.Cw3Fixed.Steps.{vote_steps}
use cw_plus.Cw3Fixed.History.{
  AreIssued, Runs, Runs-HasVoted, Runs-IsExecuted, execute_execute-IsExecuted,
}
use cw_plus.Cw3Fixed.Ballots.{add_vote-some}
use cw_plus.Cw3Fixed.Tally.{Inv, IsKept, kept-IsSound, voted-IsKept, vote-room}

-- A voter's second vote on a proposal is refused, whatever it is and whatever messages are handled
-- in between.
pub vote_twice :
    (h : Host) (env env' : Env) (info info' : MessageInfo) (st st' st'' : State)
    (ms : List CosmosMsg) (id : ℕ) (x x' : Vote) (r : State × List CosmosMsg)
    → execute_vote h env info id x st ≡ ok (st', ms)
    → Runs h st' st''
    → info'.sender ≡ info.sender
    → execute_vote h env' info' id x' st'' ≢ ok r
unfolding lookup_pair
vote_twice h env env' info info' st st' st'' ms id x x' r e runs same e2 =
    let (w, p, v, p', power, found, can, live, new, added, updated, e') =
      vote_steps h env info st st' ms id x e in
    let (w2, p2, v2, p2', power2, found2, can2, live2, new2, added2, updated2, same2) =
      vote_steps h env' info' st'' r.0 r.1 id x' e2 in
    let ballot : Ballot = record { weight = w; vote = x } in
    let (b, cast_before) = Runs-HasVoted h id info.sender st' st'' runs (
      ballot,
      ground (
        arith,
        prefix-insert_pair id id info.sender ballot st.ballots,
        lookup-insert info.sender info.sender ballot (prefix id st.ballots),
      ),
    ) in
    ground arith

-- A voter with a positive weight who has not voted gets a vote in before the expiration of a
-- proposal that is open, passed or rejected: the handler returns, and the ballot is on record.
pub execute_vote_returns :
    (h : Host) (env : Env) (info : MessageInfo) (st : State) (id w : ℕ) (x : Vote) (p : Proposal)
    → Inv st
    → lookup info.sender st.voters ≡ some w
    → 1 ≤ w
    → lookup id st.proposals ≡ some p
    → may_vote_on p.status ≡ true
    → h.is_expired p.expires env.block ≡ false
    → lookup_pair id info.sender st.ballots ≡ none
    → (st' : State) × (execute_vote h env info id x st ≡ ok (st', []))
      × (lookup_pair id info.sender st'.ballots ≡ some (record { weight = w; vote = x }))
unfolding execute_vote voting_power update_status lookup_pair
execute_vote_returns h env info st id w x p good member one found can live new =
    let bs : Dict Ballot = prefix id st.ballots in
    let k : IsKept st.voters p bs = good.kept id p found in
    let room : cast p.votes + w ≤ p.total_weight =
      vote-room st.voters p bs info.sender w good.voters_map k member new in
    let (v, added) = add_vote-some x w p.votes (omega (arith, k.fits.is_u64)) in
    let q : Proposal = record p { votes = v } in
    let sound : IsSound q =
      kept-IsSound st.voters q _ good.voters_map
        (voted-IsKept st.voters p v p.status bs info.sender w x k member new added) in
    let s : Status = status_now h q env.block p.status in
    let ballot : Ballot = record { weight = w; vote = x } in
    (
      record st {
        ballots = insert_pair id info.sender ballot st.ballots;
        proposals = insert id (record q { status = s }) st.proposals;
      },
      ground (arith, current_status-status_now h q env.block sound),
      ground (
        arith,
        prefix-insert_pair id id info.sender ballot st.ballots,
        lookup-insert info.sender info.sender ballot bs,
      ),
    )

-- A proposal that may be executed at a block: it has passed, or it is open and its votes win.
abbrev pub IsApproved : Host → Env → Proposal → Type 0
IsApproved h env p =
    (p.status ≡ passed) ⊎ ((p.status ≡ open_status) × Wins h p.threshold p env.block)

-- Executing a proposal on record returns exactly its messages and marks it as executed, if it has
-- passed or it is open and its votes win at the block; if not, the call is refused.
pub execute_execute_lem :
    (h : Host) (env : Env) (info : MessageInfo) (st : State) (id : ℕ) (p : Proposal)
    → Inv st
    → lookup id st.proposals ≡ some p
    → (IsApproved h env p
        × (execute_execute h env info id st
            ≡ ok (
              record st { proposals = insert id (record p { status = executed }) st.proposals },
              p.msgs,
            )))
      ⊎ ((¬ IsApproved h env p) × (execute_execute h env info id st ≡ err wrong_execute_status))
unfolding execute_execute update_status is_passed_status
execute_execute_lem h env info st id p good found =
    let sound : IsSound p = kept-IsSound st.voters p _ good.voters_map (good.kept id p found) in
    elim (Bool-cases (is_passed_status (status_now h p env.block p.status))) [
      | inl won ↦ inl (
        ground (arith, passing-Wins h p.threshold p env.block),
        ground (arith, current_status-status_now h p env.block sound),
      )
      | inr lost ↦ inr (
        λ approved. ground (arith, passing-Wins h p.threshold p env.block),
        ground (arith, current_status-status_now h p env.block sound),
      )
    ]

-- No proposal is executed twice: after an execution every further one is refused, whatever messages
-- are handled in between, provided that all numbers of proposals on record have been given out.
pub execute_twice :
    (h : Host) (env env' : Env) (info info' : MessageInfo) (st st' st'' : State)
    (ms : List CosmosMsg) (id : ℕ)
    → AreIssued st
    → execute_execute h env info id st ≡ ok (st', ms)
    → Runs h st' st''
    → execute_execute h env' info' id st'' ≡ err wrong_execute_status
unfolding execute_execute update_status current_status is_passed_status
execute_twice h env env' info info' st st' st'' ms id issued e runs =
    let (done, issued') = execute_execute-IsExecuted h env info st st' ms id e issued in
    let (p, found, settled) = Runs-IsExecuted h id st' st'' runs issued' done in ground arith
