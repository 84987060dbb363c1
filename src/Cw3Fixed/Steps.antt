-- ===== src/Cw3Fixed/Steps.antt =====
-- The steps of a handler of contracts/cw3-fixed-multisig that returned, one lemma for each handler.
use cw_plus.Base.{
  ℕ, ◌+◌, ◌≤◌, ◌≡◌, Option, none, some, List, ok, arith, true, false, unwrap_or, u64_max,
  Option-cases, Result-cases, inl, inr,
}
use cw_plus.Base.Dict.{lookup, insert}
use cw_plus.Base.Dict.Pairs.{lookup_pair, insert_pair, prefix}
use cw_plus.Host.{Host, Block, Env, MessageInfo, Text, Expiration, CosmosMsg}
use cw_plus.Cw3.{
  Vote, Votes, Status, open_status, passed, executed, rejected, Proposal, add_vote, yes_votes,
  update_status, current_status,
}
use cw_plus.Cw3Fixed.State.{Config, State}
use cw_plus.Cw3Fixed.Handlers.{
  execute_propose, execute_vote, execute_execute, execute_close, may_vote_on, is_passed_status,
  is_settled, voting_power, bounded_expiration,
}

-- `update_status` sets the status and nothing else.
pub update_status_lem :
    (h : Host) (p p' : Proposal) (b : Block)
    → update_status h p b ≡ some p'
    → (s : Status) × (current_status h p b ≡ some s) × (p' ≡ record p { status = s })
unfolding update_status
update_status_lem h p p' b e = ground arith

pub is_passed_status_lem : (s : Status) → is_passed_status s ≡ true → s ≡ passed
unfolding is_passed_status
is_passed_status_lem s e = ground arith

pub voting_power_lem : (o : Option ℕ) (w : ℕ) → voting_power o ≡ ok w → (o ≡ some w) × (1 ≤ w)
unfolding voting_power
voting_power_lem o w e = ground arith

module _ (h : Host) (env : Env) (info : MessageInfo) (st st' : State) (ms : List CosmosMsg) where
  pub vote_steps :
      (id : ℕ) (x : Vote)
      → execute_vote h env info id x st ≡ ok (st', ms)
      → (w : ℕ) × (p : Proposal) × (v : Votes) × (p' : Proposal) × (voting_power
            (lookup info.sender st.voters)
          ≡ ok w)
        × (lookup id st.proposals ≡ some p)
        × (may_vote_on p.status ≡ true)
        × (h.is_expired p.expires env.block ≡ false)
        × (lookup info.sender (prefix id st.ballots) ≡ none)
        × (add_vote x w p.votes ≡ some v)
        × (update_status h (record p { votes = v }) env.block ≡ some p')
        × (st' ≡ record st {
          ballots = insert_pair id info.sender (record { weight = w; vote = x }) st.ballots;
          proposals = insert id p' st.proposals;
        })
  unfolding execute_vote lookup_pair
  vote_steps id x e = elim (Option-cases (lookup id st.proposals)) [
    | inl missing ↦ absurd (ground arith)
    | inr (p, found) ↦ elim (Result-cases (voting_power (lookup info.sender st.voters))) [
      | inl (w, power) ↦ elim (Option-cases (add_vote x w p.votes)) [
        | inl stopped ↦ absurd (ground arith)
        | inr (v, added) ↦
            elim (Option-cases (update_status h (record p { votes = v }) env.block)) [
              | inl stopped ↦ absurd (ground arith)
              | inr (p', updated) ↦ (
                w,
                p,
                v,
                p',
                power,
                found,
                ground arith,
                ground arith,
                ground arith,
                added,
                updated,
                ground arith,
              )
            ]
      ]
      | inr refused ↦ absurd (ground arith)
    ]
  ]

  pub execute_steps :
      (id : ℕ)
      → execute_execute h env info id st ≡ ok (st', ms)
      → (p : Proposal) × (lookup id st.proposals ≡ some p)
        × (p' : Proposal) × (update_status h p env.block ≡ some p')
        × (is_passed_status p'.status ≡ true)
        × (ms ≡ p'.msgs)
        × (st' ≡ record st { proposals = insert id (record p' { status = executed }) st.proposals })
  unfolding execute_execute
  execute_steps id e = elim (Option-cases (lookup id st.proposals)) [
    | inl missing ↦ absurd (ground arith)
    | inr (p, found) ↦ elim (Option-cases (update_status h p env.block)) [
      | inl stopped ↦ absurd (ground arith)
      | inr (p', updated) ↦ (p, found, p', updated, ground arith, ground arith, ground arith)
    ]
  ]

  pub close_steps :
      (id : ℕ)
      → execute_close h env info id st ≡ ok (st', ms)
      → (p : Proposal) × (s : Status) × (lookup id st.proposals ≡ some p)
        × (is_settled p.status ≡ false)
        × (current_status h p env.block ≡ some s)
        × (is_passed_status s ≡ false)
        × (h.is_expired p.expires env.block ≡ true)
        × (st' ≡ record st { proposals = insert id (record p { status = rejected }) st.proposals })
  unfolding execute_close
  close_steps id e = elim (Option-cases (lookup id st.proposals)) [
    | inl missing ↦ absurd (ground arith)
    | inr (p, found) ↦ elim (Option-cases (current_status h p env.block)) [
      | inl stopped ↦ absurd (ground arith)
      | inr (s, current) ↦
          (p, s, found, ground arith, current, ground arith, ground arith, ground arith)
    ]
  ]

  -- The proposal that a call makes, before its status is updated.
  abbrev pub proposed :
      (title description : Text) (msgs : List CosmosMsg) (expires : Expiration) (c : Config) (w : ℕ)
      → Proposal
  proposed title description msgs expires c w = record {
    title = title;
    description = description;
    start_height = env.block.height;
    expires = expires;
    msgs = msgs;
    status = open_status;
    threshold = c.threshold;
    total_weight = c.total_weight;
    votes = yes_votes w;
    proposer = info.sender;
    deposit = none;
  }

  pub propose_steps :
      (title description : Text) (msgs : List CosmosMsg) (latest : Option Expiration)
      → execute_propose h env info title description msgs latest st ≡ ok (st', ms)
      → (w : ℕ) × (c : Config) × (exp : Expiration) × (p' : Proposal) × (lookup info.sender
            st.voters
          ≡ some w)
        × (st.config ≡ some c)
        × (update_status h (proposed title description msgs exp c w) env.block ≡ some p')
        × (unwrap_or st.proposal_count 0 + 1 ≤ u64_max)
        × (st' ≡ record st {
          proposal_count = some (unwrap_or st.proposal_count 0 + 1);
          proposals = insert (unwrap_or st.proposal_count 0 + 1) p' st.proposals;
          ballots =
              insert_pair
                (unwrap_or st.proposal_count 0 + 1)
                info.sender
                (record { weight = w; vote = Vote.yes })
                st.ballots;
        })
  unfolding execute_propose
  propose_steps title description msgs latest e =
      elim (Option-cases (lookup info.sender st.voters)) [
        | inl missing ↦ absurd (ground arith)
        | inr (w, member) ↦ elim (Option-cases st.config) [
          | inl missing ↦ absurd (ground arith)
          | inr (c, config) ↦ elim (Option-cases (h.after c.max_voting_period env.block)) [
            | inl stopped ↦ absurd (ground arith)
            | inr (top, latest_end) ↦
                elim (Result-cases (bounded_expiration h (unwrap_or latest top) top)) [
                  | inl (exp, bounded) ↦
                      elim (Option-cases
                        (update_status h (proposed title description msgs exp c w) env.block)) [
                          | inl stopped ↦ absurd (ground arith)
                          | inr (p', updated) ↦
                              (w, c, exp, p', member, config, updated, ground arith, ground arith)
                        ]
                  | inr refused ↦ absurd (ground arith)
                ]
          ]
        ]
      ]
