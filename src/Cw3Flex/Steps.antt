-- ===== src/Cw3Flex/Steps.antt =====
-- The steps of a handler of contracts/cw3-flex-multisig that returned, one lemma for each handler.
use cw_plus.Base.{
  ℕ, ◌+◌, ◌≤◌, ◌≡◌, ◌++◌, map, Option, none, some, List, ok, arith, true, false, unwrap_or, u64_max,
  Option-cases, Result-cases, inl, inr,
}
use cw_plus.Base.Dict.{lookup, insert}
use cw_plus.Base.Dict.Pairs.{lookup_pair, insert_pair, prefix}
use cw_plus.Host.{Host, Env, MessageInfo, Text, Expiration, CosmosMsg}
use cw_plus.Cw3.{
  Vote, Votes, Status, open_status, rejected, executed, Proposal, add_vote, yes_votes,
  update_status, current_status,
}
use cw_plus.Cw3.Deposits.{Payments, Message, relayed}
use cw_plus.Cw3Fixed.Handlers.{may_vote_on, is_passed_status, is_settled}
use cw_plus.Cw3Flex.State.{Querier, Config, State, is_member, is_voting_member, authorize}
use cw_plus.Cw3Flex.Handlers.{
  execute_propose, execute_vote, execute_execute, execute_close, bounded_expiration, deposit_paid,
  take_deposit, return_deposit, refundable,
}

-- The proposal that a call makes, before its status is updated.
abbrev pub proposed :
    Env
    → MessageInfo
    → Config
    → ℕ
    → ℕ
    → (title description : Text) → List CosmosMsg
    → Expiration
    → Proposal
proposed env info c w total title description msgs expires = record {
  title = title;
  description = description;
  start_height = env.block.height;
  expires = expires;
  msgs = msgs;
  status = open_status;
  threshold = c.threshold;
  total_weight = total;
  votes = yes_votes w;
  proposer = info.sender;
  deposit = c.proposal_deposit;
}

module _ (h : Host) (pay : Payments) (q : Querier) (env : Env) (info : MessageInfo) (st st' : State)
    (ms : List Message) where
  pub vote_steps :
      (id : ℕ) (x : Vote)
      → execute_vote h pay q env info id x st ≡ ok (st', ms)
      → (c : Config) × (w : ℕ) × (p : Proposal) × (v : Votes) × (p' : Proposal) × (st.config
          ≡ some c)
        × (is_voting_member q c.group_addr info.sender (some p.start_height) ≡ ok (some w))
        × (lookup id st.proposals ≡ some p)
        × (may_vote_on p.status ≡ true)
        × (h.is_expired p.expires env.block ≡ false)
        × (lookup info.sender (prefix id st.ballots) ≡ none)
        × (add_vote x w p.votes ≡ some v)
        × (update_status h (record p { votes = v }) env.block ≡ some p')
        × (st' ≡ record st {
          ballots = insert_pair id info.sender (record { weight = w; vote = x }) st.ballots;
          proposals = insert id p' st.proposals;
        })
  unfolding execute_vote lookup_pair
  vote_steps id x e = elim (Option-cases st.config) [
    | inl missing ↦ absurd (ground arith)
    | inr (c, config) ↦ elim (Option-cases (lookup id st.proposals)) [
      | inl missing ↦ absurd (ground arith)
      | inr (p, found) ↦
          elim (Result-cases (is_voting_member q c.group_addr info.sender (some p.start_height))) [
            | inl (o, asked) ↦ elim (Option-cases o) [
              | inl stranger ↦ absurd (ground arith)
              | inr (w, member) ↦ elim (Option-cases (add_vote x w p.votes)) [
                | inl stopped ↦ absurd (ground arith)
                | inr (v, added) ↦
                    elim (Option-cases (update_status h (record p { votes = v }) env.block)) [
                      | inl stopped ↦ absurd (ground arith)
                      | inr (p', updated) ↦ (
                        c,
                        w,
                        p,
                        v,
                        p',
                        config,
                        ground arith,
                        found,
                        ground arith,
                        ground arith,
                        ground arith,
                        added,
                        updated,
                        ground arith,
                      )
                    ]
              ]
            ]
            | inr refused ↦ absurd (ground arith)
          ]
    ]
  ]

  pub execute_steps :
      (id : ℕ)
      → execute_execute h pay q env info id st ≡ ok (st', ms)
      → (c : Config) × (p : Proposal) × (p' : Proposal) × (st.config ≡ some c)
        × (lookup id st.proposals ≡ some p)
        × (update_status h p env.block ≡ some p')
        × (is_passed_status p'.status ≡ true)
        × (authorize q c info.sender ≡ ok tt)
        × (ms ≡ return_deposit p'.proposer p'.deposit ++ map relayed p'.msgs)
        × (st' ≡ record st { proposals = insert id (record p' { status = executed }) st.proposals })
  unfolding execute_execute
  execute_steps id e = elim (Option-cases (lookup id st.proposals)) [
    | inl missing ↦ absurd (ground arith)
    | inr (p, found) ↦ elim (Option-cases (update_status h p env.block)) [
      | inl stopped ↦ absurd (ground arith)
      | inr (p', updated) ↦ elim (Option-cases st.config) [
        | inl missing ↦ absurd (ground arith)
        | inr (c, config) ↦ elim (Result-cases (authorize q c info.sender)) [
          | inl (done, allowed) ↦ (
            c,
            p,
            p',
            config,
            found,
            updated,
            ground arith,
            ground arith,
            ground arith,
            ground arith,
          )
          | inr refused ↦ absurd (ground arith)
        ]
      ]
    ]
  ]

  pub close_steps :
      (id : ℕ)
      → execute_close h pay q env info id st ≡ ok (st', ms)
      → (p : Proposal) × (s : Status) × (lookup id st.proposals ≡ some p)
        × (is_settled p.status ≡ false)
        × (current_status h p env.block ≡ some s)
        × (is_passed_status s ≡ false)
        × (h.is_expired p.expires env.block ≡ true)
        × (ms ≡ return_deposit p.proposer (refundable p.deposit))
        × (st' ≡ record st { proposals = insert id (record p { status = rejected }) st.proposals })
  unfolding execute_close
  close_steps id e = elim (Option-cases (lookup id st.proposals)) [
    | inl missing ↦ absurd (ground arith)
    | inr (p, found) ↦ elim (Option-cases (current_status h p env.block)) [
      | inl stopped ↦ absurd (ground arith)
      | inr (s, current) ↦ (
        p,
        s,
        found,
        ground arith,
        current,
        ground arith,
        ground arith,
        ground arith,
        ground arith,
      )
    ]
  ]

  pub propose_steps :
      (title description : Text) (msgs : List CosmosMsg) (latest : Option Expiration)
      → execute_propose h pay q env info title description msgs latest st ≡ ok (st', ms)
      → (c : Config) × (w : ℕ) × (total : ℕ) × (exp : Expiration) × (p' : Proposal) × (st.config
          ≡ some c)
        × (deposit_paid pay info c.proposal_deposit ≡ ok tt)
        × (is_member q c.group_addr info.sender none ≡ ok (some w))
        × (q.total_weight c.group_addr ≡ ok total)
        × (update_status h (proposed env info c w total title description msgs exp) env.block
            ≡ some p')
        × (unwrap_or st.proposal_count 0 + 1 ≤ u64_max)
        × (ms ≡ take_deposit info.sender env.contract c.proposal_deposit)
        × (st' ≡ record st {
          proposal_count = some (unwrap_or st.proposal_count 0 + 1);
          proposals = insert (unwrap_or st.proposal_count 0 + 1) p' st.proposals;
          ballots =
              insert_pair
                (unwrap_or st.proposal_count 0 + 1)
                info.sender
                (record { weight = w; vote = Vote.yes })
                st.ballots;
        })
  unfolding execute_propose
  propose_steps title description msgs latest e = elim (Option-cases st.config) [
    | inl missing ↦ absurd (ground arith)
    | inr (c, config) ↦ elim (Result-cases (deposit_paid pay info c.proposal_deposit)) [
      | inl (done, paid) ↦ elim (Result-cases (is_member q c.group_addr info.sender none)) [
        | inl (o, asked) ↦ elim (Option-cases o) [
          | inl stranger ↦ absurd (ground arith)
          | inr (w, member) ↦ elim (Option-cases (h.after c.max_voting_period env.block)) [
            | inl stopped ↦ absurd (ground arith)
            | inr (top, latest_end) ↦
                elim (Result-cases (bounded_expiration h (unwrap_or latest top) top)) [
                  | inl (exp, bounded) ↦ elim (Result-cases (q.total_weight c.group_addr)) [
                    | inl (total, weighed) ↦
                        elim (Option-cases (
                          update_status h (proposed env info c w total title description msgs exp)
                            env.block)) [
                              | inl stopped ↦ absurd (ground arith)
                              | inr (p', updated) ↦ (
                                c,
                                w,
                                total,
                                exp,
                                p',
                                config,
                                ground arith,
                                ground arith,
                                weighed,
                                updated,
                                ground arith,
                                ground arith,
                                ground arith,
                              )
                            ]
                    | inr refused ↦ absurd (ground arith)
                  ]
                  | inr refused ↦ absurd (ground arith)
                ]
          ]
        ]
        | inr refused ↦ absurd (ground arith)
      ]
      | inr refused ↦ absurd (ground arith)
    ]
  ]
