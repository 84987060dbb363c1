-- ===== src/Cw3Fixed/Queries.antt =====
-- The queries of contracts/cw3-fixed-multisig/src/contract.rs. A page starts after a given key.
use cw_plus.Base.{
  ℕ, Option, none, some, List, [], ◌∷◌, map, Result, ok, ◌>>=◌, ok_or, or_panic, leb, unwrap_or,
  if◌then◌else◌,
}
use cw_plus.Base.Dict.{Dict, lookup}
use cw_plus.Base.Dict.Pairs.{lookup_pair, prefix}
use cw_plus.Base.Dict.Page.{page, page_before}
use cw_plus.Host.{Host, Text, Addr, Expiration, CosmosMsg, ThresholdResponse, StdError, Env, Block}
use cw_plus.Cw3.{Vote, Status, Ballot, Proposal, DepositInfo, current_status}
use cw_plus.Cw3Fixed.State.{State}

-- `ProposalResponse`
pub record ProposalResponse : Type 0 where
  pub id : ℕ
  pub title : Text
  pub description : Text
  pub msgs : List CosmosMsg
  pub status : Status
  pub expires : Expiration
  pub threshold : ThresholdResponse
  pub proposer : Addr
  pub deposit : Option DepositInfo

-- `VoteInfo`
pub record VoteInfo : Type 0 where
  pub proposal_id : ℕ
  pub voter : Text
  pub vote : Vote
  pub weight : ℕ

-- `VoterDetail`
pub record VoterDetail : Type 0 where
  pub addr : Text
  pub weight : ℕ

abbrev pub max_limit : ℕ
max_limit = 30

abbrev pub default_limit : ℕ
default_limit = 10

-- `limit.unwrap_or(DEFAULT_LIMIT).min(MAX_LIMIT)`
unfoldable pub page_size : Option ℕ → ℕ
page_size limit =
    let asked = unwrap_or limit default_limit in if leb asked max_limit then asked else max_limit

unfoldable pub query_threshold : Host → State → Result StdError ThresholdResponse
query_threshold h st = do
  cfg ← ok_or st.config StdError.not_found
  ok (h.to_response cfg.threshold cfg.total_weight)

unfoldable pub map_proposal : Host → Block → ℕ → Proposal → Result StdError ProposalResponse
map_proposal h block id prop = do
  status ← or_panic (current_status h prop block)
  ok (record {
    id = id;
    title = prop.title;
    description = prop.description;
    msgs = prop.msgs;
    status = status;
    expires = prop.expires;
    threshold = h.to_response prop.threshold prop.total_weight;
    proposer = prop.proposer;
    deposit = prop.deposit;
  })

unfoldable pub query_proposal : Host → Env → ℕ → State → Result StdError ProposalResponse
query_proposal h env id st = do
  prop ← ok_or (lookup id st.proposals) StdError.not_found
  map_proposal h env.block id prop

unfoldable pub map_proposals :
    Host → Block → Dict Proposal → Result StdError (List ProposalResponse)
map_proposals h block [] = ok []
map_proposals h block ((id, prop) ∷ props) = do
  first ← map_proposal h block id prop
  rest ← map_proposals h block props
  ok (first ∷ rest)

unfoldable pub list_proposals :
    Host → Env → Option ℕ → Option ℕ → State → Result StdError (List ProposalResponse)
list_proposals h env start_after limit st =
    map_proposals h env.block (page start_after (page_size limit) st.proposals)

unfoldable pub reverse_proposals :
    Host → Env → Option ℕ → Option ℕ → State → Result StdError (List ProposalResponse)
reverse_proposals h env start_before limit st =
    map_proposals h env.block (page_before start_before (page_size limit) st.proposals)

unfoldable pub query_vote : Host → ℕ → Text → State → Result StdError (Option VoteInfo)
query_vote h proposal_id voter st = do
  addr ← h.addr_validate voter
  ok (elim (lookup_pair proposal_id addr st.ballots) [
    | none ↦ none
    | some b ↦
        some (record { proposal_id = proposal_id; voter = addr; vote = b.vote; weight = b.weight })
  ])

-- One item of `list_votes`, and one of `list_voters`.
abbrev pub vote_info : ℕ → ℕ × Ballot → VoteInfo
vote_info proposal_id (addr, ballot) = record {
  proposal_id = proposal_id;
  voter = addr;
  vote = ballot.vote;
  weight = ballot.weight;
}

abbrev pub voter_detail : ℕ × ℕ → VoterDetail
voter_detail (addr, weight) = record { addr = addr; weight = weight }

unfoldable pub list_votes : ℕ → Option Text → Option ℕ → State → List VoteInfo
list_votes proposal_id start_after limit st =
    map (vote_info proposal_id) (page start_after (page_size limit) (prefix proposal_id st.ballots))

unfoldable pub query_voter : Host → Text → State → Result StdError (Option ℕ)
query_voter h voter st = do addr ← h.addr_validate voter; ok (lookup addr st.voters)

unfoldable pub list_voters : Option Text → Option ℕ → State → List VoterDetail
list_voters start_after limit st = map voter_detail (page start_after (page_size limit) st.voters)
