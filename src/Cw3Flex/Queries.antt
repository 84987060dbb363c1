-- ===== src/Cw3Flex/Queries.antt =====
-- The queries of contracts/cw3-flex-multisig/src/contract.rs. Its `map_proposal` is that of the fixed
-- multisig, line by line, and so are the limits of its pages.
use cw_plus.Base.{ℕ, Option, none, some, List, map, Result, ok, ◌>>=◌, ok_or}
use cw_plus.Base.Dict.{lookup}
use cw_plus.Base.Dict.Pairs.{lookup_pair, prefix}
use cw_plus.Base.Dict.Page.{page, page_before}
use cw_plus.Host.{Host, Text, ThresholdResponse, StdError, Env}
use cw_plus.Cw4Group.State.{Member}
use cw_plus.Cw3Fixed.Queries.{
  ProposalResponse, VoteInfo, VoterDetail, map_proposal, map_proposals, page_size, vote_info,
}
use cw_plus.Cw3Flex.State.{Querier, Config, State, is_member}

unfoldable pub query_config : State → Result StdError Config
query_config st = ok_or st.config StdError.not_found

unfoldable pub query_proposal : Host → Env → ℕ → State → Result StdError ProposalResponse
query_proposal h env id st = do
  prop ← ok_or (lookup id st.proposals) StdError.not_found
  map_proposal h env.block id prop

unfoldable pub list_proposals :
    Host → Env → Option ℕ → Option ℕ → State → Result StdError (List ProposalResponse)
list_proposals h env start_after limit st =
    map_proposals h env.block (page start_after (page_size limit) st.proposals)

unfoldable pub reverse_proposals :
    Host → Env → Option ℕ → Option ℕ → State → Result StdError (List ProposalResponse)
reverse_proposals h env start_before limit st =
    map_proposals h env.block (page_before start_before (page_size limit) st.proposals)

unfoldable pub query_vote : Host → ℕ → Text → State → Result StdError (Option VoteInfo)
query_vote h proposal_id voter st = do
  addr ← h.addr_validate voter
  ok (elim (lookup_pair proposal_id addr st.ballots) [
    | none ↦ none
    | some b ↦
        some (record { proposal_id = proposal_id; voter = voter; vote = b.vote; weight = b.weight })
  ])

unfoldable pub list_votes :
    Host → ℕ → Option Text → Option ℕ → State → Result StdError (List VoteInfo)
list_votes h proposal_id none limit st =
    ok (map (vote_info proposal_id) (page none (page_size limit) (prefix proposal_id st.ballots)))
list_votes h proposal_id (some start_after) limit st = do
  addr ← h.addr_validate start_after
  ok (
      map (vote_info proposal_id)
        (page (some addr) (page_size limit) (prefix proposal_id st.ballots)))

abbrev pub detail_of : Member → VoterDetail
detail_of m = record { addr = m.addr; weight = m.weight }

module _ (h : Host) (q : Querier) where
  unfoldable pub query_threshold : State → Result StdError ThresholdResponse
  query_threshold st = do
    cfg ← ok_or st.config StdError.not_found
    total_weight ← q.total_weight cfg.group_addr
    ok (h.to_response cfg.threshold total_weight)

  unfoldable pub query_voter : Text → State → Result StdError (Option ℕ)
  query_voter voter st = do
    cfg ← ok_or st.config StdError.not_found
    addr ← h.addr_validate voter
    is_member q cfg.group_addr addr none

  unfoldable pub list_voters : Option Text → Option ℕ → State → Result StdError (List VoterDetail)
  list_voters start_after limit st = do
    cfg ← ok_or st.config StdError.not_found
    members ← q.list_members cfg.group_addr start_after limit
    ok (map detail_of members)
