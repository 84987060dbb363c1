-- ===== src/Cw3Flex/Grouped.antt =====
-- contracts/cw3-flex-multisig on a contracts/cw4-group: what it queries is the group's storage.
use cw_plus.Base.{ℕ, ◌+◌, ◌≤◌, ◌≡◌, Option, some, List, [], Result, ok, refl, unwrap_or, ok_or, ap}
use cw_plus.Base.Dict.{lookup}
use cw_plus.Base.Dict.Pairs.{prefix}
use cw_plus.Host.{
  Host, Env, MessageInfo, Text, Expiration, CosmosMsg, Block, Addr, StdError, IsReachable,
}
use cw_plus.Cw3.{Status, Proposal, current_status}
use cw_plus.Cw3.Deposits.{Payments, Message}
use cw_plus.Cw3.Outcome.{cast}
use cw_plus.Cw4Group.State as group_state
use cw_plus.Cw4Group.State.{Member}
use cw_plus.Cw4Group.Sums.{IsSummed, weight_sum}
use cw_plus.Cw3Flex.State.{Querier, State, Config}
use cw_plus.Cw3Flex.Handlers.{execute_propose}
use cw_plus.Cw3Flex.History.{AreIssued}
use cw_plus.Cw3Flex.Snapshots.{Runs, execute_propose-Runs}

-- The answers of a group: TOTAL and MEMBERS as they are stored. Those at a height, the list of its
-- members and the answers of a cw20 are given.
abbrev pub querier_of :
    (Addr → Option ℕ → Result StdError (Option ℕ))
    → (Option Text → Option ℕ → Result StdError (List Member))
    → (Addr → Result StdError (Unit {0}))
    → group_state.State
    → Querier
querier_of past listed token_info g = record {
  total_weight = λ _. ok_or g.total StdError.not_found;
  current_weight = λ _ a. ok (lookup a g.members);
  member_at_height = λ _. past;
  list_members = λ _. listed;
  token_info = token_info;
}

-- A proposal that is made when the group is a cw4-group whose total is the sum of its members'
-- weights, with a threshold that this total can reach and a number that no proposal or ballot on
-- record has, never gets votes beyond that total and has a status at every block, whatever messages
-- are handled afterwards, as long as the group answers for the height of the start from the members
-- it had then.
pub execute_propose-Runs_grouped :
    (h : Host) (pay : Payments) (env : Env) (info : MessageInfo) (c : Config)
    (past : Addr → Option ℕ → Result StdError (Option ℕ))
    (listed : Option Text → Option ℕ → Result StdError (List Member))
    (token_info : Addr → Result StdError (Unit {0})) (g : group_state.State) (st st' st'' : State)
    (out : List Message) (title description : Text) (msgs : List CosmosMsg)
    (latest : Option Expiration)
    → IsSummed g
    → IsReachable c.threshold (weight_sum g.members)
    → st.config ≡ some c
    → AreIssued st
    → prefix (unwrap_or st.proposal_count 0 + 1) st.ballots ≡ []
    → execute_propose h pay
        (querier_of past listed token_info g)
        env
        info
        title
        description
        msgs
        latest
        st
      ≡ ok (st', out)
    → Runs h pay g.members c.group_addr env.block.height
        (unwrap_or st.proposal_count 0 + 1)
        st'
        st''
    → (p : Proposal) × (lookup (unwrap_or st.proposal_count 0 + 1) st''.proposals ≡ some p)
      × (cast p.votes ≤ weight_sum g.members)
      × ((b : Block) → (s : Status) × (current_status h p b ≡ some s))
execute_propose-Runs_grouped h pay env info c past listed token_info g st st' st'' out title
      description msgs latest summed reachable configured issued unused e runs =
    execute_propose-Runs h pay (querier_of past listed token_info g) env info c g.members st st'
      st'' out title description msgs latest summed.is_map summed.is_u64 reachable
      (ap (λ t. ok_or t StdError.not_found) summed.summed) (λ a. refl) configured issued unused e
      runs
