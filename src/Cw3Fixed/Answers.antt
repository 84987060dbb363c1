-- ===== src/Cw3Fixed/Answers.antt =====
-- What the queries of contracts/cw3-fixed-multisig answer, against what its handlers do.
use cw_plus.Base.{
  ℕ, ◌≤◌, ◌≡◌, ◌↔◌, Option, some, List, [], ◌∷◌, ◌++◌, map, ok, arith, refl, zero, suc, length,
  take,
}
use cw_plus.Base.Dict.{lookup, insert}
use cw_plus.Base.Dict.Page.{page, range_from, next_start, page-range_from}
use cw_plus.Host.{Host, Env, MessageInfo}
use cw_plus.Cw3.{passed, executed, Proposal, update_status}
use cw_plus.Cw3.Outcome.{IsSound, status_now, current_status-status_now}
use cw_plus.Cw3Fixed.State.{State}
use cw_plus.Cw3Fixed.Handlers.{execute_execute, is_passed_status}
use cw_plus.Cw3Fixed.Steps.{is_passed_status_lem}
use cw_plus.Cw3Fixed.Queries.{
  ProposalResponse, map_proposal, query_proposal, list_voters, voter_detail, page_size,
}
use cw_plus.Cw3Fixed.Tally.{Inv, kept-IsSound}

-- The query of a proposal on record returns, and shows it as passed exactly when executing it at
-- the same block returns with its messages.
pub query_proposal_lem :
    (h : Host) (env : Env) (info : MessageInfo) (st : State) (id : ℕ) (p : Proposal)
    → Inv st
    → lookup id st.proposals ≡ some p
    → (r : ProposalResponse) × (query_proposal h env id st ≡ ok r)
      × ((r.status ≡ passed) ↔ (
          execute_execute h env info id st
          ≡ ok (
            record st { proposals = insert id (record p { status = executed }) st.proposals },
            p.msgs,
          )))
unfolding query_proposal map_proposal execute_execute update_status is_passed_status
query_proposal_lem h env info st id p good found =
    let sound : IsSound p = kept-IsSound st.voters p _ good.voters_map (good.kept id p found) in
    (
      record {
        id = id;
        title = p.title;
        description = p.description;
        msgs = p.msgs;
        status = status_now h p env.block p.status;
        expires = p.expires;
        threshold = h.to_response p.threshold p.total_weight;
        proposer = p.proposer;
        deposit = p.deposit;
      },
      ground (arith, current_status-status_now h p env.block sound),
      (
        λ shown. ground (arith, current_status-status_now h p env.block sound),
        λ ran. ground (
          arith,
          current_status-status_now h p env.block sound,
          is_passed_status_lem (status_now h p env.block p.status),
        ),
      ),
    )

map-++ {ℓ κ} :
    {A : Type ℓ} {B : Type κ} (f : A → B) (xs ys : List A) → map f (xs ++ ys) ≡ map f xs ++ map f ys
map-++ f [] ys = refl
map-++ f (x ∷ xs) ys = ground (arith, map-++ f xs ys)

length-take {ℓ κ} :
    {A : Type ℓ} {B : Type κ} (f : A → B) (n : ℕ) (xs : List A) → length (map f (take n xs)) ≤ n
length-take f zero xs = omega arith
length-take f (suc n) [] = omega arith
length-take f (suc n) (x ∷ xs) = ground (arith, length-take f n xs)

page_size-le : (limit : Option ℕ) → page_size limit ≤ 30
unfolding page_size
page_size-le limit = ground arith

-- A page of the voters has at most 30 entries, and a client that asks for the next page from its
-- last address gets the voters that follow it: none is left out or listed twice.
pub list_voters_lem :
    (st : State) (start limit : Option ℕ)
    → Inv st
    → (length (list_voters start limit st) ≤ 30)
      × (list_voters start limit st
            ++ map voter_detail
                (range_from (next_start start (page start (page_size limit) st.voters)) st.voters)
          ≡ map voter_detail (range_from start st.voters))
unfolding list_voters page
list_voters_lem st start limit good = (
  omega (
    arith,
    length-take voter_detail (page_size limit) (range_from start st.voters),
    page_size-le limit,
  ),
  ground (
    arith,
    map-++ voter_detail (page start (page_size limit) st.voters)
        (range_from (next_start start (page start (page_size limit) st.voters)) st.voters),
    page-range_from start (page_size limit) st.voters good.voters_map,
  ),
)
