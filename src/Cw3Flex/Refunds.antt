-- ===== src/Cw3Flex/Refunds.antt =====
-- Deposits and execution in contracts/cw3-flex-multisig.
use cw_plus.Base.{
  ℕ, ◌+◌, ◌<◌, ◌≡◌, ◌++◌, map, Option, none, some, List, [], ◌∷◌, ok, err, arith, refl, unwrap_or,
  Result-cases, inl, inr, ◌∙◌,
}
use cw_plus.Base.Dict.{lookup, lookup-insert}
use cw_plus.Host.{Host, Env, MessageInfo, Text, Expiration, CosmosMsg, Addr}
use cw_plus.Cw3.{rejected, executed, Proposal, Denom, DepositInfo, update_status}
use cw_plus.Cw3.Deposits.{
  Payments, Message, relayed, bank_send, cw20_transfer, cw20_transfer_from,
  check_native_deposit_paid, get_take_deposit_messages, get_return_deposit_message,
}
use cw_plus.Cw3Fixed.Handlers.{is_passed_status, is_settled}
use cw_plus.Cw3Fixed.Steps.{update_status_lem}
use cw_plus.Cw3Flex.State.{
  Querier, Config, State, ExecuteMsg, wrong_execute_status, wrong_close_status,
}
use cw_plus.Cw3Flex.Handlers.{
  execute, execute_propose, execute_execute, execute_close, deposit_paid, take_deposit,
  return_deposit,
}
use cw_plus.Cw3Flex.Steps.{execute_steps, propose_steps, proposed}
use cw_plus.Cw3Flex.History.{
  IsFinal, current_status-IsFinal, AreIssued, Carries, Runs, Runs-Carries, execute-Carries,
}

-- A proposal that is executed or rejected, by its votes or by being closed, pays nothing any more,
-- provided that all numbers of proposals on record have been given out: after any messages,
-- executing it and closing it are both refused, so a deposit is returned at most once, and that of
-- a proposal that is stored as rejected is not returned at all.
pub final_is_refused :
    (h : Host) (pay : Payments) (q : Querier) (env : Env) (info : MessageInfo) (st st' : State)
    (id : ℕ) (p : Proposal)
    → AreIssued st
    → Runs h pay st st'
    → lookup id st.proposals ≡ some p
    → IsFinal p.status
    → (execute_execute h pay q env info id st' ≡ err wrong_execute_status)
      × (execute_close h pay q env info id st' ≡ err wrong_close_status)
unfolding execute_execute execute_close update_status is_passed_status is_settled
final_is_refused h pay q env info st st' id p issued runs found (inl f) =
    let (p', found', c) = (Runs-Carries h pay st st' runs issued).continued id p found in
    let f' : p'.status ≡ rejected = c.same_final (inl f) ∙ f in
    (
      ground (arith, current_status-IsFinal h p' env.block (inl f')),
      ground (arith, current_status-IsFinal h p' env.block (inl f')),
    )
final_is_refused h pay q env info st st' id p issued runs found (inr f) =
    let (p', found', c) = (Runs-Carries h pay st st' runs issued).continued id p found in
    let f' : p'.status ≡ executed = c.same_final (inr f) ∙ f in
    (
      ground (arith, current_status-IsFinal h p' env.block (inr f')),
      ground (arith, current_status-IsFinal h p' env.block (inr f')),
    )

-- The deposit is with the contract: its coin came with the proposal, or it is fetched from the cw20.
abbrev pub IsTaken : Addr → MessageInfo → Option DepositInfo → List Message → Type 0
IsTaken contract info none out = out ≡ []
IsTaken contract info (some d) out = elim d.denom [
  | Denom.native denom ↦
      (info.funds ≡ record { denom = denom; amount = d.amount } ∷ []) × (out ≡ [])
  | Denom.cw20 address ↦ out ≡ cw20_transfer_from address info.sender contract d.amount ∷ []
]

-- The message that gives it back.
abbrev pub refund : Addr → Option DepositInfo → List Message
refund to none = []
refund to (some d) = elim d.denom [
  | Denom.native denom ↦ bank_send to d.amount denom ∷ []
  | Denom.cw20 address ↦ cw20_transfer address to d.amount ∷ []
]

abbrev pub IsPositive : Option DepositInfo → Type 0
IsPositive none = Unit
IsPositive (some d) = 0 < d.amount

refund_lem : (to : ℕ) (d : Option DepositInfo) → return_deposit to d ≡ refund to d
unfolding return_deposit get_return_deposit_message
refund_lem to none = refl
refund_lem to (some d) =
    elim d.denom
      as (λ x.
        return_deposit to (some (record d { denom = x }))
        ≡ refund to (some (record d { denom = x }))) [
          | Denom.native denom ↦ refl
          | Denom.cw20 address ↦ refl
        ]

deposit_paid-IsTaken :
    (pay : Payments) (contract : ℕ) (info : MessageInfo) (denom : Denom) (d : DepositInfo)
    (out : List Message)
    → deposit_paid pay info (some (record d { denom = denom })) ≡ ok tt
    → 0 < d.amount
    → out ≡ take_deposit info.sender contract (some (record d { denom = denom }))
    → IsTaken contract info (some (record d { denom = denom })) out
unfolding deposit_paid take_deposit check_native_deposit_paid get_take_deposit_messages
deposit_paid-IsTaken pay contract info (Denom.native x) d out paid positive e =
    elim (Result-cases (pay.must_pay info x)) [
      | inl (n, got) ↦ (ground (arith, pay.must_pay_lem info x n), e)
      | inr refused ↦ absurd (ground arith)
    ]
deposit_paid-IsTaken pay contract info (Denom.cw20 a) d out paid positive e = ground arith

take_deposit-IsTaken :
    (pay : Payments) (contract : ℕ) (info : MessageInfo) (d : Option DepositInfo)
    (out : List Message)
    → deposit_paid pay info d ≡ ok tt
    → IsPositive d
    → out ≡ take_deposit info.sender contract d
    → IsTaken contract info d out
unfolding take_deposit
take_deposit-IsTaken pay contract info none out paid positive e = e
take_deposit-IsTaken pay contract info (some d) out paid positive e =
    deposit_paid-IsTaken pay contract info d.denom d out paid positive e

module _ (h : Host) (pay : Payments) where
  -- What is executed is what was proposed, whatever happens in between, provided that the deposit
  -- is positive and that all numbers of proposals on record have been given out: the deposit of the
  -- configuration is taken with the proposal, from its proposer, and an execution sends it back to
  -- the proposer, and then the proposed messages in their order.
  pub execute_propose-execute_execute :
      (q q' : Querier) (env env' : Env) (info info' : MessageInfo) (c : Config)
      (st st' st'' end : State) (out out' : List Message) (title description : Text)
      (msgs : List CosmosMsg) (latest : Option Expiration)
      → AreIssued st
      → st.config ≡ some c
      → IsPositive c.proposal_deposit
      → execute_propose h pay q env info title description msgs latest st ≡ ok (st', out)
      → Runs h pay st' st''
      → execute_execute h pay q' env' info' (unwrap_or st.proposal_count 0 + 1) st''
        ≡ ok (end, out')
      → IsTaken env.contract info c.proposal_deposit out
        × (out' ≡ refund info.sender c.proposal_deposit ++ map relayed msgs)
  unfolding execute
  execute_propose-execute_execute q q' env env' info info' c st st' st'' end out out' title
        description msgs latest issued configured positive e runs e2 =
      let id = unwrap_or st.proposal_count 0 + 1 in
      let (c1, w, total, exp, p, config, paid, joined, weighed, updated, room, sent, same) =
        propose_steps h pay q env info st st' out title description msgs latest e in
      let (s, now, terms) =
        update_status_lem h (proposed env info c1 w total title description msgs exp) p env.block
          updated in
      let this : c1 ≡ c = ground arith in
      let first : Carries st st' =
        execute-Carries h pay q env info st st' out issued
          (ExecuteMsg.propose title description msgs latest) e in
      let found : lookup id st'.proposals ≡ some p =
        ground (arith, lookup-insert id id p st.proposals) in
      let (p1, found1, k) = (Runs-Carries h pay st' st'' runs first.issued).continued id p found in
      let (c2, p2, p3, config2, found2, updated2, won, allowed, sent2, same2) =
        execute_steps h pay q' env' info' st'' end out' id e2 in
      let (s2, now2, terms2) = update_status_lem h p2 p3 env'.block updated2 in
      let again : p2 ≡ p1 = ground arith in
      (
        take_deposit-IsTaken pay env.contract info c.proposal_deposit out (ground arith) positive
            (ground arith),
        ground (
          arith,
          k.same_msgs,
          k.same_proposer,
          k.same_deposit,
          refund_lem info.sender c.proposal_deposit,
        ),
      )
