-- ===== src/Cw3Flex/Executors.antt =====
-- Who may execute a proposal of contracts/cw3-flex-multisig, and when.
use cw_plus.Base.{
  ℕ, ◌≡◌, ◌⊎◌, Option, none, some, List, ok, arith, refl, true, Option-cases, Result-cases,
  Bool-cases, inl, inr,
}
use cw_plus.Base.Dict.{lookup}
use cw_plus.Host.{Host, Env, MessageInfo, Addr, Block}
use cw_plus.Cw3.{
  Status, open_status, passed, pending, rejected, executed, Proposal, current_status, is_passed,
  is_rejected,
}
use cw_plus.Cw3.Deposits.{Payments, Message}
use cw_plus.Cw3Fixed.Steps.{update_status_lem, is_passed_status_lem}
use cw_plus.Cw3Flex.State.{Querier, Executor, member, only, Config, State, is_member, authorize}
use cw_plus.Cw3Flex.Handlers.{execute_execute}
use cw_plus.Cw3Flex.Steps.{execute_steps}

-- The executor of the configuration: anybody, a member of the group at the time, or one account.
abbrev pub MayExecute : Querier → Addr → Option Executor → Addr → Type 0
MayExecute q group none sender = Unit
MayExecute q group (some member) sender = (w : ℕ) × (q.current_weight group sender ≡ ok (some w))
MayExecute q group (some (only addr)) sender = sender ≡ addr

abbrev pub HasPassed : Host → Block → Proposal → Type 0
HasPassed h b p = (p.status ≡ passed) ⊎ ((p.status ≡ open_status) × (is_passed h p b ≡ some true))

authorize-MayExecute :
    (q : Querier) (c : Config) (x : Option Executor) (sender : ℕ)
    → authorize q (record c { executor = x }) sender ≡ ok tt
    → MayExecute q c.group_addr x sender
unfolding authorize is_member
authorize-MayExecute q c none sender e = tt
authorize-MayExecute q c (some member) sender e =
    elim (Result-cases (q.current_weight c.group_addr sender)) [
      | inl (o, asked) ↦ elim (Option-cases o) [
        | inl stranger ↦ absurd (ground arith)
        | inr (w, found) ↦ (w, ground arith)
      ]
      | inr refused ↦ absurd (ground arith)
    ]
authorize-MayExecute q c (some (only addr)) sender e = ground arith

status-HasPassed :
    (h : Host) (b : Block) (p : Proposal) (s : Status)
    → p.status ≡ s
    → current_status h p b ≡ some passed
    → HasPassed h b p
unfolding current_status
status-HasPassed h b p passed at e = inl at
status-HasPassed h b p pending at e = absurd (ground arith)
status-HasPassed h b p rejected at e = absurd (ground arith)
status-HasPassed h b p executed at e = absurd (ground arith)
status-HasPassed h b p open_status at e = elim (Option-cases (is_passed h p b)) [
  | inl stopped ↦ absurd (ground arith)
  | inr (won, told) ↦ elim (Bool-cases won) [
    | inl wins ↦ inr (at, ground arith)
    | inr loses ↦ elim (Option-cases (is_rejected h p b)) [
      | inl stopped ↦ absurd (ground arith)
      | inr (lost, told') ↦ absurd (ground arith)
    ]
  ]
]

-- A proposal is executed only if it has passed, by its stored status or, while that is open, by its
-- votes at the block; and only by who may: anybody, a member of the group at the time, or the one
-- account, as the configuration says.
pub execute_execute-MayExecute :
    (h : Host) (pay : Payments) (q : Querier) (env : Env) (info : MessageInfo) (c : Config)
    (st st' : State) (out : List Message) (id : ℕ)
    → st.config ≡ some c
    → execute_execute h pay q env info id st ≡ ok (st', out)
    → MayExecute q c.group_addr c.executor info.sender
      × ((p : Proposal) × (lookup id st.proposals ≡ some p) × HasPassed h env.block p)
execute_execute-MayExecute h pay q env info c st st' out id known e =
    let (c', p, p', config, found, updated, won, allowed, sent, e') =
      execute_steps h pay q env info st st' out id e in
    let (s, now, same) = update_status_lem h p p' env.block updated in
    let this : c' ≡ c = ground arith in
    (
      authorize-MayExecute q c c.executor info.sender (ground arith),
      (
        p,
        found,
        status-HasPassed h env.block p p.status refl
            (ground (arith, is_passed_status_lem p'.status won)),
      ),
    )
