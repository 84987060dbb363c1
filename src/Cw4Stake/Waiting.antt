-- ===== src/Cw4Stake/Waiting.antt =====
-- The claims of an account of contracts/cw4-stake, which nobody else's message touches.
use cw_plus.Base.{
  ℕ, ◌+◌, ◌-◌, ◌≡◌, ◌≢◌, none, some, List, [], ◌∷◌, ◌++◌, Result, ok, arith, refl, inl, inr,
  unwrap_or, Option-cases, Result-cases, Bool-cases, ◌∙◌,
}
use cw_plus.Base.Dict.{lookup, insert, lookup-insert}
use cw_plus.Host.{Host, Binary, StdError, Block, Env, MessageInfo}
use cw_plus.Cw20.{Balance}
use cw_plus.Cw4Group.State.{Controllers}
use cw_plus.Cw4Stake.State.{
  Claim, claims_of, due, waiting, Claims, Config, State, ExecuteMsg, ReceiveMsg, Message,
}
use cw_plus.Cw4Stake.Membership.{update_membership_steps}
use cw_plus.Cw4Stake.Handlers.{
  payment, update_membership, execute_bond, execute_receive, execute_unbond, execute_claim, execute,
}

pub due-++ :
    (h : Host) (block : Block) (cs ds : List Claim)
    → due h block (cs ++ ds) ≡ due h block cs + due h block ds
due-++ h block [] ds = omega arith
due-++ h block (c ∷ cs) ds = omega (arith, due-++ h block cs ds)

pub due-waiting :
    (h : Host) (block : Block) (cs : List Claim) → due h block (waiting h block cs) ≡ 0
due-waiting h block [] = refl
due-waiting h block (c ∷ cs) = elim (Bool-cases (h.is_expired c.release_at block)) [
  | inl expired ↦ ground (arith, due-waiting h block cs)
  | inr still ↦ ground (arith, due-waiting h block cs)
]

module _ (h : Host) (c : Controllers) (cl : Claims h) where
  update_membership-claims :
      (a stake : ℕ) (cfg : Config) (st st' : State) (out : List Message)
      → update_membership h c cl a stake cfg st ≡ ok (st', out)
      → (st'.claims ≡ st.claims) × (st'.config ≡ st.config)
  update_membership-claims a stake cfg st st' out e =
      let (new, weighed, did) = update_membership_steps h c cl a stake cfg st st' out e in
      elim did [
        | inl (same, kept, nothing) ↦ (ground arith, ground arith)
        | inr (t, known, le, le', e', told) ↦ (ground arith, ground arith)
      ]

  execute_bond-claims :
      (env : Env) (b : Balance) (sender : ℕ) (st st' : State) (out : List Message)
      → execute_bond h c cl env b sender st ≡ ok (st', out)
      → (st'.claims ≡ st.claims) × (st'.config ≡ st.config)
  unfolding execute_bond
  execute_bond-claims env b sender st st' out e = elim (Option-cases st.config) [
    | inl missing ↦ absurd (ground arith)
    | inr (cfg, known) ↦ elim (Result-cases (payment cfg.denom b)) [
      | inl (paid, accepted) ↦
          let n = unwrap_or (lookup sender st.stake) 0 + paid in
          update_membership-claims sender n cfg (record st { stake = insert sender n st.stake }) st'
            out (ground (arith, h.add_128_lem (unwrap_or (lookup sender st.stake) 0) paid))
      | inr refused ↦ absurd (ground arith)
    ]
  ]

  -- What a handled unbond has done to the claims.
  pub execute_unbond-claims :
      (env : Env) (info : MessageInfo) (amount : ℕ) (cfg : Config) (st st' : State)
      (out : List Message)
      → st.config ≡ some cfg
      → execute_unbond h c cl env info amount st ≡ ok (st', out)
      → (st'.config ≡ st.config)
        × (at_end : ℕ) × (h.after cfg.unbonding_period env.block ≡ some at_end)
        × (st'.claims
            ≡ insert info.sender
                (claims_of info.sender st.claims
                  ++ (record { amount = amount; release_at = at_end } ∷ []))
                st.claims)
  unfolding execute_unbond
  execute_unbond-claims env info amount cfg st st' out known e =
      let old = unwrap_or (lookup info.sender st.stake) 0 in
      elim (Option-cases (h.after cfg.unbonding_period env.block)) [
        | inl stopped ↦ absurd (ground (arith, h.sub_128_lem old amount))
        | inr (at_end, over) ↦
            elim (Result-cases (cl.create_claim st.claims info.sender amount at_end)) [
              | inl (created, done) ↦
                  let (claims, config) =
                    update_membership-claims info.sender (old - amount) cfg
                      (record st {
                        stake = insert info.sender (old - amount) st.stake;
                        claims = created;
                      })
                      st' out (ground (arith, h.sub_128_lem old amount)) in
                  (
                    config,
                    at_end,
                    over,
                    rw claims
                        (cl.create_claim_lem st.claims created info.sender amount at_end done),
                  )
              | inr refused ↦ absurd (ground (arith, h.sub_128_lem old amount))
            ]
      ]

  unbond_needs_config :
      (env : Env) (info : MessageInfo) (amount : ℕ) (st st' : State) (out : List Message)
      → st.config ≡ none
      → execute_unbond h c cl env info amount st ≡ ok (st', out)
      → ⊥
  unfolding execute_unbond
  unbond_needs_config env info amount st st' out missing e = ground arith

  module _ (from_json : Binary → Result StdError ReceiveMsg) (a : ℕ) where
    -- Messages that are handled, of other senders than the account.
    pub data Others : State → State → Type 0 where
      stop : (st : State) → Others st st
      step :
          (env : Env) (info : MessageInfo) (msg : ExecuteMsg) (st st' st'' : State)
          (out : List Message)
          → info.sender ≢ a
          → execute h c cl from_json env info msg st ≡ ok (st', out)
          → Others st' st''
          → Others st st''

    execute-claims_of :
        (env : Env) (info : MessageInfo) (msg : ExecuteMsg) (st st' : State) (out : List Message)
        → info.sender ≢ a
        → execute h c cl from_json env info msg st ≡ ok (st', out)
        → (lookup a st'.claims ≡ lookup a st.claims) × (st'.config ≡ st.config)
    unfolding execute execute_receive execute_claim
    execute-claims_of env info ExecuteMsg.bond st st' out ne e =
        let (claims, config) =
          execute_bond-claims env (Balance.native info.funds) info.sender st st' out e in
        (rw claims refl, config)
    execute-claims_of env info (ExecuteMsg.receive msg) st st' out ne e =
        elim (Result-cases (from_json msg.msg)) [
          | inl (m, parsed) ↦ elim (Result-cases (h.addr_validate msg.sender)) [
            | inl (sender, v) ↦
                let b = Balance.cw20 (record { address = info.sender; amount = msg.amount }) in
                let (claims, config) = execute_bond-claims env b sender st st' out (ground arith) in
                (rw claims refl, config)
            | inr refused ↦ absurd (ground arith)
          ]
          | inr refused ↦ absurd (ground arith)
        ]
    execute-claims_of env info (ExecuteMsg.unbond amount) st st' out ne e =
        elim (Option-cases st.config) [
          | inl missing ↦ absurd (unbond_needs_config env info amount st st' out missing e)
          | inr (cfg, known) ↦
              let (config, at_end, over, claims) =
                execute_unbond-claims env info amount cfg st st' out known e in
              let claim : Claim = record { amount = amount; release_at = at_end } in
              (
                ground (
                  arith,
                  lookup-insert a info.sender (claims_of info.sender st.claims ++ (claim ∷ []))
                      st.claims,
                ),
                config,
              )
        ]
    execute-claims_of env info ExecuteMsg.claim st st' out ne e =
        elim (Result-cases (cl.claim_tokens st.claims info.sender env.block none)) [
          | inl (r, done) ↦
              let (released, claims) =
                cl.claim_tokens_lem st.claims r.1 info.sender r.0 env.block done in
              (
                ground (
                  arith,
                  lookup-insert a info.sender
                      (waiting h env.block (claims_of info.sender st.claims)) st.claims,
                ),
                ground arith,
              )
          | inr refused ↦ absurd (ground arith)
        ]
    execute-claims_of env info (ExecuteMsg.update_admin admin) st st' out ne e =
        (ground arith, ground arith)
    execute-claims_of env info (ExecuteMsg.add_hook addr) st st' out ne e =
        (ground arith, ground arith)
    execute-claims_of env info (ExecuteMsg.remove_hook addr) st st' out ne e =
        (ground arith, ground arith)

    pub Others-claims_of :
        (st st' : State)
        → Others st st'
        → (claims_of a st'.claims ≡ claims_of a st.claims) × (st'.config ≡ st.config)
    Others-claims_of st st' (stop same) = (refl, refl)
    Others-claims_of st st' (step env info msg first next last out ne e rest) =
        let (claims, config) = execute-claims_of env info msg st next out ne e in
        let (claims', config') = Others-claims_of next st' rest in (ground arith, config' ∙ config)
