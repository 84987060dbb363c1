-- ===== src/Cw4Stake/Payouts.antt =====
-- What is unbonded from contracts/cw4-stake is paid out, once.
use cw_plus.Base.{
  ℕ, ◌≤◌, ◌<◌, ◌≡◌, true, none, some, List, [], ◌∷◌, ◌++◌, Result, ok, err, arith, inl, inr,
  Result-cases, u128_max,
}
use cw_plus.Base.Dict.{lookup-insert}
use cw_plus.Host.{Host, Binary, StdError, Env, MessageInfo}
use cw_plus.Cw4Group.State.{Controllers}
use cw_plus.Cw4Stake.State.{
  Claim, claims_of, due, waiting, Claims, Config, State, ReceiveMsg, Message, nothing_to_claim,
}
use cw_plus.Cw4Stake.Handlers.{execute_unbond, execute_claim, pay_out}
use cw_plus.Cw4Stake.Waiting.{due-++, due-waiting, Others, Others-claims_of, execute_unbond-claims}

module _ (h : Host) (c : Controllers) (cl : Claims h) where
  -- What a claim does where its sum is a `Uint128`.
  execute_claim_returns :
      (env : Env) (info : MessageInfo) (cfg : Config) (st : State)
      → st.config ≡ some cfg
      → due h env.block (claims_of info.sender st.claims) ≤ u128_max
      → 0 < due h env.block (claims_of info.sender st.claims)
      → (st' : State) × (execute_claim h c cl env info st
          ≡ ok (
            st',
            pay_out cfg.denom info.sender (due h env.block (claims_of info.sender st.claims)) ∷ [],
          ))
  unfolding execute_claim
  execute_claim_returns env info cfg st known le lt =
      let (r, done) = cl.claim_tokens_returns st.claims info.sender env.block le in
      let (released, claims) = cl.claim_tokens_lem st.claims r.1 info.sender r.0 env.block done in
      (record st { claims = r.1 }, ground arith)

  module _ (from_json : Binary → Result StdError ReceiveMsg) (env env' : Env)
      (info info' : MessageInfo) (same : info'.sender ≡ info.sender) (cfg : Config)
      (st st' st'' : State) (out : List Message) (known : st.config ≡ some cfg) where
    -- Tokens that an account unbonds can be claimed once the unbonding period is over, whatever
    -- others do in between, provided that all the account is due is a `Uint128`: its claim returns
    -- and sends it one payment, of at least the unbonded amount.
    pub execute_unbond-execute_claim :
        (amount at_end : ℕ)
        → execute_unbond h c cl env info amount st ≡ ok (st', out)
        → 0 < amount
        → Others h c cl from_json info.sender st' st''
        → h.after cfg.unbonding_period env.block ≡ some at_end
        → h.is_expired at_end env'.block ≡ true
        → due h env'.block (claims_of info.sender st''.claims) ≤ u128_max
        → (n : ℕ) × (amount ≤ n)
          × (end : State) × (execute_claim h c cl env' info' st''
              ≡ ok (end, pay_out cfg.denom info.sender n ∷ []))
    execute_unbond-execute_claim amount at_end e lt others ends over le =
        let before = claims_of info.sender st.claims in
        let claim : Claim = record { amount = amount; release_at = at_end } in
        let (config, at_end', ends', claims) =
          execute_unbond-claims h c cl env info amount cfg st st' out known e in
        let (kept, config') = Others-claims_of h c cl from_json info.sender st' st'' others in
        let sum : amount ≤ due h env'.block (claims_of info.sender st''.claims) = ground (
          arith,
          lookup-insert info.sender info.sender (before ++ (claim ∷ [])) st.claims,
          due-++ h env'.block before (claim ∷ []),
        ) in
        let (end, done) =
          execute_claim_returns env' info' cfg st'' (ground arith) (rw same le) (ground arith) in
        (due h env'.block (claims_of info.sender st''.claims), sum, end, ground arith)

  -- After a claim the account has nothing to claim at that block: a second claim is refused,
  -- whatever others do in between.
  pub claim_twice :
      (from_json : Binary → Result StdError ReceiveMsg) (env env' : Env) (info info' : MessageInfo)
      (st st' st'' : State) (out : List Message)
      → execute_claim h c cl env info st ≡ ok (st', out)
      → Others h c cl from_json info.sender st' st''
      → info'.sender ≡ info.sender
      → env'.block ≡ env.block
      → execute_claim h c cl env' info' st'' ≡ err nothing_to_claim
  unfolding execute_claim
  claim_twice from_json env env' info info' st st' st'' out e others same now =
      elim (Result-cases (cl.claim_tokens st.claims info.sender env.block none)) [
        | inl (r, done) ↦
            let before = claims_of info.sender st.claims in
            let left = waiting h env.block before in
            let (released, claims) =
              cl.claim_tokens_lem st.claims r.1 info.sender r.0 env.block done in
            let (kept, config) = Others-claims_of h c cl from_json info.sender st' st'' others in
            let nothing : due h env.block (claims_of info.sender st''.claims) ≡ 0 = ground (
              arith,
              lookup-insert info.sender info.sender left st.claims,
              due-waiting h env.block before,
            ) in
            let (r', done') =
              cl.claim_tokens_returns st''.claims info.sender env.block (ground arith) in
            let (released', claims') =
              cl.claim_tokens_lem st''.claims r'.1 info.sender r'.0 env.block done' in
            ground arith
        | inr refused ↦ absurd (ground arith)
      ]
