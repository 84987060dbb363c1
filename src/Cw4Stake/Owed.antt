-- ===== src/Cw4Stake/Owed.antt =====
-- What contracts/cw4-stake owes its stakers is what it has been paid, less what it has paid out.
use cw_plus.Base.{
  Option-cases, ℕ, subst, ◌+◌, ◌-◌, ◌≢◌, ◌≡◌, none, some, List, [], ◌∷◌, ◌++◌, map, Result, ok,
  arith, refl, inl, inr, unwrap_or, Result-cases,
}
use cw_plus.Base.Dict.{lookup, insert, insert-IsMap}
use cw_plus.Base.Dict.Sum.{sum_by-insert}
use cw_plus.Host.{Host, Binary, StdError, Env, MessageInfo}
use cw_plus.Cw20.{Balance, Cw20ReceiveMsg}
use cw_plus.Cw4Group.State.{Controllers}
use cw_plus.Cw4Stake.State.{
  Claim, claims_of, waiting, Claims, Config, State, ExecuteMsg, ReceiveMsg, Message,
}
use cw_plus.Cw4Stake.Membership.{tell, update_membership_steps}
use cw_plus.Cw4Stake.Handlers.{
  payment, update_membership, execute_bond, execute_receive, execute_unbond, execute_claim, pay_out,
  execute,
}
use cw_plus.Cw4Stake.Money.{
  pending, owed, IsBook, balance_of, IsQuiet, paid_in, paid_out, call_hook-paid_out, pending-++,
  due-waiting, IsQuiet-paid_in, balance_of-bond, balance_of-receive, payment-balance_of,
  pay_out-pays, pay_out-nothing,
}

module _ (h : Host) (c : Controllers) (cl : Claims h) (cfg : Config) where
  -- The books of stakes and claims after a step, with what it took in and paid out.
  pub record Accounts (received : ℕ) (st st' : State) (to : ℕ) (out : List Message) : Type 0 where
    pub same_config : st'.config ≡ st.config
    pub book : IsBook st'
    pub balanced : owed st' + paid_out cfg.denom to out ≡ owed st + received
    pub only : (k : ℕ) → k ≢ to → paid_out cfg.denom k out ≡ 0

  -- A change of a weight touches neither stakes nor claims, and sends calls to hooks only.
  update_membership-paid_out :
      (a stake : ℕ) (cfg' : Config) (st st' : State) (out : List Message)
      → update_membership h c cl a stake cfg' st ≡ ok (st', out)
      → (st'.stake ≡ st.stake)
        × (st'.claims ≡ st.claims)
        × (st'.config ≡ st.config)
        × ((to : ℕ) → paid_out cfg.denom to out ≡ 0)
  update_membership-paid_out a stake cfg' st st' out e =
      let (new, weighed, did) = update_membership_steps h c cl a stake cfg' st st' out e in
      elim did [
        | inl (same, kept, nothing) ↦
            (ground arith, ground arith, ground arith, λ to. rw nothing refl)
        | inr (t, known, le, le', e', told) ↦ (
          ground arith,
          ground arith,
          ground arith,
          λ to. rw told (
              call_hook-paid_out cfg.denom to
                (map (tell (record { key = a; old = lookup a st.members; new = new })) st.hooks)),
        )
      ]

  module _ (env : Env) (st st' : State) (out : List Message) (good : IsBook st)
      (known : st.config ≡ some cfg) where
    execute_bond-Accounts :
        (b : Balance) (sender to : ℕ)
        → execute_bond h c cl env b sender st ≡ ok (st', out)
        → Accounts (balance_of cfg.denom b) st st' to out
    unfolding execute_bond
    execute_bond-Accounts b sender to e = elim (Result-cases (payment cfg.denom b)) [
      | inl (paid, accepted) ↦
          let old = unwrap_or (lookup sender st.stake) 0 in
          let book = insert sender (old + paid) st.stake in
          let (stake, claims, config, out_lem) =
            update_membership-paid_out sender (old + paid) cfg (record st { stake = book }) st' out
              (ground (arith, h.add_128_lem old paid)) in
          record {
            same_config = ground arith;
            book = record {
              stake_is_map = rw stake (insert-IsMap sender (old + paid) st.stake good.stake_is_map);
              claims_is_map = rw claims good.claims_is_map;
            };
            balanced = ground (
              arith,
              sum_by-insert (λ n. n) sender (old + paid) st.stake good.stake_is_map,
              payment-balance_of cfg.denom b paid,
              out_lem to,
            );
            only = λ k ne. out_lem k;
          }
      | inr refused ↦ absurd (ground arith)
    ]

    execute_unbond-Accounts :
        (info : MessageInfo) (amount : ℕ)
        → execute_unbond h c cl env info amount st ≡ ok (st', out)
        → Accounts 0 st st' info.sender out
    unfolding execute_unbond
    execute_unbond-Accounts info amount e =
        let old = unwrap_or (lookup info.sender st.stake) 0 in
        elim (Option-cases (h.after cfg.unbonding_period env.block)) [
          | inl stopped ↦ absurd (ground (arith, h.sub_128_lem old amount))
          | inr (at_end, over) ↦
              elim (Result-cases (cl.create_claim st.claims info.sender amount at_end)) [
                | inl (created, done) ↦
                    let claim : Claim = record { amount = amount; release_at = at_end } in
                    let before = claims_of info.sender st.claims in
                    let book = insert info.sender (old - amount) st.stake in
                    let (stake, claims, config, out_lem) =
                      update_membership-paid_out info.sender (old - amount) cfg
                        (record st { stake = book; claims = created }) st' out
                        (ground (arith, h.sub_128_lem old amount)) in
                    record {
                      same_config = ground arith;
                      book = record {
                        stake_is_map =
                            rw stake
                              (insert-IsMap info.sender (old - amount) st.stake good.stake_is_map);
                        claims_is_map =
                            rw
                              (
                                claims,
                                cl.create_claim_lem st.claims created info.sender amount at_end
                                    done,
                              )
                              (insert-IsMap info.sender (before ++ (claim ∷ [])) st.claims
                                good.claims_is_map);
                      };
                      balanced = ground (
                        arith,
                        h.sub_128_lem old amount,
                        sum_by-insert (λ n. n) info.sender (old - amount) st.stake
                            good.stake_is_map,
                        cl.create_claim_lem st.claims created info.sender amount at_end done,
                        sum_by-insert pending info.sender (before ++ (claim ∷ [])) st.claims
                            good.claims_is_map,
                        pending-++ before (claim ∷ []),
                        out_lem info.sender,
                      );
                      only = λ k ne. out_lem k;
                    }
                | inr refused ↦ absurd (ground (arith, h.sub_128_lem old amount))
              ]
        ]

    execute_claim-Accounts :
        (info : MessageInfo)
        → execute_claim h c cl env info st ≡ ok (st', out)
        → Accounts 0 st st' info.sender out
    unfolding execute_claim
    execute_claim-Accounts info e =
        elim (Result-cases (cl.claim_tokens st.claims info.sender env.block none)) [
          | inl (r, done) ↦
              let before = claims_of info.sender st.claims in
              let (released, e') =
                cl.claim_tokens_lem st.claims r.1 info.sender r.0 env.block done in
              let all : (st' ≡ record st { claims = r.1 })
                  × (out ≡ pay_out cfg.denom info.sender r.0 ∷ []) =
                ground arith in
              record {
                same_config = ground arith;
                book = record {
                  stake_is_map = rw all.0 good.stake_is_map;
                  claims_is_map =
                      rw (all.0, e')
                        (insert-IsMap info.sender (waiting h env.block before) st.claims
                          good.claims_is_map);
                };
                balanced = ground (
                  arith,
                  sum_by-insert pending info.sender (waiting h env.block before) st.claims
                      good.claims_is_map,
                  due-waiting h env.block before,
                  pay_out-pays cfg.denom info.sender r.0,
                );
                only = λ k ne. ground (arith, pay_out-nothing cfg.denom k info.sender r.0);
              }
          | inr refused ↦ absurd (ground arith)
        ]

    quiet-Accounts :
        (info : MessageInfo) (msg : ExecuteMsg)
        → IsQuiet msg
        → st'.stake ≡ st.stake
        → st'.claims ≡ st.claims
        → st'.config ≡ st.config
        → out ≡ []
        → Accounts (paid_in cfg.denom info msg) st st' info.sender out
    quiet-Accounts info msg q stake claims config nothing = record {
      same_config = config;
      book = record {
        stake_is_map = rw stake good.stake_is_map;
        claims_is_map = rw claims good.claims_is_map;
      };
      balanced = ground (arith, IsQuiet-paid_in cfg.denom info msg q);
      only = λ k ne. rw nothing refl;
    }

    execute_receive-Accounts :
        (from_json : Binary → Result StdError ReceiveMsg) (info : MessageInfo)
        (msg : Cw20ReceiveMsg)
        → execute_receive h c cl from_json env info msg st ≡ ok (st', out)
        → Accounts (paid_in cfg.denom info (ExecuteMsg.receive msg)) st st' info.sender out
    unfolding execute_receive
    execute_receive-Accounts from_json info msg e = elim (Result-cases (from_json msg.msg)) [
      | inl (m, parsed) ↦ elim (Result-cases (h.addr_validate msg.sender)) [
        | inl (sender, v) ↦
            let b = Balance.cw20 (record { address = info.sender; amount = msg.amount }) in
            subst (λ n. Accounts n st st' info.sender out) (balance_of-receive cfg.denom info msg)
              (execute_bond-Accounts b sender info.sender (ground arith))
        | inr refused ↦ absurd (ground arith)
      ]
      | inr refused ↦ absurd (ground arith)
    ]

    -- A message that is handled changes what all stakers are owed, their stakes and claims
    -- together, by what it bonds, with a bond's coins or a cw20's receive, less what it pays out of
    -- the staked token; and it pays to nobody but its sender.
    pub execute-Accounts :
        (from_json : Binary → Result StdError ReceiveMsg) (info : MessageInfo) (msg : ExecuteMsg)
        → execute h c cl from_json env info msg st ≡ ok (st', out)
        → Accounts (paid_in cfg.denom info msg) st st' info.sender out
    unfolding execute
    execute-Accounts from_json info ExecuteMsg.bond e =
        subst (λ n. Accounts n st st' info.sender out) (balance_of-bond cfg.denom info)
          (execute_bond-Accounts (Balance.native info.funds) info.sender info.sender e)
    execute-Accounts from_json info (ExecuteMsg.receive msg) e =
        execute_receive-Accounts from_json info msg e
    execute-Accounts from_json info (ExecuteMsg.unbond amount) e =
        subst (λ n. Accounts n st st' info.sender out)
          (IsQuiet-paid_in cfg.denom info (ExecuteMsg.unbond amount) tt)
          (execute_unbond-Accounts info amount e)
    execute-Accounts from_json info ExecuteMsg.claim e =
        subst (λ n. Accounts n st st' info.sender out)
          (IsQuiet-paid_in cfg.denom info ExecuteMsg.claim tt) (execute_claim-Accounts info e)
    execute-Accounts from_json info (ExecuteMsg.update_admin admin) e =
        quiet-Accounts info (ExecuteMsg.update_admin admin) tt (ground arith) (ground arith)
          (ground arith) (ground arith)
    execute-Accounts from_json info (ExecuteMsg.add_hook addr) e =
        quiet-Accounts info (ExecuteMsg.add_hook addr) tt (ground arith) (ground arith)
          (ground arith) (ground arith)
    execute-Accounts from_json info (ExecuteMsg.remove_hook addr) e =
        quiet-Accounts info (ExecuteMsg.remove_hook addr) tt (ground arith) (ground arith)
          (ground arith) (ground arith)
