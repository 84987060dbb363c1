-- ===== src/Tests/Stake.antt =====
-- contracts/cw4-stake with two stakers of a native token.
use cw_plus.Base.{ℕ, ◌/◌, ◌≤◌, ◌≡◌, some, List, [], ◌∷◌, Result, ok, err, refl, arith}
use cw_plus.Base.Dict.{lookup, insert}
use cw_plus.Base.Dict.Sum.{sum_by}
use cw_plus.Host.{Binary, StdError, MessageInfo}
use cw_plus.Cw3.{Denom}
use cw_plus.Cw4Stake.State.{
  Claim, Config, State, ExecuteMsg, ReceiveMsg, bond_received, Message, call_hook, bank_send,
  nothing_to_claim,
}
use cw_plus.Cw4Stake.Handlers.{
  calc_weight, must_pay_funds, payment, same_weight, update_membership, execute_bond,
  execute_unbond, execute_claim, pay_out, execute,
}
use cw_plus.Cw4Stake.Money.{IsBook}
use cw_plus.Cw4Stake.Owed.{Accounts, execute-Accounts}
use cw_plus.Cw4Stake.Scale.{calc_weight-IsWeightOf}
use cw_plus.Cw4Stake.Weights.{IsWeighed, stake_of, execute-IsWeighed}
use cw_plus.Cw4Stake.Waiting.{Others}
use cw_plus.Cw4Stake.Payouts.{execute_unbond-execute_claim, claim_twice}
use cw_plus.Tests.{plain_host, at, from}
use cw_plus.Tests.Group.{plain_controllers}
use cw_plus.Tests.Claims.{plain_claims}

abbrev reads : Binary → Result StdError ReceiveMsg
reads b = ok bond_received

abbrev config : Config
config = record {
  denom = Denom.native 1;
  tokens_per_weight = 10;
  min_bond = 20;
  unbonding_period = 100;
}

-- One hook; the account 4 has 35 staked, the account 6 has 19, which is below the minimum.
abbrev staked : ℕ → List Claim → State
staked n claims = record {
  version = some 20;
  admin = some 3;
  hooks = 70 ∷ [];
  config = some config;
  total = some (n / 10);
  members = (4, n / 10) ∷ [];
  stake = (4, n) ∷ (6, 19) ∷ [];
  claims = (4, claims) ∷ [];
}

abbrev sends : ℕ → ℕ → MessageInfo
sends sender amount = record { sender = sender; funds = record { denom = 1; amount = amount } ∷ [] }

abbrev tells : ℕ → ℕ → Message
tells old new =
    call_hook (record {
      contract_addr = 70;
      diffs = record { key = 4; old = some old; new = some new } ∷ [];
    })

staked-IsWeighed : IsWeighed config (staked 35 [])
unfolding calc_weight lookup sum_by
staked-IsWeighed = record {
  configured = refl;
  totalled = record { is_map = omega arith; summed = refl; is_u64 = omega arith };
  weighed = λ k.
      calc_weight-IsWeightOf config (stake_of k (staked 35 [])) (lookup k (staked 35 []).members)
        (ground arith);
}

staked-IsBook : (claims : List Claim) (n : ℕ) → IsBook (staked n claims)
staked-IsBook claims n = record { stake_is_map = omega arith; claims_is_map = omega arith }

bond_run :
    execute plain_host plain_controllers plain_claims reads
      (at 5)
      (sends 4 17)
      ExecuteMsg.bond
      (staked 35 [])
    ≡ ok (staked 52 [], tells 3 5 ∷ [])
unfolding plain_host execute execute_bond payment must_pay_funds update_membership calc_weight
    same_weight lookup insert
bond_run = refl

execute-IsWeighed_example : IsWeighed config (staked 52 [])
execute-IsWeighed_example =
    execute-IsWeighed plain_host plain_controllers plain_claims config (at 5) (staked 35 [])
      (staked 52 []) (tells 3 5 ∷ []) staked-IsWeighed reads (sends 4 17) ExecuteMsg.bond bond_run

execute-Accounts_example :
    Accounts plain_host plain_controllers plain_claims config 17
      (staked 35 [])
      (staked 52 [])
      4
      (tells 3 5 ∷ [])
execute-Accounts_example =
    execute-Accounts plain_host plain_controllers plain_claims config (at 5) (staked 35 [])
      (staked 52 []) (tells 3 5 ∷ []) (staked-IsBook [] 35) refl reads (sends 4 17) ExecuteMsg.bond
      bond_run

abbrev claim : Claim
claim = record { amount = 5; release_at = 105 }

unbond_run :
    execute_unbond plain_host plain_controllers plain_claims (at 5) (from 4) 5 (staked 35 [])
    ≡ ok (staked 30 (claim ∷ []), [])
unfolding plain_host execute_unbond update_membership calc_weight same_weight lookup insert
unbond_run = refl

claim_run :
    execute_claim plain_host plain_controllers plain_claims
      (at 110)
      (from 4)
      (staked 30 (claim ∷ []))
    ≡ ok (staked 30 [], bank_send 4 5 1 ∷ [])
unfolding plain_host execute_claim pay_out lookup insert
claim_run = refl

execute_unbond-execute_claim_example :
    (n : ℕ) × (5 ≤ n)
    × (end : State) × (execute_claim plain_host plain_controllers plain_claims
          (at 110)
          (from 4)
          (staked 30 (claim ∷ []))
        ≡ ok (end, pay_out (Denom.native 1) 4 n ∷ []))
unfolding plain_host lookup
execute_unbond-execute_claim_example =
    execute_unbond-execute_claim plain_host plain_controllers plain_claims reads (at 5) (at 110)
      (from 4) (from 4) refl config (staked 35 []) (staked 30 (claim ∷ [])) (staked 30 (claim ∷ []))
      [] refl 5 105 unbond_run (omega arith) (Others.stop (staked 30 (claim ∷ []))) refl refl
      (omega arith)

claim_twice_example :
    execute_claim plain_host plain_controllers plain_claims (at 110) (from 4) (staked 30 [])
    ≡ err nothing_to_claim
claim_twice_example =
    claim_twice plain_host plain_controllers plain_claims reads (at 110) (at 110) (from 4) (from 4)
      (staked 30 (claim ∷ [])) (staked 30 []) (staked 30 []) (bank_send 4 5 1 ∷ []) claim_run
      (Others.stop (staked 30 [])) refl refl
