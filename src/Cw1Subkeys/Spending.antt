-- ===== src/Cw1Subkeys/Spending.antt =====
-- What a subkey of contracts/cw1-subkeys can do: spend what it is allowed, and nothing else.
use cw_plus.Base.{
  ℕ, ◌+◌, ◌≡◌, ◌≢◌, true, false, Option, none, some, List, [], ◌∷◌, ok, arith, refl, subst, inl,
  inr, Result-cases,
}
use cw_plus.Base.Dict.{lookup, insert, lookup-insert}
use cw_plus.Host.{Host, Text, Coin, Block}
use cw_plus.Cw1Subkeys.State.{
  Wallets, amount_of, StakingMsg, delegate, undelegate, redelegate, other_staking, DistributionMsg,
  set_withdraw_address, withdraw_delegator_reward, other_distribution, Message, staking,
  distribution, bank_send, other, Permissions, Allowance, State,
}
use cw_plus.Cw1Subkeys.Handlers.{
  check_staking_permissions, check_distribution_permissions, check_message, check_messages,
}

-- What the account may still spend of a denomination.
abbrev pub left_of : Option Allowance → Text → ℕ
left_of none d = 0
left_of (some a) d = amount_of d a.balance

-- What messages send away of a denomination.
abbrev pub sent_by : Text → Message → ℕ
sent_by d (bank_send _ amount) = amount_of d amount
sent_by d _ = 0

abbrev pub spent : Text → List Message → ℕ
spent d [] = 0
spent d (m ∷ ms) = sent_by d m + spent d ms

-- A message that needs a permission has it, and no other kind but a transfer is among them.
abbrev pub IsPermitted : Option Permissions → Message → Type 0
IsPermitted (some p) (staking (delegate _ _)) = p.delegate ≡ true
IsPermitted (some p) (staking (undelegate _ _)) = p.undelegate ≡ true
IsPermitted (some p) (staking (redelegate _ _ _)) = p.redelegate ≡ true
IsPermitted (some p) (distribution (set_withdraw_address _)) = p.withdraw ≡ true
IsPermitted (some p) (distribution (withdraw_delegator_reward _)) = p.withdraw ≡ true
IsPermitted _ (bank_send _ _) = Unit
IsPermitted _ _ = ⊥

abbrev pub ArePermitted : Option Permissions → List Message → Type 0
ArePermitted p [] = Unit
ArePermitted p (m ∷ ms) = IsPermitted p m × ArePermitted p ms

-- A step of one account: of the storage it changes only its own allowance, by what it spends.
pub record Spends (sender : ℕ) (ms : List Message) (st st' : State) : Type 0 where
  pub same_whitelist : st'.whitelist ≡ st.whitelist
  pub same_permissions : st'.permissions ≡ st.permissions
  pub same_others : (k : ℕ) → k ≢ sender → lookup k st'.allowances ≡ lookup k st.allowances
  pub covered :
      (d : ℕ)
      → left_of (lookup sender st'.allowances) d + spent d ms
        ≡ left_of (lookup sender st.allowances) d
  pub permitted : ArePermitted (lookup sender st.permissions) ms

module _ (h : Host) (w : Wallets) (block : Block) (sender : ℕ) where
  -- What one message does: nothing is saved, or the balance that is left.
  check_bank_send :
      (to : Text) (coins : List Coin) (st st' : State)
      → check_message h w block sender (bank_send to coins) st ≡ ok st'
      → (a : Allowance) × (b : List Coin) × (lookup sender st.allowances ≡ some a)
        × (w.sub a.balance coins ≡ ok b)
        × (h.is_expired a.expires block ≡ false)
        × (st' ≡ record st { allowances = insert sender (record a { balance = b }) st.allowances })
  unfolding check_message
  check_bank_send to coins st st' e = ground arith

  unchanged-Spends :
      (m : Message) (st st' : State)
      → st' ≡ st
      → IsPermitted (lookup sender st.permissions) m
      → ((d : ℕ) → sent_by d m ≡ 0)
      → Spends sender (m ∷ []) st st'
  unchanged-Spends m st st' e p nothing = record {
    same_whitelist = ground arith;
    same_permissions = ground arith;
    same_others = λ k ne. ground arith;
    covered = λ d. ground (arith, nothing d);
    permitted = (p, tt);
  }

  staking-IsPermitted :
      (m : StakingMsg) (st st' : State)
      → check_message h w block sender (staking m) st ≡ ok st'
      → IsPermitted (lookup sender st.permissions) (staking m)
  unfolding check_message check_staking_permissions
  staking-IsPermitted (delegate v c) st st' e = ground arith
  staking-IsPermitted (undelegate v c) st st' e = ground arith
  staking-IsPermitted (redelegate v v' c) st st' e = ground arith
  staking-IsPermitted (other_staking n) st st' e = ground arith

  distribution-IsPermitted :
      (m : DistributionMsg) (st st' : State)
      → check_message h w block sender (distribution m) st ≡ ok st'
      → IsPermitted (lookup sender st.permissions) (distribution m)
  unfolding check_message check_distribution_permissions
  distribution-IsPermitted (set_withdraw_address a) st st' e = ground arith
  distribution-IsPermitted (withdraw_delegator_reward v) st st' e = ground arith
  distribution-IsPermitted (other_distribution n) st st' e = ground arith

  check_message-Spends :
      (m : Message) (st st' : State)
      → check_message h w block sender m st ≡ ok st'
      → Spends sender (m ∷ []) st st'
  unfolding check_message check_staking_permissions check_distribution_permissions
  check_message-Spends (staking m) st st' e =
      unchanged-Spends (staking m) st st' (ground arith) (staking-IsPermitted m st st' e)
        (λ d. refl)
  check_message-Spends (distribution m) st st' e =
      unchanged-Spends (distribution m) st st' (ground arith) (distribution-IsPermitted m st st' e)
        (λ d. refl)
  check_message-Spends (other m) st st' e = absurd (ground arith)
  check_message-Spends (bank_send to coins) st st' e =
      let (a, b, found, subtracted, live, e') = check_bank_send to coins st st' e in
      let saved : Allowance = record a { balance = b } in
      record {
        same_whitelist = ground arith;
        same_permissions = ground arith;
        same_others = λ k ne. ground (arith, lookup-insert k sender saved st.allowances);
        covered = λ d.
            ground (
              arith,
              lookup-insert sender sender saved st.allowances,
              w.sub_lem a.balance b coins d,
            );
        permitted = ground arith;
      }

  pub check_messages-Spends :
      (ms : List Message) (st st' : State)
      → check_messages h w block sender ms st ≡ ok st'
      → Spends sender ms st st'
  unfolding check_messages
  check_messages-Spends [] st st' e = record {
    same_whitelist = ground arith;
    same_permissions = ground arith;
    same_others = λ k ne. ground arith;
    covered = λ d. ground arith;
    permitted = tt;
  }
  check_messages-Spends (m ∷ ms) st st' e =
      elim (Result-cases (check_message h w block sender m st)) [
        | inl (next, checked) ↦
            let one : Spends sender (m ∷ []) st next = check_message-Spends m st next checked in
            let all : Spends sender ms next st' =
              check_messages-Spends ms next st' (ground arith) in
            record {
              same_whitelist = ground (arith, one.same_whitelist, all.same_whitelist);
              same_permissions = ground (arith, one.same_permissions, all.same_permissions);
              same_others = λ k ne. ground (arith, one.same_others k ne, all.same_others k ne);
              covered = λ d. ground (arith, one.covered d, all.covered d);
              permitted = (
                one.permitted.0,
                subst (λ p. ArePermitted (lookup sender p) ms) one.same_permissions all.permitted,
              );
            }
        | inr refused ↦ absurd (ground arith)
      ]
