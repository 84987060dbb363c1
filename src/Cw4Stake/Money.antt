-- ===== src/Cw4Stake/Money.antt =====
-- What contracts/cw4-stake owes, takes in and pays out, in the token that it stakes.
use cw_plus.Base.{ℕ, ◌+◌, ◌≢◌, ◌≡◌, ◌==◌, List, [], ◌∷◌, ◌++◌, map, ok, arith, refl, if◌then◌else◌}
use cw_plus.Base.Dict.{IsMap}
use cw_plus.Base.Dict.Sum.{sum_by}
use cw_plus.Host.{Host, Text, Addr, Coin, Block, MessageInfo}
use cw_plus.Cw3.{Denom}
use cw_plus.Cw20.{Balance, Cw20ReceiveMsg}
use cw_plus.Cw4Group.State.{HookCall}
use cw_plus.Cw4Stake.State.{
  Claim, due, waiting, State, ExecuteMsg, Message, call_hook, bank_send, cw20_transfer,
}
use cw_plus.Cw4Stake.Handlers.{payment, must_pay_funds, pay_out}

-- The sum of claims, due or not.
abbrev pub pending : List Claim → ℕ
pending [] = 0
pending (c ∷ cs) = c.amount + pending cs

-- All stakes and all claims.
abbrev pub owed : State → ℕ
owed st = sum_by (λ n. n) st.stake + sum_by pending st.claims

pub record IsBook (st : State) : Type 0 where
  pub stake_is_map : IsMap st.stake
  pub claims_is_map : IsMap st.claims

-- How much of a denomination coins are.
abbrev pub coins_of : Text → List Coin → ℕ
coins_of d [] = 0
coins_of d (c ∷ cs) = (if c.denom == d then c.amount else 0) + coins_of d cs

-- What a message brings in: the coins sent along with a bond, or the tokens that the cw20 of the
-- configuration tells of.
abbrev pub paid_in : Denom → MessageInfo → ExecuteMsg → ℕ
paid_in (Denom.native d) info ExecuteMsg.bond = coins_of d info.funds
paid_in (Denom.cw20 a) info (ExecuteMsg.receive msg) = if a == info.sender then msg.amount else 0
paid_in _ _ _ = 0

-- What a message that is sent pays of the staked token to an account.
abbrev pub pays : Denom → Addr → Message → ℕ
pays (Denom.native d) to (bank_send to' amount d') =
    if to == to' then (if d == d' then amount else 0) else 0
pays (Denom.cw20 a) to (cw20_transfer a' to' amount) =
    if to == to' then (if a == a' then amount else 0) else 0
pays _ _ _ = 0

abbrev pub paid_out : Denom → Addr → List Message → ℕ
paid_out d to [] = 0
paid_out d to (m ∷ ms) = pays d to m + paid_out d to ms

pub call_hook-paid_out :
    (d : Denom) (to : ℕ) (calls : List HookCall) → paid_out d to (map call_hook calls) ≡ 0
call_hook-paid_out d to [] = refl
call_hook-paid_out (Denom.native d) to (x ∷ xs) =
    omega (arith, call_hook-paid_out (Denom.native d) to xs)
call_hook-paid_out (Denom.cw20 d) to (x ∷ xs) =
    omega (arith, call_hook-paid_out (Denom.cw20 d) to xs)

pub pending-++ : (cs ds : List Claim) → pending (cs ++ ds) ≡ pending cs + pending ds
pending-++ [] ds = omega arith
pending-++ (c ∷ cs) ds = omega (arith, pending-++ cs ds)

pub due-waiting :
    (h : Host) (block : Block) (cs : List Claim)
    → due h block cs + pending (waiting h block cs) ≡ pending cs
due-waiting h block [] = refl
due-waiting h block (c ∷ cs) = ground (arith, due-waiting h block cs)

must_pay_funds-coins_of :
    (d n : ℕ) (coins : List Coin) → must_pay_funds coins d ≡ ok n → coins_of d coins ≡ n
unfolding must_pay_funds
must_pay_funds-coins_of d n [] e = absurd (ground arith)
must_pay_funds-coins_of d n (c ∷ []) e = ground arith
must_pay_funds-coins_of d n (c ∷ c' ∷ cs) e = absurd (ground arith)

-- What a bond with a balance pays.
abbrev pub balance_of : Denom → Balance → ℕ
balance_of (Denom.native d) (Balance.native coins) = coins_of d coins
balance_of (Denom.cw20 a) (Balance.cw20 coin) = if a == coin.address then coin.amount else 0
balance_of _ _ = 0

pub payment-balance_of : (d : Denom) (b : Balance) (n : ℕ) → payment d b ≡ ok n → balance_of d b ≡ n
unfolding payment
payment-balance_of (Denom.native d) (Balance.native coins) n e = must_pay_funds-coins_of d n coins e
payment-balance_of (Denom.cw20 a) (Balance.cw20 coin) n e = ground arith
payment-balance_of (Denom.native d) (Balance.cw20 coin) n e = absurd (ground arith)
payment-balance_of (Denom.cw20 a) (Balance.native coins) n e = absurd (ground arith)

pub balance_of-bond :
    (d : Denom) (info : MessageInfo)
    → balance_of d (Balance.native info.funds) ≡ paid_in d info ExecuteMsg.bond
balance_of-bond (Denom.native d) info = refl
balance_of-bond (Denom.cw20 a) info = refl

pub balance_of-receive :
    (d : Denom) (info : MessageInfo) (msg : Cw20ReceiveMsg)
    → balance_of d (Balance.cw20 (record { address = info.sender; amount = msg.amount }))
      ≡ paid_in d info (ExecuteMsg.receive msg)
balance_of-receive (Denom.native d) info msg = refl
balance_of-receive (Denom.cw20 a) info msg = refl

-- A message that brings nothing in.
abbrev pub IsQuiet : ExecuteMsg → Type 0
IsQuiet ExecuteMsg.bond = ⊥
IsQuiet (ExecuteMsg.receive _) = ⊥
IsQuiet _ = Unit

pub IsQuiet-paid_in :
    (d : Denom) (info : MessageInfo) (msg : ExecuteMsg) → IsQuiet msg → 0 ≡ paid_in d info msg
IsQuiet-paid_in d info ExecuteMsg.bond q = absurd q
IsQuiet-paid_in d info (ExecuteMsg.receive m) q = absurd q
IsQuiet-paid_in (Denom.native d) info (ExecuteMsg.unbond n) q = refl
IsQuiet-paid_in (Denom.cw20 a) info (ExecuteMsg.unbond n) q = refl
IsQuiet-paid_in (Denom.native d) info ExecuteMsg.claim q = refl
IsQuiet-paid_in (Denom.cw20 a) info ExecuteMsg.claim q = refl
IsQuiet-paid_in (Denom.native d) info (ExecuteMsg.update_admin n) q = refl
IsQuiet-paid_in (Denom.cw20 a) info (ExecuteMsg.update_admin n) q = refl
IsQuiet-paid_in (Denom.native d) info (ExecuteMsg.add_hook n) q = refl
IsQuiet-paid_in (Denom.cw20 a) info (ExecuteMsg.add_hook n) q = refl
IsQuiet-paid_in (Denom.native d) info (ExecuteMsg.remove_hook n) q = refl
IsQuiet-paid_in (Denom.cw20 a) info (ExecuteMsg.remove_hook n) q = refl

pub pay_out-pays : (d : Denom) (to n : ℕ) → pays d to (pay_out d to n) ≡ n
unfolding pay_out
pay_out-pays (Denom.native d) to n = ground arith
pay_out-pays (Denom.cw20 a) to n = ground arith

pub pay_out-nothing : (d : Denom) (k to n : ℕ) → k ≢ to → pays d k (pay_out d to n) ≡ 0
unfolding pay_out
pay_out-nothing (Denom.native d) k to n ne = ground arith
pay_out-nothing (Denom.cw20 a) k to n ne = ground arith
