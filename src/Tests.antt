-- ===== src/Tests.antt =====
-- A chain to run the contracts on: the parameters of `Host` as plain functions on numbers.
pub mod Token
pub mod Voting
pub mod Genesis
pub mod Answers
pub mod Group
pub mod Proxy
pub mod Multisig
pub mod Wallets
pub mod Subkeys
pub mod Claims
pub mod Stake
pub mod Flex
pub mod Ics20
pub mod Channels
use cw_plus.Base.{
  ℕ, ◌+◌, ◌-◌, ◌*◌, ◌/◌, ◌≤◌, ◌≡◌, ◌&&◌, Bool, false, Option, none, some, Ordering, Result, ok, err,
  leb, ltb, u64_max, u128_max, if◌then◌else◌, unwrap_or, refl, arith, [], ◌∷◌, List,
}
use cw_plus.Host.{
  Host, Threshold, absolute_count, absolute_percentage, threshold_quorum, ThresholdError,
  decimal_one, IsReachable, Env, MessageInfo, Coin, StdError,
}

-- `Threshold::validate`, without its lower bounds.
unfoldable pub reaches : Threshold → ℕ → Result ThresholdError (Unit {0})
reaches (absolute_count weight) total =
    if leb weight total then ok tt else err ThresholdError.unreachable_weight
reaches (absolute_percentage percentage) total =
    if leb percentage decimal_one then ok tt else err ThresholdError.invalid_threshold
reaches (threshold_quorum threshold quorum) total =
    if leb threshold decimal_one && leb quorum decimal_one
    then ok tt
    else err ThresholdError.unreachable_quorum_threshold

pub reaches_lem : (t : Threshold) (total : ℕ) → reaches t total ≡ ok tt → IsReachable t total
unfolding reaches
reaches_lem (absolute_count weight) total e = ground arith
reaches_lem (absolute_percentage percentage) total e = ground arith
reaches_lem (threshold_quorum threshold quorum) total e = ground arith

abbrev compare : ℕ → ℕ → Option Ordering
compare m n = some (if ltb m n then Ordering.lt else (if ltb n m then Ordering.gt else Ordering.eq))

abbrev pub accepts : ℕ → Result StdError ℕ
accepts s = ok s

pub same_text : (s a : ℕ) → accepts s ≡ ok a → a ≡ s
same_text s a e = ground arith

abbrev pub plain_host : Host
unfolding reaches
plain_host = record {
  addr_validate = accepts;
  addr_validate_lem = same_text;
  as_bytes = λ s. 77 ∷ 65 ∷ 84 ∷ [];
  is_blank = λ s. false;
  add_128 = λ a b. if leb (a + b) u128_max then some (a + b) else none;
  sub_128 = λ a b. if leb b a then some (a - b) else none;
  add_128_lem = λ a b. refl;
  sub_128_lem = λ a b. refl;
  add_64 = λ a b. if leb (a + b) u64_max then some (a + b) else none;
  sub_64 = λ a b. if leb b a then some (a - b) else none;
  add_64_lem = λ a b. refl;
  sub_64_lem = λ a b. refl;
  mul_floor =
      λ x p. if leb (x * p / decimal_one) u128_max then some (x * p / decimal_one) else none;
  mul_floor_lem = λ x p. refl;
  sub_decimal = λ p q. if leb q p then some (p - q) else none;
  sub_decimal_lem = λ p q. refl;
  is_expired = λ e block. leb e block.height;
  default_expiration = 1_000_000;
  partial_cmp = compare;
  after = λ d block. some (block.height + d);
  validate = reaches;
  validate_lem = reaches_lem;
  to_response = λ t total. total;
  contract_version = 20;
  ensure_from_older_version = λ v. ok (unwrap_or v 0);
  is_before_0_14_0 = λ v. ltb v 14;
}

-- The block of a height, on the contract 900.
abbrev pub at : ℕ → Env
at height = record { block = record { height = height; time = 5 * height }; contract = 900 }

-- A message from an account, without funds.
abbrev pub from : ℕ → MessageInfo
from sender = record { sender = sender; funds = [] }
