-- ===== src/Host.antt =====
-- What the contracts take from outside this repository: the crates cosmwasm_std, cw_utils and
-- cw_storage_plus. Data that the contracts match on has its constructors here. What they only pass
-- on is a number that stands for it. The functions of those crates are the fields of `Host`, and
-- each field that ends in `_lem` states what the crate's documentation says of one.
use cw_plus.Base.{
  ℕ, ◌+◌, ◌-◌, ◌*◌, ◌/◌, ◌≤◌, ◌≡◌, Bool, Option, none, some, List, Ordering, Result, ok, leb,
  u64_max, u128_max, if◌then◌else◌,
}

-- A Rust `String`, numbered in its lexicographic order (all texts of a bounded length can be).
abbrev pub Text : Type 0
Text = ℕ

-- An `Addr` is a validated text.
abbrev pub Addr : Type 0
Addr = ℕ

-- cw_utils's `Expiration` and `Duration`: the contracts hand them to `Host` only.
abbrev pub Expiration : Type 0
Expiration = ℕ

abbrev pub Duration : Type 0
Duration = ℕ

-- `Decimal`, as its atomics: 10^18 of them make one.
abbrev pub Decimal : Type 0
Decimal = ℕ

abbrev pub decimal_one : ℕ
decimal_one = 1_000_000_000_000_000_000

-- A `Binary`.
abbrev pub Binary : Type 0
Binary = List ℕ

-- A `CosmosMsg` that is stored and sent on as it is.
abbrev pub CosmosMsg : Type 0
CosmosMsg = ℕ

-- `BlockInfo`
pub record Block : Type 0 where
  pub height : ℕ
  pub time : ℕ

-- The variants of `StdError` that the contracts meet.
pub data StdError : Type 0 where
  overflow invalid_address parse_error : StdError
  not_found : StdError
  generic_err : StdError

-- `Threshold`
pub data Threshold : Type 0 where
  absolute_count : (weight : ℕ) → Threshold
  absolute_percentage : (percentage : Decimal) → Threshold
  threshold_quorum : (threshold quorum : Decimal) → Threshold

pub data ThresholdError : Type 0 where
  invalid_threshold zero_quorum_threshold unreachable_quorum_threshold : ThresholdError
  zero_weight unreachable_weight : ThresholdError

-- A `ThresholdResponse`, which queries return.
abbrev pub ThresholdResponse : Type 0
ThresholdResponse = ℕ

-- What a validated threshold promises.
abbrev pub IsReachable : Threshold → ℕ → Type 0
IsReachable (absolute_count weight) total = weight ≤ total
IsReachable (absolute_percentage percentage) total = percentage ≤ decimal_one
IsReachable (threshold_quorum threshold quorum) total =
    (threshold ≤ decimal_one) × (quorum ≤ decimal_one)

-- A crate's semantic version, as cw2 stores it.
abbrev pub Version : Type 0
Version = ℕ

-- `Env` and `MessageInfo`, as far as the contracts read them.
pub record Env : Type 0 where
  pub block : Block
  pub contract : Addr

pub record Coin : Type 0 where
  pub denom : Text
  pub amount : ℕ

pub record MessageInfo : Type 0 where
  pub sender : Addr
  pub funds : List Coin

pub record Host : Type 0 where
  -- `Api::addr_validate`; the address carries the text that was validated.
  pub addr_validate : Text → Result StdError Addr
  pub addr_validate_lem : (s a : ℕ) → addr_validate s ≡ ok a → a ≡ s
  -- `str::as_bytes` and `str::trim().is_empty()`, on numbered texts.
  pub as_bytes : Text → List ℕ
  pub is_blank : Text → Bool
  -- `Uint128`: `+`, which panics where there is no value, and `checked_sub`.
  pub add_128 : ℕ → ℕ → Option ℕ
  pub sub_128 : ℕ → ℕ → Option ℕ
  pub add_128_lem : (a b : ℕ) → add_128 a b ≡ (if leb (a + b) u128_max then some (a + b) else none)
  pub sub_128_lem : (a b : ℕ) → sub_128 a b ≡ (if leb b a then some (a - b) else none)
  -- `Uint64`: `checked_add` and `checked_sub`.
  pub add_64 : ℕ → ℕ → Option ℕ
  pub sub_64 : ℕ → ℕ → Option ℕ
  pub add_64_lem : (a b : ℕ) → add_64 a b ≡ (if leb (a + b) u64_max then some (a + b) else none)
  pub sub_64_lem : (a b : ℕ) → sub_64 a b ≡ (if leb b a then some (a - b) else none)
  -- `Uint128::mul_floor` by a `Decimal`; the product is formed in 256 bits.
  pub mul_floor : ℕ → Decimal → Option ℕ
  pub mul_floor_lem :
      (x p : ℕ)
      → mul_floor x p
        ≡ (if leb (x * p / decimal_one) u128_max then some (x * p / decimal_one) else none)
  -- `-` on `Decimal`, which panics below zero.
  pub sub_decimal : Decimal → Decimal → Option Decimal
  pub sub_decimal_lem : (p q : ℕ) → sub_decimal p q ≡ (if leb q p then some (p - q) else none)
  -- `Expiration`: `is_expired`, `default`, `partial_cmp`, and `Duration::after`,
  -- which panics where there is no value.
  pub is_expired : Expiration → Block → Bool
  pub default_expiration : Expiration
  pub partial_cmp : Expiration → Expiration → Option Ordering
  pub after : Duration → Block → Option Expiration
  -- `Threshold::validate`
  pub validate : Threshold → ℕ → Result ThresholdError (Unit {0})
  pub validate_lem : (t : Threshold) (total : ℕ) → validate t total ≡ ok tt → IsReachable t total
  -- `Threshold::to_response`
  pub to_response : Threshold → ℕ → ThresholdResponse
  -- cw2: the version of the running build, `ensure_from_older_version`, which stores that version
  -- and returns the one that was stored, and the order of versions.
  pub contract_version : Version
  pub ensure_from_older_version : Option Version → Result StdError Version
  pub is_before_0_14_0 : Version → Bool
