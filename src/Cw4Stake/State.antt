-- ===== src/Cw4Stake/State.antt =====
-- state.rs, msg.rs and error.rs of contracts/cw4-stake, and the claims of the crate cw_controllers.
use cw_plus.Base.{
  ℕ, ◌+◌, ◌≤◌, ◌≡◌, Option, none, List, [], ◌∷◌, ◌++◌, Result, ok, if◌then◌else◌, unwrap_or,
  u128_max,
}
use cw_plus.Base.Dict.{Dict, lookup, insert}
use cw_plus.Host.{Host, Text, Addr, Expiration, Duration, StdError, Version, Block}
use cw_plus.Cw3.{Denom}
use cw_plus.Cw20.{Cw20ReceiveMsg}
use cw_plus.Cw4Group.State.{AdminError, HookError, HookCall}

-- `Claim` of cw_controllers
pub record Claim : Type 0 where
  pub amount : ℕ
  pub release_at : Expiration

abbrev pub claims_of : Addr → Dict (List Claim) → List Claim
claims_of a book = unwrap_or (lookup a book) []

module _ (h : Host) (block : Block) where
  -- What is due at a block, and the claims that are not.
  abbrev pub due : List Claim → ℕ
  due [] = 0
  due (c ∷ cs) = (if h.is_expired c.release_at block then c.amount else 0) + due cs

  abbrev pub waiting : List Claim → List Claim
  waiting [] = []
  waiting (c ∷ cs) = if h.is_expired c.release_at block then waiting cs else c ∷ waiting cs

-- `Claims` of cw_controllers on the entries that it stores: a claim is added to those of its
-- address, and claiming without a cap takes out all that are due and tells their sum.
pub record Claims (h : Host) : Type 0 where
  pub create_claim : Dict (List Claim) → Addr → ℕ → Expiration → Result StdError (Dict (List Claim))
  pub create_claim_lem :
      (book book' : Dict (List Claim)) (a amount release_at : ℕ)
      → create_claim book a amount release_at ≡ ok book'
      → book'
        ≡ insert a
            (claims_of a book ++ (record { amount = amount; release_at = release_at } ∷ []))
            book
  pub claim_tokens :
      Dict (List Claim) → Addr → Block → Option ℕ → Result StdError (ℕ × Dict (List Claim))
  pub claim_tokens_lem :
      (book book' : Dict (List Claim)) (a released : ℕ) (block : Block)
      → claim_tokens book a block none ≡ ok (released, book')
      → (released ≡ due h block (claims_of a book))
        × (book' ≡ insert a (waiting h block (claims_of a book)) book)
  -- It returns where the sum is a `Uint128`.
  pub claim_tokens_returns :
      (book : Dict (List Claim)) (a : ℕ) (block : Block)
      → due h block (claims_of a book) ≤ u128_max
      → (r : ℕ × Dict (List Claim)) × (claim_tokens book a block none ≡ ok r)

-- `Config`
pub record Config : Type 0 where
  pub denom : Denom
  pub tokens_per_weight : ℕ
  pub min_bond : ℕ
  pub unbonding_period : Duration

-- The storage: ADMIN, HOOKS, CONFIG, TOTAL, MEMBERS at the current height, STAKE and CLAIMS.
pub record State : Type 0 where
  pub version : Option Version
  pub admin : Option Addr
  pub hooks : List Addr
  pub config : Option Config
  pub total : Option ℕ
  pub members : Dict ℕ
  pub stake : Dict ℕ
  pub claims : Dict (List Claim)

-- `InstantiateMsg`
pub record InstantiateMsg : Type 0 where
  pub denom : Denom
  pub tokens_per_weight : ℕ
  pub min_bond : ℕ
  pub unbonding_period : Duration
  pub admin : Option Text

-- `ExecuteMsg`
pub data ExecuteMsg : Type 0 where
  bond : ExecuteMsg
  unbond : (tokens : ℕ) → ExecuteMsg
  claim : ExecuteMsg
  update_admin : (admin : Option Text) → ExecuteMsg
  add_hook : (addr : Text) → ExecuteMsg
  remove_hook : (addr : Text) → ExecuteMsg
  receive : Cw20ReceiveMsg → ExecuteMsg

-- `ReceiveMsg`
pub data ReceiveMsg : Type 0 where
  bond_received : ReceiveMsg

-- `ContractError`
pub data ContractError : Type 0 where
  std : StdError → ContractError
  admin : AdminError → ContractError
  hook : HookError → ContractError
  unauthorized nothing_to_claim no_funds no_data : ContractError
  missing_denom extra_denoms invalid_denom : Text → ContractError
  mixed_native_and_cw20 : ContractError

-- The messages that the contract sends: to a hook, `BankMsg::Send` and the `Transfer` of a cw20.
pub data Message : Type 0 where
  call_hook : HookCall → Message
  bank_send : (to_address : Text) (amount : ℕ) (denom : Text) → Message
  cw20_transfer : (contract_addr : Addr) (recipient : Text) (amount : ℕ) → Message

abbrev pub Outcome : Type 0
Outcome = Result ContractError (State × List Message)
