-- ===== src/Tests/Claims.antt =====
-- The claims of cw_controllers as plain functions, for the runs of contracts/cw4-stake.
use cw_plus.Base.{
  ℕ, ◌≤◌, ◌≡◌, leb, Option, none, List, [], ◌∷◌, ◌++◌, Result, ok, err, arith, u128_max,
  if◌then◌else◌,
}
use cw_plus.Base.Dict.{Dict, insert}
use cw_plus.Host.{Addr, Expiration, Block, StdError}
use cw_plus.Cw4Stake.State.{Claim, claims_of, due, waiting, Claims}
use cw_plus.Tests.{plain_host}

abbrev pub records : Dict (List Claim) → Addr → ℕ → Expiration → Result StdError (Dict (List Claim))
records book a amount release_at =
    ok (
      insert a (claims_of a book ++ (record { amount = amount; release_at = release_at } ∷ []))
        book)

pub records_lem :
    (book book' : Dict (List Claim)) (a amount release_at : ℕ)
    → records book a amount release_at ≡ ok book'
    → book'
      ≡ insert a
          (claims_of a book ++ (record { amount = amount; release_at = release_at } ∷ []))
          book
records_lem book book' a amount release_at e = ground arith

-- Without a cap; the sum is a `Uint128`.
abbrev pub pays_due :
    Dict (List Claim) → Addr → Block → Option ℕ → Result StdError (ℕ × Dict (List Claim))
pays_due book a block cap =
    let sum = due plain_host block (claims_of a book) in
    if leb sum u128_max
    then ok (sum, insert a (waiting plain_host block (claims_of a book)) book)
    else err StdError.overflow

pub pays_due_lem :
    (book book' : Dict (List Claim)) (a released : ℕ) (block : Block)
    → pays_due book a block none ≡ ok (released, book')
    → (released ≡ due plain_host block (claims_of a book))
      × (book' ≡ insert a (waiting plain_host block (claims_of a book)) book)
pays_due_lem book book' a released block e = (ground arith, ground arith)

pub pays_due_returns :
    (book : Dict (List Claim)) (a : ℕ) (block : Block)
    → due plain_host block (claims_of a book) ≤ u128_max
    → (r : ℕ × Dict (List Claim)) × (pays_due book a block none ≡ ok r)
pays_due_returns book a block le = (
  (
    due plain_host block (claims_of a book),
    insert a (waiting plain_host block (claims_of a book)) book,
  ),
  ground arith,
)

abbrev pub plain_claims : Claims plain_host
plain_claims = record {
  create_claim = records;
  create_claim_lem = records_lem;
  claim_tokens = pays_due;
  claim_tokens_lem = pays_due_lem;
  claim_tokens_returns = pays_due_returns;
}
