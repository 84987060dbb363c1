-- ===== src/Tests/Wallets.antt =====
-- The wallets of cw_utils as plain functions, for the runs of contracts/cw1-subkeys.
use cw_plus.Base.{
  ℕ, ◌+◌, ◌-◌, ◌≤◌, ◌≡◌, ◌≢◌, ◌==◌, leb, ltb, Bool, true, false, Option, some, List, [], ◌∷◌,
  Result, ok, err, ◌>>=◌, unwrap_or, if◌then◌else◌, refl, arith, inl, inr, Result-cases, Bool-cases,
}
use cw_plus.Host.{Coin, StdError}
use cw_plus.Cw1Subkeys.State.{amount_of, Wallets}

-- What a coin holds of a denomination.
abbrev part : ℕ → Coin → ℕ
part d c = if d == c.denom then c.amount else 0

unfoldable pub sub_coin : List Coin → Coin → Result StdError (List Coin)
sub_coin [] c = if c.amount == 0 then ok [] else err StdError.overflow
sub_coin (x ∷ xs) c = elim (x.denom == c.denom) [
  | true ↦
      (if leb c.amount x.amount
        then ok (record { denom = x.denom; amount = x.amount - c.amount } ∷ xs)
        else err StdError.overflow)
  | false ↦ do less ← sub_coin xs c; ok (x ∷ less)
]

sub_coin_lem :
    (b b' : List Coin) (c : Coin) (d : ℕ)
    → sub_coin b c ≡ ok b'
    → amount_of d b' + part d c ≡ amount_of d b
unfolding sub_coin
sub_coin_lem [] b' c d e = ground arith
sub_coin_lem (x ∷ xs) b' c d e = elim (Bool-cases (x.denom == c.denom)) [
  | inl same ↦ ground arith
  | inr other ↦ elim (Result-cases (sub_coin xs c)) [
    | inl (less, done) ↦ ground (arith, sub_coin_lem xs less c d done)
    | inr refused ↦ absurd (ground arith)
  ]
]

unfoldable pub sub_coins : List Coin → List Coin → Result StdError (List Coin)
sub_coins b [] = ok b
sub_coins b (c ∷ cs) = do less ← sub_coin b c; sub_coins less cs

pub sub_coins_lem :
    (b b' coins : List Coin) (d : ℕ)
    → sub_coins b coins ≡ ok b'
    → amount_of d b' + amount_of d coins ≡ amount_of d b
unfolding sub_coins
sub_coins_lem b b' [] d e = ground arith
sub_coins_lem b b' (c ∷ cs) d e = elim (Result-cases (sub_coin b c)) [
  | inl (less, done) ↦
      ground (arith, sub_coin_lem b less c d done, sub_coins_lem less b' cs d (ground arith))
  | inr refused ↦ absurd (ground arith)
]

abbrev add_coin : List Coin → Coin → Option (List Coin)
add_coin b c = some (c ∷ b)

pub add_coin_lem :
    (b b' : List Coin) (c : Coin) (d : ℕ)
    → add_coin b c ≡ some b'
    → amount_of d b' ≡ amount_of d b + part d c
add_coin_lem b b' c d e = ground arith

abbrev drop_coin : List Coin → Coin → Result StdError (List Coin)
drop_coin b c = elim (sub_coin b c) [ ok less ↦ ok less | _ ↦ err StdError.overflow ]

pub drop_coin_lem :
    (b b' : List Coin) (c : Coin) (d : ℕ)
    → drop_coin b c ≡ ok b'
    → (amount_of d b' ≤ amount_of d b) × (d ≢ c.denom → amount_of d b' ≡ amount_of d b)
drop_coin_lem b b' c d e = elim (Result-cases (sub_coin b c)) [
  | inl (less, done) ↦ ground (arith, sub_coin_lem b less c d done)
  | inr refused ↦ absurd (ground arith)
]

abbrev holds_nothing : List Coin → Bool
holds_nothing [] = true
holds_nothing (_ ∷ _) = false

pub holds_nothing_lem : (b : List Coin) (d : ℕ) → holds_nothing b ≡ true → amount_of d b ≡ 0
holds_nothing_lem [] d e = refl
holds_nothing_lem (c ∷ cs) d e = absurd (ground arith)

abbrev pub plain_wallets : Wallets
plain_wallets = record {
  sub = sub_coins;
  sub_lem = sub_coins_lem;
  add_assign = add_coin;
  add_assign_lem = add_coin_lem;
  sub_saturating = drop_coin;
  sub_saturating_lem = drop_coin_lem;
  is_empty = holds_nothing;
  is_empty_lem = holds_nothing_lem;
  get_contract_version = λ v. ok (unwrap_or v 0);
  parse_version = λ v. ok v;
  is_older = ltb;
}
