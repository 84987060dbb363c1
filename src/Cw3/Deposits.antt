-- ===== src/Cw3/Deposits.antt =====
-- packages/cw3/src/deposit.rs: the deposit on a proposal, taken and given back.
use cw_plus.Base.{
  ℕ, ◌==◌, ◌<◌, ◌≡◌, ◌↔◌, Bool, List, [], ◌∷◌, Result, ok, err, ◌>>=◌, ◌>>◌, map_err, if◌then◌else◌,
}
use cw_plus.Host.{Host, Text, Addr, StdError, CosmosMsg, MessageInfo}
use cw_plus.Cw3.{Denom, DepositInfo}

-- `UncheckedDenom` of packages/cw20
pub data UncheckedDenom : Type 0 where
  native : Text → UncheckedDenom
  cw20 : Text → UncheckedDenom

-- `UncheckedDepositInfo`
pub record UncheckedDepositInfo : Type 0 where
  pub amount : ℕ
  pub denom : UncheckedDenom
  pub refund_failed_proposals : Bool

-- `PaymentError` of cw_utils is only passed on.
abbrev pub PaymentError : Type 0
PaymentError = ℕ

-- `DepositError`
pub data DepositError : Type 0 where
  zero_deposit invalid_cw20 invalid_deposit : DepositError
  payment : PaymentError → DepositError

-- `must_pay` of cw_utils: it wants one coin, of the denomination and not zero.
pub record Payments : Type 0 where
  pub must_pay : MessageInfo → Text → Result PaymentError ℕ
  pub must_pay_lem :
      (info : MessageInfo) (d n : ℕ)
      → (must_pay info d ≡ ok n) ↔ ((info.funds ≡ record { denom = d; amount = n } ∷ []) × (0 < n))

-- The messages that a multisig dispatches: one that was proposed, `BankMsg::Send` of one coin, and
-- `Transfer` and `TransferFrom` to a cw20.
pub data Message : Type 0 where
  relayed : CosmosMsg → Message
  bank_send : (to_address : Text) (amount : ℕ) (denom : Text) → Message
  cw20_transfer : (contract_addr : Addr) (recipient : Text) (amount : ℕ) → Message
  cw20_transfer_from : (contract_addr : Addr) (owner recipient : Text) (amount : ℕ) → Message

-- `UncheckedDenom::into_checked`; the query of a token's information is a parameter.
unfoldable pub check_denom :
    Host → (Addr → Result StdError (Unit {0})) → UncheckedDenom → Result StdError Denom
check_denom h token_info (UncheckedDenom.native denom) = ok (Denom.native denom)
check_denom h token_info (UncheckedDenom.cw20 addr) = do
  a ← h.addr_validate addr
  token_info a
  ok (Denom.cw20 a)

-- `map_err(|_| …)`
abbrev pub replace_err {ℓ κ μ} :
    {D : Type κ} {E : Type μ} {A : Type ℓ} → E → Result D A → Result E A
replace_err e r = map_err (λ _. e) r

-- `UncheckedDepositInfo::into_checked`
unfoldable pub into_checked :
    Host
    → (Addr → Result StdError (Unit {0}))
    → UncheckedDepositInfo
    → Result DepositError DepositInfo
into_checked h token_info d = if d.amount == 0 then err zero_deposit else do
  denom ← replace_err invalid_cw20 (check_denom h token_info d.denom)
  ok (record {
    amount = d.amount;
    denom = denom;
    refund_failed_proposals = d.refund_failed_proposals;
  })

-- `DepositInfo::check_native_deposit_paid`
unfoldable pub check_native_deposit_paid :
    Payments → MessageInfo → DepositInfo → Result DepositError (Unit {0})
check_native_deposit_paid pay info d = elim d.denom [
  | Denom.native denom ↦ do
    paid ← map_err payment (pay.must_pay info denom)
    if paid == d.amount then ok tt else err invalid_deposit
  | Denom.cw20 address ↦ ok tt
]

-- `DepositInfo::get_take_deposit_messages`
unfoldable pub get_take_deposit_messages : Addr → Addr → DepositInfo → List Message
get_take_deposit_messages depositor contract d = elim d.denom [
  | Denom.native denom ↦ []
  | Denom.cw20 address ↦
      if d.amount == 0 then [] else cw20_transfer_from address depositor contract d.amount ∷ []
]

-- `DepositInfo::get_return_deposit_message`
unfoldable pub get_return_deposit_message : Addr → DepositInfo → Message
get_return_deposit_message depositor d = elim d.denom [
  | Denom.native denom ↦ bank_send depositor d.amount denom
  | Denom.cw20 address ↦ cw20_transfer address depositor d.amount
]
