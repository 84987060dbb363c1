-- ===== src/Cw20Ics20/Payments.antt =====
-- Which message of contracts/cw20-ics20 pays an amount to an account.
use cw_plus.Base.{◌≡◌, refl}
use cw_plus.Host.{Text}
use cw_plus.Cw20Ics20.State.{Amount, native, cw20, Message, bank_send, cw20_transfer}
use cw_plus.Cw20Ics20.Ibc.{send_amount}

-- The bank sends a native coin; the contract of a cw20 transfers its tokens.
abbrev pub payment : Amount → Text → Message
payment (native coin) to = bank_send to coin
payment (cw20 coin) to = cw20_transfer coin.address to coin.amount

pub send_amount_lem : (amount : Amount) (to : Text) → send_amount amount to ≡ payment amount to
unfolding send_amount
send_amount_lem (native coin) to = refl
send_amount_lem (cw20 coin) to = refl
