-- ===== src/Cw20.antt =====
-- packages/cw20: the data of the token's interface (coin.rs, logo.rs, receiver.rs, msg.rs,
-- query.rs, balance.rs, denom.rs).
use cw_plus.Base.{ℕ, Option, List}
use cw_plus.Host.{Text, Addr, Binary, Expiration, Coin}

-- `Cw20Coin`
pub record Cw20Coin : Type 0 where
  pub address : Text
  pub amount : ℕ

-- `Cw20CoinVerified`
pub record Cw20CoinVerified : Type 0 where
  pub address : Addr
  pub amount : ℕ

-- `Balance`; its `NativeBalance` is a list of coins.
pub data Balance : Type 0 where
  native : List Coin → Balance
  cw20 : Cw20CoinVerified → Balance

-- `EmbeddedLogo`
pub data EmbeddedLogo : Type 0 where
  svg png : Binary → EmbeddedLogo

-- `Logo`
pub data Logo : Type 0 where
  url : Text → Logo
  embedded : EmbeddedLogo → Logo

-- `LogoInfo`
pub data LogoInfo : Type 0 where
  url : Text → LogoInfo
  embedded : LogoInfo

-- `Cw20ReceiveMsg`, with the contract that `into_cosmos_msg` addresses it to.
pub record Cw20ReceiveMsg : Type 0 where
  pub contract : Text
  pub sender : Addr
  pub amount : ℕ
  pub msg : Binary

-- `AllowanceResponse`
pub record AllowanceResponse : Type 0 where
  pub allowance : ℕ
  pub expires : Expiration

-- `MarketingInfoResponse`
pub record MarketingInfoResponse : Type 0 where
  pub project : Option Text
  pub description : Option Text
  pub logo : Option LogoInfo
  pub marketing : Option Addr

-- `MinterResponse`
pub record MinterResponse : Type 0 where
  pub minter : Text
  pub cap : Option ℕ

-- `Cw20ExecuteMsg`
pub data Cw20ExecuteMsg : Type 0 where
  transfer : (recipient : Text) (amount : ℕ) → Cw20ExecuteMsg
  burn : (amount : ℕ) → Cw20ExecuteMsg
  send : (contract : Text) (amount : ℕ) (msg : Binary) → Cw20ExecuteMsg
  increase_allowance : (spender : Text) (amount : ℕ) (expires : Option Expiration) → Cw20ExecuteMsg
  decrease_allowance : (spender : Text) (amount : ℕ) (expires : Option Expiration) → Cw20ExecuteMsg
  transfer_from : (owner recipient : Text) (amount : ℕ) → Cw20ExecuteMsg
  send_from : (owner contract : Text) (amount : ℕ) (msg : Binary) → Cw20ExecuteMsg
  burn_from : (owner : Text) (amount : ℕ) → Cw20ExecuteMsg
  mint : (recipient : Text) (amount : ℕ) → Cw20ExecuteMsg
  update_minter : (new_minter : Option Text) → Cw20ExecuteMsg
  update_marketing : (project description marketing : Option Text) → Cw20ExecuteMsg
  upload_logo : Logo → Cw20ExecuteMsg
