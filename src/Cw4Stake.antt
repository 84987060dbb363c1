-- ===== src/Cw4Stake.antt =====
-- contracts/cw4-stake: a group whose members' weights follow the tokens they stake.
pub mod State
pub mod Handlers
pub mod Membership
pub mod Money
pub mod Owed
pub mod Scale
pub mod Weights
pub mod Waiting
pub mod Payouts
