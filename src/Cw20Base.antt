-- ===== src/Cw20Base.antt =====
-- contracts/cw20-base: the fungible token.
pub mod State
pub mod Logos
pub mod Instantiate
pub mod Transfer
pub mod Allowances
pub mod Marketing
pub mod Execute
pub mod Queries
pub mod Answers
pub mod Ledger
pub mod Steps
pub mod Backed
pub mod Mirror
pub mod Cap
pub mod Genesis
pub mod Migration
pub mod Holders
