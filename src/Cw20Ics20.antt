-- ===== src/Cw20Ics20.antt =====
-- contracts/cw20-ics20: tokens of this chain on channels to other chains.
pub mod State
pub mod Handlers
pub mod Ibc
pub mod Balances
pub mod Payments
pub mod Packets
pub mod Returns
pub mod Escrow
pub mod Solvency
pub mod Migrate
pub mod Settled
