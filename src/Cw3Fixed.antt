-- ===== src/Cw3Fixed.antt =====
-- contracts/cw3-fixed-multisig: a multisig with a fixed set of voters.
pub mod State
pub mod Handlers
pub mod Queries
pub mod Ballots
pub mod Steps
pub mod History
pub mod Tally
pub mod Founding
pub mod Decisions
pub mod Answers
