-- ===== src/Cw3Flex.antt =====
-- contracts/cw3-flex-multisig: a multisig whose voters are the members of a cw4 group.
pub mod State
pub mod Handlers
pub mod Queries
pub mod Steps
pub mod History
pub mod Refunds
pub mod Executors
pub mod Snapshots
pub mod Grouped
