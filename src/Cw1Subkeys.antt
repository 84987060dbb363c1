-- ===== src/Cw1Subkeys.antt =====
-- contracts/cw1-subkeys: the proxy of cw1-whitelist, whose subkeys may spend what they are allowed.
pub mod State
pub mod Handlers
pub mod Queries
pub mod Spending
pub mod Access
