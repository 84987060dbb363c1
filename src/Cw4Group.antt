-- ===== src/Cw4Group.antt =====
-- contracts/cw4-group: a group of weighted members that an admin edits.
pub mod State
pub mod Handlers
pub mod Sums
pub mod Changes
