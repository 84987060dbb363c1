-- ===== src/Cw1Whitelist.antt =====
-- contracts/cw1-whitelist: a proxy that sends the messages of its admins.
pub mod State
pub mod Handlers
pub mod Proxy
