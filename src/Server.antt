-- ===== src/Server.antt =====
-- The server: slt-server/src.
pub mod Registry
pub mod Upgrade
pub mod Sessions
