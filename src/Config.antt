-- ===== src/Config.antt =====
-- The validation of the server's configuration: slt-core/src/config and the configuration types of slt-core/src/types.
pub mod Server
pub mod Subnet
pub mod Clients
