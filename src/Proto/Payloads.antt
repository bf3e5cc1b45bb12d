-- ===== src/Proto/Payloads.antt =====
-- Payload schemas: slt-core/src/proto/payloads. This file has the errors; a child has each file of
-- that folder.
pub mod Errors
pub mod Codec
pub mod Control
pub mod ControlCodecs
pub mod AuthCodecs
pub mod UpgradeCodecs
pub mod Auth
pub mod Upgrade
pub mod Registration
pub mod ReplyCodecs
