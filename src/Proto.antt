-- ===== src/Proto.antt =====
-- The wire protocol: slt-core/src/proto.
pub mod Kinds
pub mod Framing
pub mod Message
pub mod Payloads
pub mod Admissibility
