-- ===== src/Qsp.antt =====
-- UDP-QSP, the protected datagram transport: slt-core/src/crypto/udp_qsp.
pub mod Replay
pub mod Pn
pub mod Crypto
pub mod Header
pub mod Boring
pub mod Backend
pub mod Derivation
pub mod Schedule
pub mod Keys
pub mod Session
