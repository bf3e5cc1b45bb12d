-- ===== src/Claim.antt =====
-- The front door's decision what is VPN traffic: slt-core/src/crypto/client_hello.rs and slt-core/src/classifier.rs.
pub mod Token
pub mod TokenLayout
pub mod TokenLaws
pub mod Quic
pub mod Tcp
pub mod Outcomes
pub mod TcpReads
pub mod TokenTotal
pub mod TcpTotal
pub mod Records
