-- ===== src/Tests.antt =====
-- The models run on concrete inputs, and the theorems applied to them.
pub mod Replay
pub mod Wire
pub mod Registry
pub mod Ipv4
pub mod Toy
pub mod Session
pub mod Keys
pub mod Upgrade
pub mod Sessions
pub mod Claim
pub mod Config
