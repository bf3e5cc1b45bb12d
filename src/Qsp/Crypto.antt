-- ===== src/Qsp/Crypto.antt =====
-- What a UDP-QSP session uses of its packet keys: the methods of `UdpQspKeys` in
-- slt-core/src/crypto/udp_qsp/keys/mod.rs, as an interface.
use slt.Prelude.{ℕ, ◌≡◌, List, Bool, Result, ok}

pub data QspCryptoError : Type 0 where
  unsupported_cipher packet_too_short invalid_header invalid_packet_number : QspCryptoError
  crypto_fail invalid_cid : QspCryptoError

-- `OpenedPacket` and `OpenedPacketRef`
pub record OpenedPacket : Type 0 where
  pub pn : ℕ
  pub pn_len : ℕ
  pub key_phase : Bool
  pub payload : List ℕ

pub record Crypto (Keys : Type 0) : Type 0 where
  pub protect_into : Keys → List ℕ → ℕ → Bool → List ℕ → Result QspCryptoError (List ℕ)
  pub open_into : Keys → ℕ → List ℕ → ℕ → Result QspCryptoError OpenedPacket
  pub with_next_tx_keys : Keys → Result QspCryptoError Keys
  pub with_next_rx_keys : Keys → Result QspCryptoError Keys
  pub try_clone : Keys → Result QspCryptoError Keys

-- The two directions of the keys. The next transmit keys have the next traffic secret, derived from the one
-- before, and leave the receive direction alone; the same the other way round; and a clone has the same keys.
pub record Generations {Keys : Type 0} (crypto : Crypto Keys) (Side : Type 0) : Type 0 where
  pub tx : Keys → Side
  pub rx : Keys → Side
  pub next : Side → Side
  pub next_tx-tx : (k k' : Keys) → crypto.with_next_tx_keys k ≡ ok k' → tx k' ≡ next (tx k)
  pub next_tx-rx : (k k' : Keys) → crypto.with_next_tx_keys k ≡ ok k' → rx k' ≡ rx k
  pub next_rx-tx : (k k' : Keys) → crypto.with_next_rx_keys k ≡ ok k' → tx k' ≡ tx k
  pub next_rx-rx : (k k' : Keys) → crypto.with_next_rx_keys k ≡ ok k' → rx k' ≡ next (rx k)
  pub clone-tx : (k k' : Keys) → crypto.try_clone k ≡ ok k' → tx k' ≡ tx k
  pub clone-rx : (k k' : Keys) → crypto.try_clone k ≡ ok k' → rx k' ≡ rx k
