-- ===== src/Qsp/Schedule.antt =====
-- The keys of one direction, and their rotation: slt-core/src/crypto/udp_qsp/keys/schedule.rs.
use slt.Prelude.{ℕ, List, length, ◌==◌, Result, ok, guard, ◌>>=◌, ◌>>◌}
use slt.Proto.Payloads.Registration.{udp_qsp_traffic_secret_len}
use slt.Qsp.Boring.{Boring}
use slt.Qsp.Backend.{
  CipherConfig, HeaderProtectionKey, PacketKey, hp_key_len, aead_key_len, new_hp_key,
  new_packet_key, clone_hp_key, clone_packet_key,
}
use slt.Qsp.Crypto.{QspCryptoError, crypto_fail}
use slt.Qsp.Derivation.{derive_header_protection_key, derive_packet_material, derive_next_secret}

pub record DirectionKeys : Type 0 where
  pub secret : List ℕ
  pub hp : HeaderProtectionKey
  pub aead : PacketKey

module _ (boring : Boring) where
  unfoldable pub from_secret : List ℕ → CipherConfig → Result QspCryptoError DirectionKeys
  from_secret secret config = do
    guard (length secret == udp_qsp_traffic_secret_len) crypto_fail
    hp_key ← derive_header_protection_key boring secret (hp_key_len config.hp)
    packet ← derive_packet_material boring secret (aead_key_len config.aead) config.iv_len
    hp ← new_hp_key boring config.hp hp_key
    aead ← new_packet_key boring packet.key packet.iv config.aead
    ok (record { secret = secret; hp = hp; aead = aead })

  unfoldable pub next_generation :
      DirectionKeys → CipherConfig → Result QspCryptoError DirectionKeys
  next_generation d config = do
    secret ← derive_next_secret boring d.secret
    hp ← clone_hp_key boring d.hp
    packet ← derive_packet_material boring secret (aead_key_len config.aead) config.iv_len
    aead ← new_packet_key boring packet.key packet.iv config.aead
    ok (record { secret = secret; hp = hp; aead = aead })

  unfoldable pub clone_direction : DirectionKeys → Result QspCryptoError DirectionKeys
  unfolding clone_hp_key clone_packet_key
  clone_direction d = do
    hp ← clone_hp_key boring d.hp
    aead ← clone_packet_key boring d.aead
    ok (record { secret = d.secret; hp = hp; aead = aead })
