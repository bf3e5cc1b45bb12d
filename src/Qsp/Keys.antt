-- ===== src/Qsp/Keys.antt =====
-- Packet protection: `UdpQspKeys` of slt-core/src/crypto/udp_qsp/keys/mod.rs, over BoringSSL. Output buffers
-- are results.
pub mod Sample
pub mod Protect
pub mod RoundTrip
pub mod Safety
pub mod Sides
pub mod Total
use slt.Prelude.{
  ℕ, ◌+◌, ◌-◌, List, [], ◌++◌, length, drop, replicate, ltb, not, Bool, Result, ok, slice, guard,
  ◌>>=◌, ◌>>◌,
}
use slt.Proto.Payloads.Registration.{CipherSuite, RegisterCidPayload}
use slt.Qsp.Boring.{Boring}
use slt.Qsp.Backend.{for_suite, mask, seal_into, open_sealed}
use slt.Qsp.Crypto.{Crypto, QspCryptoError, packet_too_short, OpenedPacket}
use slt.Qsp.Header.{
  build_header, parse_header, apply_header_protection, require_hp_sample, hp_sample_range,
  aead_tag_len,
}
use slt.Qsp.Pn.{packet_number_len, reconstruct_packet_number}
use slt.Qsp.Schedule.{DirectionKeys, from_secret, next_generation, clone_direction}

pub record UdpQspKeys : Type 0 where
  pub cipher : CipherSuite
  pub tx : DirectionKeys
  pub rx : DirectionKeys

-- The bytes of padding in front of the tag.
unfoldable pub pad_len : ℕ → ℕ → ℕ → ℕ
unfolding hp_sample_range
pad_len dcid_len pn plaintext_len =
    let header_len = 1 + dcid_len + packet_number_len pn in
    let min_cipher_len = (hp_sample_range dcid_len).1 - header_len in
    min_cipher_len - (plaintext_len + aead_tag_len)

module _ (boring : Boring) where
  unfoldable pub new : CipherSuite → List ℕ → List ℕ → Result QspCryptoError UdpQspKeys
  new cipher secret_tx secret_rx = do
    let config = for_suite cipher
    tx ← from_secret boring secret_tx config
    rx ← from_secret boring secret_rx config
    ok (record { cipher = cipher; tx = tx; rx = rx })

  unfoldable pub from_register : RegisterCidPayload → Result QspCryptoError UdpQspKeys
  unfolding new
  from_register payload = new payload.cipher payload.secret_tx payload.secret_rx

  unfoldable pub try_clone : UdpQspKeys → Result QspCryptoError UdpQspKeys
  try_clone k = do
    tx ← clone_direction boring k.tx
    rx ← clone_direction boring k.rx
    ok (record { cipher = k.cipher; tx = tx; rx = rx })

  unfoldable pub with_next_tx_keys : UdpQspKeys → Result QspCryptoError UdpQspKeys
  with_next_tx_keys k = do
    let config = for_suite k.cipher
    tx ← next_generation boring k.tx config
    rx ← clone_direction boring k.rx
    ok (record { cipher = k.cipher; tx = tx; rx = rx })

  unfoldable pub with_next_rx_keys : UdpQspKeys → Result QspCryptoError UdpQspKeys
  with_next_rx_keys k = do
    let config = for_suite k.cipher
    tx ← clone_direction boring k.tx
    rx ← next_generation boring k.rx config
    ok (record { cipher = k.cipher; tx = tx; rx = rx })

  unfoldable pub protect_into :
      UdpQspKeys → List ℕ → ℕ → Bool → List ℕ → Result QspCryptoError (List ℕ)
  protect_into k dcid pn key_phase plaintext = build_header dcid pn key_phase [] >>= λ built.
      let (header, out) = built in
      let padded = plaintext ++ replicate (pad_len (length dcid) pn (length plaintext)) 0 in
      do
        out' ← seal_into boring k.tx.aead pn (length out) padded out
        require_hp_sample out' (length dcid)
        sample ← slice out' (hp_sample_range (length dcid)).0 (hp_sample_range (length dcid)).1
        bytes ← mask boring k.tx.hp sample
        apply_header_protection out' header.pn_offset header.pn_len bytes

  -- `open_into` and `open_into_inner`
  unfoldable pub open_into : UdpQspKeys → ℕ → List ℕ → ℕ → Result QspCryptoError OpenedPacket
  open_into k dcid_len packet expected_pn = do
    require_hp_sample packet dcid_len
    sample ← slice packet (hp_sample_range dcid_len).0 (hp_sample_range dcid_len).1
    bytes ← mask boring k.rx.hp sample
    parsed ← parse_header dcid_len packet bytes
    guard (not (ltb (length packet) (length parsed.header + aead_tag_len))) packet_too_short
    let pn = reconstruct_packet_number parsed.pn expected_pn parsed.pn_len
    ciphertext ← slice packet (length parsed.header) (length packet)
    payload ← open_sealed boring k.rx.aead pn parsed.header ciphertext
    ok (record { pn = pn; pn_len = parsed.pn_len; key_phase = parsed.key_phase; payload = payload })

  -- What a session uses of the keys.
  abbrev pub packet_crypto : Crypto UdpQspKeys
  packet_crypto = record {
    protect_into = protect_into;
    open_into = open_into;
    with_next_tx_keys = with_next_tx_keys;
    with_next_rx_keys = with_next_rx_keys;
    try_clone = try_clone;
  }
