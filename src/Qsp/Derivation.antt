-- ===== src/Qsp/Derivation.antt =====
-- Keys from traffic secrets: slt-core/src/crypto/udp_qsp/keys/derivation.rs, over the MAC of BoringSSL.
pub mod Length
use slt.Prelude.{
  ℕ, zero, suc, ◌+◌, ◌-◌, min, List, [], ◌∷◌, ◌++◌, length, take, ltb, ◌==◌, not, true, false,
  if◌then◌else◌, Result, ok, err, panic, slice, guard, ◌>>=◌, ◌>>◌,
}
use slt.Prelude.Bytes.{to_be}
use slt.Proto.Payloads.Registration.{udp_qsp_traffic_secret_len}
use slt.Qsp.Boring.{Boring}
use slt.Qsp.Backend.{or_fail}
use slt.Qsp.Crypto.{QspCryptoError, crypto_fail}

-- The labels are in ASCII: "tls13 ", "quic key", "quic iv", "quic hp" and "quic ku".
abbrev pub tls13_label_prefix : List ℕ
tls13_label_prefix = 116 ∷ 108 ∷ 115 ∷ 49 ∷ 51 ∷ 32 ∷ []

abbrev pub quic_key_label : List ℕ
quic_key_label = 113 ∷ 117 ∷ 105 ∷ 99 ∷ 32 ∷ 107 ∷ 101 ∷ 121 ∷ []

abbrev pub quic_iv_label : List ℕ
quic_iv_label = 113 ∷ 117 ∷ 105 ∷ 99 ∷ 32 ∷ 105 ∷ 118 ∷ []

abbrev pub quic_hp_label : List ℕ
quic_hp_label = 113 ∷ 117 ∷ 105 ∷ 99 ∷ 32 ∷ 104 ∷ 112 ∷ []

abbrev pub quic_ku_label : List ℕ
quic_ku_label = 113 ∷ 117 ∷ 105 ∷ 99 ∷ 32 ∷ 107 ∷ 117 ∷ []

pub record PacketMaterial : Type 0 where
  pub key : List ℕ
  pub iv : List ℕ

-- `u16::try_from` and `u8::try_from`, with the error of this file.
unfoldable pub to_uint : ℕ → ℕ → Result QspCryptoError ℕ
to_uint max_value n = if ltb max_value n then err crypto_fail else ok n

module _ (boring : Boring) where
  -- The loop, with fuel; `prev` is empty before the first round. The recursive call stands under a test of the
  -- length, of the MAC and of the counter.
  unfoldable pub expand_loop :
      ℕ → List ℕ → List ℕ → ℕ → List ℕ → List ℕ → ℕ → Result QspCryptoError (List ℕ)
  expand_loop zero prk info len out prev counter = panic
  expand_loop (suc fuel) prk info len out prev counter = elim (ltb (length out) len) [
    | false ↦ ok out
    | true ↦ or_fail (boring.hmac_sha256 prk (prev ++ info ++ counter ∷ [])) >>= λ prev'.
        let taken = min (len - length out) (length prev') in
        slice prev' 0 taken >>= λ block. to_uint 255 (counter + 1) >>= λ counter'.
        expand_loop fuel prk info len (out ++ block) prev' counter'
  ]

  -- The counter is a byte from 1 on, so there are at most 255 rounds, and the test that ends the loop.
  unfoldable pub hkdf_expand_sha256_vec : List ℕ → List ℕ → ℕ → Result QspCryptoError (List ℕ)
  unfolding expand_loop
  hkdf_expand_sha256_vec prk info len =
      if len == 0 then ok [] else expand_loop 256 prk info len [] [] 1

  unfoldable pub hkdf_expand_label_sha256 :
      List ℕ → List ℕ → List ℕ → ℕ → Result QspCryptoError (List ℕ)
  unfolding hkdf_expand_sha256_vec
  hkdf_expand_label_sha256 secret label context len = do
    output_len ← to_uint 65535 len
    full_label_len ← to_uint 255 (length tls13_label_prefix + length label)
    context_len ← to_uint 255 (length context)
    let info =
        to_be 2 output_len ++ full_label_len ∷ tls13_label_prefix ++ label ++ context_len ∷ context
    hkdf_expand_sha256_vec secret info len

  unfoldable pub derive_header_protection_key : List ℕ → ℕ → Result QspCryptoError (List ℕ)
  unfolding hkdf_expand_label_sha256
  derive_header_protection_key secret key_len =
      hkdf_expand_label_sha256 secret quic_hp_label [] key_len

  unfoldable pub derive_packet_material : List ℕ → ℕ → ℕ → Result QspCryptoError PacketMaterial
  unfolding hkdf_expand_label_sha256
  derive_packet_material secret key_len iv_len = do
    key ← hkdf_expand_label_sha256 secret quic_key_label [] key_len
    iv ← hkdf_expand_label_sha256 secret quic_iv_label [] iv_len
    ok (record { key = key; iv = iv })

  unfoldable pub derive_next_secret : List ℕ → Result QspCryptoError (List ℕ)
  unfolding hkdf_expand_label_sha256
  derive_next_secret secret = do
    next ← hkdf_expand_label_sha256 secret quic_ku_label [] udp_qsp_traffic_secret_len
    guard (length next == udp_qsp_traffic_secret_len) crypto_fail
    ok next
