-- ===== src/Qsp/Keys/Total.antt =====
-- The operations on keys of slt-core/src/crypto/udp_qsp/keys return a result or an error.
use slt.Prelude.{
  ℕ, ◌≢◌, List, [], length, ◌==◌, Bool, Result, panic, ◌>>◌, guard, bind-ne-panic, guard-ne-panic,
  inl, inr,
}
use slt.Proto.Payloads.Registration.{udp_qsp_traffic_secret_len}
use slt.Qsp.Boring.{Boring, BoringLaws, AeadKind}
use slt.Qsp.Backend.{
  CipherConfig, HeaderProtectionKind, aead_iv_len, aead_key_len, hp_key_len, hp_key_ready,
  new_hp_key, new_packet_key, new_aead_context, clone_hp_key, clone_packet_key, for_suite,
}
use slt.Qsp.Crypto.{QspCryptoError, crypto_fail}
use slt.Qsp.Derivation.{
  hkdf_expand_label_sha256, derive_packet_material, derive_next_secret, quic_key_label,
  quic_iv_label, quic_ku_label,
}
use slt.Qsp.Derivation.Length.{hkdf_expand_label_sha256-ne-panic}
use slt.Qsp.Schedule.{DirectionKeys, next_generation, clone_direction}
use slt.Qsp.Keys.{UdpQspKeys, with_next_tx_keys, protect_into}
use slt.Qsp.Keys.Protect.{protect_into-IsPacket}

-- `if !test { return Err(e); }` in front of a step that does not panic.
guarded :
    {A : Type 0} (b : Bool) (e : QspCryptoError) (m : Result QspCryptoError A)
    → m ≢ panic
    → (guard b e >> m) ≢ panic
guarded b e m h = bind-ne-panic (guard b e) (λ _. m) (guard-ne-panic b e) (λ u p. h)

module _ (boring : Boring) where
  new_hp_key-ne-panic :
      (kind : HeaderProtectionKind) (key : List ℕ) → new_hp_key boring kind key ≢ panic
  unfolding new_hp_key
  new_hp_key-ne-panic kind key =
      guarded (length key == hp_key_len kind) crypto_fail _
        (guarded (hp_key_ready boring kind key) crypto_fail _ (λ q. cc q))

  new_packet_key-ne-panic :
      (key iv : List ℕ) (aead : AeadKind) → new_packet_key boring key iv aead ≢ panic
  unfolding new_packet_key new_aead_context
  new_packet_key-ne-panic key iv aead = guarded (length iv == aead_iv_len) crypto_fail _ (
      bind-ne-panic (new_aead_context boring aead key) _
        (guarded (length key == aead_key_len aead) crypto_fail _
          (guard-ne-panic (boring.aead_ctx_new aead key) crypto_fail))
        (λ u p q. cc q))

  derive_packet_material-ne-panic :
      (secret : List ℕ) (k i : ℕ) → derive_packet_material boring secret k i ≢ panic
  unfolding derive_packet_material
  derive_packet_material-ne-panic secret k i =
      bind-ne-panic (hkdf_expand_label_sha256 boring secret quic_key_label [] k) _
        (hkdf_expand_label_sha256-ne-panic boring secret quic_key_label [] k)
        (λ key p.
          bind-ne-panic (hkdf_expand_label_sha256 boring secret quic_iv_label [] i) _
            (hkdf_expand_label_sha256-ne-panic boring secret quic_iv_label [] i) (λ iv p' q. cc q))

  derive_next_secret-ne-panic : (secret : List ℕ) → derive_next_secret boring secret ≢ panic
  unfolding derive_next_secret
  derive_next_secret-ne-panic secret =
      bind-ne-panic (hkdf_expand_label_sha256 boring secret quic_ku_label [] 32) _
        (hkdf_expand_label_sha256-ne-panic boring secret quic_ku_label [] 32)
        (λ next p. guarded (length next == udp_qsp_traffic_secret_len) crypto_fail _ (λ q. cc q))

  next_generation-ne-panic :
      (d : DirectionKeys) (config : CipherConfig) → next_generation boring d config ≢ panic
  unfolding next_generation clone_hp_key
  next_generation-ne-panic d config =
      bind-ne-panic (derive_next_secret boring d.secret) _ (derive_next_secret-ne-panic d.secret)
        (λ secret p.
          bind-ne-panic (clone_hp_key boring d.hp) _ (new_hp_key-ne-panic d.hp.kind d.hp.key)
            (λ hp p'.
              bind-ne-panic
                (derive_packet_material boring secret (aead_key_len config.aead) config.iv_len) _
                (derive_packet_material-ne-panic secret _ _)
                (λ packet p''.
                  bind-ne-panic (new_packet_key boring packet.key packet.iv config.aead) _
                    (new_packet_key-ne-panic packet.key packet.iv config.aead) (λ aead q h. cc h))))

  clone_direction-ne-panic : (d : DirectionKeys) → clone_direction boring d ≢ panic
  unfolding clone_direction clone_hp_key clone_packet_key
  clone_direction-ne-panic d =
      bind-ne-panic (clone_hp_key boring d.hp) _ (new_hp_key-ne-panic d.hp.kind d.hp.key) (λ hp p.
        bind-ne-panic (clone_packet_key boring d.aead) _
          (new_packet_key-ne-panic d.aead.key d.aead.iv d.aead.aead) (λ aead q h. cc h))

  pub with_next_tx_keys-ne-panic : (k : UdpQspKeys) → with_next_tx_keys boring k ≢ panic
  unfolding with_next_tx_keys
  with_next_tx_keys-ne-panic k =
      bind-ne-panic (next_generation boring k.tx (for_suite k.cipher)) _
        (next_generation-ne-panic k.tx (for_suite k.cipher))
        (λ tx p.
          bind-ne-panic (clone_direction boring k.rx) _ (clone_direction-ne-panic k.rx)
            (λ rx q h. cc h))

  pub protect_into-ne-panic :
      BoringLaws boring
      → (k : UdpQspKeys) (dcid : List ℕ) (pn : ℕ) (key_phase : Bool) (plaintext : List ℕ)
      → protect_into boring k dcid pn key_phase plaintext ≢ panic
  protect_into-ne-panic laws k dcid pn key_phase plaintext h =
      elim (protect_into-IsPacket boring laws k dcid pn key_phase plaintext) [
        | inl (packet, is) ↦ let made = is.made in cc (made, h)
        | inr failed ↦ cc (failed, h)
      ]
