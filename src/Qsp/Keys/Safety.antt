-- ===== src/Qsp/Keys/Safety.antt =====
-- What arrives cannot make `open_into` of slt-core/src/crypto/udp_qsp/keys/mod.rs panic.
use slt.Prelude.{
  ℕ, ◌+◌, ◌-◌, ◌≤◌, ◌≡◌, ◌≢◌, arith, List, ◌∷◌, length, take, drop, ltb, not, Option, none, some,
  ok, panic, guard, bind-ne-panic, guard-ne-panic, guard-true,
}
use slt.Prelude.Lists.{length-take, length-drop}
use slt.Prelude.Slices.{slice_ok, slice_len}
use slt.Qsp.Boring.{Boring, BoringLaws}
use slt.Qsp.Backend.{or_fail, open_sealed, PacketKey, make_nonce}
use slt.Qsp.Backend.Mask.{mask-IsMask}
use slt.Qsp.Crypto.{QspCryptoError, packet_too_short}
use slt.Qsp.Header.{require_hp_sample, hp_sample_range, sample_offset, parse_header, aead_tag_len}
use slt.Qsp.Pn.{reconstruct_packet_number}
use slt.Qsp.Header.Safety.{parse_header-ne-panic, not-ltb}
use slt.Qsp.Keys.{UdpQspKeys, open_into}

or_fail-ne-panic : {A : Type 0} (o : Option A) → or_fail o ≢ panic
or_fail-ne-panic none = λ h. cc h
or_fail-ne-panic (some a) = λ h. cc h

open_sealed-ne-panic :
    (boring : Boring) (k : PacketKey) (pn : ℕ) (ad ciphertext : List ℕ)
    → open_sealed boring k pn ad ciphertext ≢ panic
unfolding open_sealed
open_sealed-ne-panic boring k pn ad ciphertext =
    bind-ne-panic (guard (not (ltb (length ciphertext) aead_tag_len)) packet_too_short) _
      (guard-ne-panic _ _)
      (λ u p.
        or_fail-ne-panic (boring.aead_ctx_open k.aead k.key (make_nonce k.iv pn) ad ciphertext))

sample_there :
    (packet : List ℕ) (dcid_len : ℕ) (u : Unit {0})
    → require_hp_sample packet dcid_len ≡ ok u
    → 1 + dcid_len + 4 + 16 ≤ length packet
unfolding require_hp_sample sample_offset
sample_there packet dcid_len u h =
    not-ltb (length packet) (1 + dcid_len + 4 + 16) (guard-true _ _ u h)

required : (packet : List ℕ) (dcid_len : ℕ) → require_hp_sample packet dcid_len ≢ panic
unfolding require_hp_sample
required packet dcid_len = guard-ne-panic _ _

-- With outputs of BoringSSL of the documented sizes, whatever bytes arrive, and whatever their sender has done to them: `open_into` returns a packet or an error, and
-- never reads outside of the packet.
pub open_into-ne-panic :
    (boring : Boring)
    → BoringLaws boring
    → (k : UdpQspKeys) (dcid_len : ℕ) (packet : List ℕ) (expected_pn : ℕ)
    → open_into boring k dcid_len packet expected_pn ≢ panic
unfolding open_into hp_sample_range sample_offset
open_into-ne-panic boring laws k dcid_len packet expected_pn =
    bind-ne-panic (require_hp_sample packet dcid_len) _ (required packet dcid_len) (λ u there.
      let long = sample_there packet dcid_len u there in
      let sample = take 16 (drop (1 + dcid_len + 4) packet) in
      let masks = mask-IsMask boring laws k.rx.hp sample (
        omega (
          arith,
          length-take 16 (drop (1 + dcid_len + 4) packet),
          length-drop (1 + dcid_len + 4) packet,
          long,
        )) in
      rw (slice_len {E = QspCryptoError} packet (1 + dcid_len + 4) 16 long, masks.is)
        (bind-ne-panic (parse_header dcid_len packet (masks.m0 ∷ masks.ms)) _
          (parse_header-ne-panic dcid_len packet (masks.m0 ∷ masks.ms) (omega (arith, long))
            (omega (arith, masks.rest_len)))
          (λ parsed p.
            bind-ne-panic
              (guard (not (ltb (length packet) (length parsed.header + aead_tag_len)))
                packet_too_short)
              _ (guard-ne-panic _ _)
              (λ u' enough.
                let room =
                  not-ltb (length packet) (length parsed.header + 16) (guard-true _ _ u' enough) in
                rw
                  (slice_ok {E = QspCryptoError} packet (length parsed.header) (length packet)
                    (omega (arith, room)) (omega arith))
                  (bind-ne-panic
                    (open_sealed boring k.rx.aead
                      (reconstruct_packet_number parsed.pn expected_pn parsed.pn_len) parsed.header
                      (take (length packet - length parsed.header)
                        (drop (length parsed.header) packet)))
                    _ (open_sealed-ne-panic boring k.rx.aead _ parsed.header _)
                    (λ payload q h. cc h))))))
