-- ===== src/Tests/Keys.antt =====
-- Packet keys, key derivation and packet numbers of slt-core/src/crypto/udp_qsp on concrete bytes.
use slt.Prelude.{
  ℕ, ◌*◌, ◌%◌, ◌^◌, ◌≡◌, ◌≢◌, ◌⊎◌, refl, arith, List, [], ◌∷◌, ◌++◌, length, replicate, true, ok,
  err, panic, slice, index,
}
use slt.Prelude.Bytes.{to_be}
use slt.Qsp.Backend.{seal_into, mask, mask_of, make_nonce, xor_zip}
use slt.Qsp.Crypto.{crypto_fail}
use slt.Qsp.Derivation.{hkdf_expand_sha256_vec}
use slt.Qsp.Derivation.Length.{hkdf_expand_sha256_vec-ne-panic, hkdf_expand_sha256_vec-length}
use slt.Qsp.Header.{
  build_header, require_hp_sample, sample_offset, hp_sample_range, apply_header_protection, mask_pn,
  store, first_byte,
}
use slt.Qsp.Keys.{pad_len, protect_into, open_into}
use slt.Qsp.Keys.Protect.{IsPacket, protect_into-IsPacket}
use slt.Qsp.Keys.RoundTrip.{open_into-protect_into}
use slt.Qsp.Keys.Safety.{open_into-ne-panic}
use slt.Qsp.Pn.{packet_number_len, reconstruct_packet_number}
use slt.Qsp.Pn.Reconstruct.{reconstruct_packet_number-mod}
use slt.Tests.Toy.{toy, toy-BoringLaws, tag, keys, peer_keys}

abbrev dcid : List ℕ
dcid = 2 ∷ 2 ∷ []

-- One byte of payload is padded by two.
abbrev packet : List ℕ
packet = 94 ∷ 2 ∷ 2 ∷ 95 ∷ 33 ∷ 0 ∷ 0 ∷ tag

protected : protect_into toy keys dcid 5 true (33 ∷ []) ≡ ok packet
unfolding protect_into build_header packet_number_len slice index to_be seal_into require_hp_sample
    pad_len sample_offset hp_sample_range mask mask_of apply_header_protection mask_pn store
    make_nonce xor_zip first_byte
protected = refl

open_into-protect_into_example :
    open_into toy peer_keys 2 packet 4
    ≡ ok (record {
      pn = 5;
      pn_len = packet_number_len 5;
      key_phase = true;
      payload = 33 ∷ replicate (pad_len 2 5 1) 0;
    })
unfolding packet_number_len
open_into-protect_into_example =
    open_into-protect_into toy toy-BoringLaws keys peer_keys refl refl dcid 5 true (33 ∷ []) packet
      4 protected
      (record {
        pn_fits = omega arith;
        expected_fits = omega arith;
        not_early = omega arith;
        not_late = omega arith;
      })

protect_into-IsPacket_example :
    ((p : List ℕ) × IsPacket toy toy-BoringLaws keys dcid 5 true (33 ∷ []) p)
    ⊎ (protect_into toy keys dcid 5 true (33 ∷ []) ≡ err crypto_fail)
protect_into-IsPacket_example = protect_into-IsPacket toy toy-BoringLaws keys dcid 5 true (33 ∷ [])

open_into-ne-panic_example : open_into toy peer_keys 2 (packet ++ 0 ∷ []) 4 ≢ panic
open_into-ne-panic_example = open_into-ne-panic toy toy-BoringLaws peer_keys 2 (packet ++ 0 ∷ []) 4

hkdf_expand_sha256_vec-ne-panic_example :
    hkdf_expand_sha256_vec toy (replicate 32 1) (1 ∷ []) 9000 ≢ panic
hkdf_expand_sha256_vec-ne-panic_example =
    hkdf_expand_sha256_vec-ne-panic toy (replicate 32 1) (1 ∷ []) 9000

hkdf_expand_sha256_vec-length_example :
    (result : List ℕ) × (hkdf_expand_sha256_vec toy (replicate 32 1) (1 ∷ []) 48 ≡ ok result)
    × (length result ≡ 48)
hkdf_expand_sha256_vec-length_example =
    hkdf_expand_sha256_vec-length toy (λ key input. (replicate 32 (length input), refl, refl))
      (replicate 32 1) (1 ∷ []) 48 (omega arith)

reconstruct_packet_number-mod_example :
    reconstruct_packet_number
      (0x1234 % 2 ^ (packet_number_len 0x1234 * 8))
      0x1300
      (packet_number_len 0x1234)
    ≡ 0x1234
unfolding packet_number_len
reconstruct_packet_number-mod_example = reconstruct_packet_number-mod 0x1234 0x1300 (record {
  pn_fits = omega arith;
  expected_fits = omega arith;
  not_early = omega arith;
  not_late = omega arith;
})
