-- ===== src/Qsp/Keys/RoundTrip.antt =====
-- Opening undoes protecting, in slt-core/src/crypto/udp_qsp/keys/mod.rs.
use Prim.Native.Nat.{bit_and, bit_xor}
use slt.Prelude.{
  ℕ, ◌+◌, ◌*◌, ◌%◌, ◌^◌, ◌≡◌, refl, sym, ap, ◌∙◌, arith, List, ◌++◌, length, replicate, ltb, false,
  Bool, Option, none, some, le→ltb_false, ok, slice,
}
use slt.Prelude.Lists.{length-append}
use slt.Prelude.Bytes.{to_be-IsByte}
use slt.Qsp.Boring.{Boring, BoringLaws}
use slt.Qsp.Crypto.{QspCryptoError}
use slt.Qsp.Pn.{packet_number_len}
use slt.Qsp.Pn.Reconstruct.{IsNear, reconstruct_packet_number-mod}
use slt.Qsp.Header.RoundTrip.{
  tail_of, parse_header_lem, first_byte-IsFirst, valid_len, from_be-tail_of,
}
use slt.Qsp.Backend.{xor_zip, mask, open_sealed, make_nonce}
use slt.Qsp.Backend.Mask.{IsMask}
use slt.Qsp.Keys.Sample
use slt.Qsp.Keys.Protect
use slt.Qsp.Keys.{UdpQspKeys, pad_len, protect_into, open_into}

module _ (boring : Boring) (laws : BoringLaws boring) (k peer : UdpQspKeys)
    (same_hp : k.tx.hp ≡ peer.rx.hp) (same_aead : k.tx.aead ≡ peer.rx.aead) (dcid : List ℕ) (pn : ℕ)
    (key_phase : Bool) (plaintext : List ℕ) where
  abbrev first : ℕ
  first = Protect.first boring laws k dcid pn key_phase plaintext

  abbrev header : List ℕ
  header = Protect.header boring laws k dcid pn key_phase plaintext

  abbrev padded : List ℕ
  padded = Protect.padded boring laws k dcid pn key_phase plaintext

  module _ (sealed : List ℕ)
      (made : Protect.seal boring laws k dcid pn key_phase plaintext ≡ some sealed) where
    abbrev own_mask : IsMask (mask boring k.tx.hp (Sample.sample_of pn sealed))
    own_mask = Protect.own_mask boring laws k dcid pn key_phase plaintext sealed made

    abbrev sent : List ℕ
    sent = Protect.sent boring laws k dcid pn key_phase plaintext sealed made

    opened : open_sealed boring k.tx.aead pn header sealed ≡ ok padded
    unfolding open_sealed
    opened =
        let long_sealed : ltb (length sealed) 16 ≡ false = le→ltb_false _ _ (
          omega
            (arith, Protect.sealed_len boring laws k dcid pn key_phase plaintext sealed made)) in
        rw
          (
            open_sealed,
            long_sealed,
            laws.open-seal k.tx.aead.aead k.tx.aead.key (make_nonce k.tx.aead.iv pn) header padded
                sealed made,
          )
          refl

    open_into_sealed :
        (expected_pn : ℕ)
        → IsNear pn expected_pn (packet_number_len pn)
        → open_into boring peer (length dcid) sent expected_pn
          ≡ ok (record {
            pn = pn;
            pn_len = packet_number_len pn;
            key_phase = key_phase;
            payload = padded;
          })
    unfolding open_into
    open_into_sealed expected_pn near =
        let sealed_len = Protect.sealed_len boring laws k dcid pn key_phase plaintext sealed made in
        let long = Protect.long boring laws k dcid pn key_phase plaintext sealed made in
        let tail_len = Protect.tail_len boring laws k dcid pn key_phase plaintext in
        let masked_len = Protect.masked_len boring laws k dcid pn key_phase plaintext sealed made in
        let masked = xor_zip (tail_of pn) own_mask.ms in
        let y = bit_xor first (bit_and own_mask.m0 0x1f) in
        let sent_len = Protect.sent_len boring laws k dcid pn key_phase plaintext sealed made in
        let header_len : length header ≡ 1 + length dcid + packet_number_len pn =
          omega (arith, length-append dcid (tail_of pn), tail_len) in
        let short : ltb (length sent) (length header + 16) ≡ false =
          le→ltb_false _ _ (omega (arith, sent_len, header_len, sealed_len)) in
        let behind : slice {E = QspCryptoError} sent (length header) (length sent) ≡ ok sealed =
          ap (λ n. slice sent n (length sent))
            (header_len ∙ sym (Sample.length-front y pn dcid masked sealed masked_len long))
          ∙ Sample.slice-front y pn dcid masked sealed masked_len long in
        let parsed =
          parse_header_lem first (packet_number_len pn) dcid (tail_of pn) sealed own_mask.m0
            own_mask.ms (valid_len pn) tail_len own_mask.rest_len key_phase
            (pn % 2 ^ (packet_number_len pn * 8)) (first_byte-IsFirst pn key_phase)
            (to_be-IsByte (packet_number_len pn) pn) own_mask.rest_bytes (omega (arith, sealed_len))
            (from_be-tail_of pn) in
        rw
          (
            open_into,
            ← same_hp,
            ← same_aead,
            Sample.has_sample y pn dcid masked sealed masked_len long,
            Sample.slice-sample_of y pn dcid masked sealed masked_len long,
            own_mask.is,
            parsed,
            short,
            reconstruct_packet_number-mod pn expected_pn near,
            behind,
            opened,
          )
          refl

  -- With BoringSSL's laws, for keys and the keys of a peer whose receive direction has the same header protection key and packet key as
  -- the transmit direction: a packet that `protect_into` makes, for a packet number that is near what the peer
  -- expects, is opened by the peer's `open_into` to the same packet number, length and key phase, and to the
  -- plaintext with its zero padding.
  pub open_into-protect_into :
      (packet : List ℕ) (expected_pn : ℕ)
      → protect_into boring k dcid pn key_phase plaintext ≡ ok packet
      → IsNear pn expected_pn (packet_number_len pn)
      → open_into boring peer (length dcid) packet expected_pn
        ≡ ok (record {
          pn = pn;
          pn_len = packet_number_len pn;
          key_phase = key_phase;
          payload = plaintext ++ replicate (pad_len (length dcid) pn (length plaintext)) 0;
        })
  open_into-protect_into packet expected_pn made near =
      by_seal (Protect.seal boring laws k dcid pn key_phase plaintext) refl
    where
      by_seal :
          (r : Option (List ℕ))
          → Protect.seal boring laws k dcid pn key_phase plaintext ≡ r
          → open_into boring peer (length dcid) packet expected_pn
            ≡ ok (record {
              pn = pn;
              pn_len = packet_number_len pn;
              key_phase = key_phase;
              payload = padded;
            })
      by_seal none e =
          let failed = Protect.unsealed boring laws k dcid pn key_phase plaintext e in
          cc (failed, made)
      by_seal (some sealed) e =
          let whole =
            Protect.protect_into_sealed boring laws k dcid pn key_phase plaintext sealed e in
          let is : Protect.sent boring laws k dcid pn key_phase plaintext sealed e ≡ packet =
            cc (whole, made) in
          rw (← is) (open_into_sealed sealed e expected_pn near)
