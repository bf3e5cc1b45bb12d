-- ===== src/Qsp/Keys/Protect.antt =====
-- The packets that `protect_into` of slt-core/src/crypto/udp_qsp/keys/mod.rs makes.
use Prim.Native.Nat.{bit_and, bit_xor}
use slt.Prelude.{◌⊎◌, inl, inr}
use slt.Prelude.{
  ℕ, ◌+◌, ◌≤◌, ◌≡◌, refl, sym, ap, ◌∙◌, arith, List, ◌∷◌, ◌++◌, length, replicate, Bool, Option,
  none, some, ok, err,
}
use slt.Prelude.Lists.{length-append, length-replicate}
use slt.Prelude.Slices.{slice_whole}
use slt.Prelude.Bytes.{length-to_be}
use slt.Qsp.Boring.{Boring, BoringLaws}
use slt.Qsp.Crypto.{QspCryptoError, crypto_fail}
use slt.Qsp.Pn.{packet_number_len}
use slt.Qsp.Header.{first_byte, hp_sample_range, sample_offset}
use slt.Qsp.Header.RoundTrip.{
  tail_of, protected, build_header_lem, apply_header_protection_lem, valid_len,
  packet_number_len-bounds,
}
use slt.Qsp.Header.Masking.{length-xor_zip}
use slt.Qsp.Backend.{xor_zip, mask, seal_into, make_nonce}
use slt.Qsp.Backend.Mask.{IsMask, mask-IsMask}
use slt.Qsp.Keys.Sample
use slt.Qsp.Keys.{UdpQspKeys, pad_len, protect_into}

module _ (boring : Boring) (laws : BoringLaws boring) (k : UdpQspKeys) (dcid : List ℕ) (pn : ℕ)
    (key_phase : Bool) (plaintext : List ℕ) where
  abbrev pub first : ℕ
  first = first_byte (packet_number_len pn) key_phase

  abbrev pub header : List ℕ
  header = first ∷ (dcid ++ tail_of pn)

  abbrev pub padded : List ℕ
  padded = plaintext ++ replicate (pad_len (length dcid) pn (length plaintext)) 0

  pub tail_len : length (tail_of pn) ≡ packet_number_len pn
  tail_len = length-to_be (packet_number_len pn) pn

  padded_len : length padded ≡ length plaintext + pad_len (length dcid) pn (length plaintext)
  padded_len = omega (
    arith,
    length-append plaintext (replicate (pad_len (length dcid) pn (length plaintext)) 0),
    length-replicate {A = ℕ} (pad_len (length dcid) pn (length plaintext)) 0,
  )

  long_enough :
      (sealed : List ℕ)
      → length sealed ≡ length padded + 16
      → 20 ≤ length sealed + packet_number_len pn
  unfolding pad_len hp_sample_range sample_offset
  long_enough sealed h = omega (arith, h, padded_len, packet_number_len-bounds pn)

  -- The packet, with the mask that its own sample gives.
  module _ (sealed : List ℕ)
      (made : boring.aead_ctx_seal k.tx.aead.aead k.tx.aead.key
          (make_nonce k.tx.aead.iv pn)
          header
          padded
        ≡ some sealed) where
    pub sealed_len : length sealed ≡ length padded + 16
    sealed_len = laws.seal-length _ _ _ _ _ _ made

    pub long : 20 ≤ length sealed + packet_number_len pn
    long = long_enough sealed sealed_len

    pub own_mask : IsMask (mask boring k.tx.hp (Sample.sample_of pn sealed))
    own_mask =
        mask-IsMask boring laws k.tx.hp (Sample.sample_of pn sealed)
          (Sample.length-sample_of first pn dcid (tail_of pn) sealed tail_len long)

    abbrev pub sent : List ℕ
    sent = protected first dcid (tail_of pn) sealed own_mask.m0 own_mask.ms

    sealed_behind :
        seal_into boring k.tx.aead pn (length header) padded header
        ≡ ok (first ∷ (dcid ++ (tail_of pn ++ sealed)))
    unfolding seal_into
    sealed_behind =
        rw (seal_into, slice_whole {E = QspCryptoError} (length header) header refl, made)
          (ap ok (sym (Sample.front first pn dcid (tail_of pn) sealed tail_len long)))

    pub protect_into_sealed : protect_into boring k dcid pn key_phase plaintext ≡ ok sent
    unfolding protect_into
    protect_into_sealed =
        rw
          (
            protect_into,
            build_header_lem dcid pn key_phase,
            sealed_behind,
            Sample.has_sample first pn dcid (tail_of pn) sealed tail_len long,
            Sample.slice-sample_of first pn dcid (tail_of pn) sealed tail_len long,
            own_mask.is,
          )
          (apply_header_protection_lem first (packet_number_len pn) dcid (tail_of pn) sealed
            own_mask.m0 own_mask.ms (valid_len pn) tail_len own_mask.rest_len)

    pub masked_len : length (xor_zip (tail_of pn) own_mask.ms) ≡ packet_number_len pn
    masked_len = length-xor_zip (tail_of pn) own_mask.ms ∙ tail_len

    pub sent_len : length sent ≡ 1 + length dcid + packet_number_len pn + length sealed
    sent_len =
        Sample.length-packet (bit_xor first (bit_and own_mask.m0 0x1f)) pn dcid
          (xor_zip (tail_of pn) own_mask.ms) sealed masked_len long

  abbrev pub seal : Option (List ℕ)
  seal =
      boring.aead_ctx_seal k.tx.aead.aead k.tx.aead.key (make_nonce k.tx.aead.iv pn) header padded

  pub unsealed : seal ≡ none → protect_into boring k dcid pn key_phase plaintext ≡ err crypto_fail
  unfolding protect_into seal_into
  unsealed made =
      rw
        (
          protect_into,
          build_header_lem dcid pn key_phase,
          seal_into,
          slice_whole {E = QspCryptoError} (length header) header refl,
          made,
        )
        refl

  -- A packet that is as long as its header, the plaintext with its padding and the tag together, and long enough
  -- for the sample.
  pub record IsPacket (packet : List ℕ) : Type 0 where
    pub made : protect_into boring k dcid pn key_phase plaintext ≡ ok packet
    pub whole :
        length packet
        ≡ 1
          + length dcid
          + packet_number_len pn
          + (length plaintext + pad_len (length dcid) pn (length plaintext))
          + 16
    pub has_sample : 1 + length dcid + 4 + 16 ≤ length packet

  -- With BoringSSL's laws, `protect_into` returns a packet or the error of a failed encryption, and never panics. A
  -- packet is as long as its header, the plaintext with its padding and the tag together, and long enough for the
  -- sample of header protection.
  pub protect_into-IsPacket :
      ((packet : List ℕ) × IsPacket packet)
      ⊎ (protect_into boring k dcid pn key_phase plaintext ≡ err crypto_fail)
  protect_into-IsPacket = by_seal seal refl
    where
      by_seal :
          (r : Option (List ℕ))
          → seal ≡ r
          → ((packet : List ℕ) × IsPacket packet)
            ⊎ (protect_into boring k dcid pn key_phase plaintext ≡ err crypto_fail)
      by_seal none e = inr (unsealed e)
      by_seal (some sealed) e = inl (
        sent sealed e,
        record {
          made = protect_into_sealed sealed e;
          whole = omega (arith, sent_len sealed e, sealed_len sealed e, padded_len);
          has_sample = omega (arith, sent_len sealed e, long sealed e);
        },
      )
