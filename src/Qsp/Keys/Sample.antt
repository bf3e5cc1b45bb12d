-- ===== src/Qsp/Keys/Sample.antt =====
-- Where a protected packet has its sample and its sealed bytes: slt-core/src/crypto/udp_qsp/packet.rs.
use slt.Prelude.{
  ℕ, ◌+◌, ◌-◌, ◌≤◌, ◌≡◌, refl, sym, ap, ap₂, ◌∙◌, arith, List, ◌∷◌, ◌++◌, length, take, drop, ltb,
  false, le→ltb_false, ok, slice,
}
use slt.Prelude.Lists.{length-append, length-take, length-drop}
use slt.Prelude.Slices.{slice-skip, slice_len, slice_back}
use mathlib.Core.List.{append_assoc}
use slt.Qsp.Crypto.{QspCryptoError}
use slt.Qsp.Pn.{packet_number_len}
use slt.Qsp.Header.{hp_sample_range, require_hp_sample, sample_offset}
use slt.Qsp.Header.RoundTrip.{packet_number_len-bounds}

-- The sample lies behind the packet number, in the sealed bytes.
pub sample_of : ℕ → List ℕ → List ℕ
sample_of pn sealed = take 16 (drop (4 - packet_number_len pn) sealed)

module _ (first pn : ℕ) (dcid tail sealed : List ℕ) (own : length tail ≡ packet_number_len pn)
    (long : 20 ≤ length sealed + packet_number_len pn) where
  abbrev pub packet : List ℕ
  packet = first ∷ (dcid ++ (tail ++ sealed))

  pub length-packet : length packet ≡ 1 + length dcid + packet_number_len pn + length sealed
  length-packet = omega (arith, length-append dcid (tail ++ sealed), length-append tail sealed, own)

  pub front : packet ≡ (first ∷ (dcid ++ tail)) ++ sealed
  front = ap (◌∷◌ first) (sym (append_assoc dcid tail sealed))

  pub length-front : length (first ∷ (dcid ++ tail)) ≡ 1 + length dcid + packet_number_len pn
  length-front = omega (arith, length-append dcid tail, own)

  pub slice-sample_of :
      slice {E = QspCryptoError} packet
        (hp_sample_range (length dcid)).0
        (hp_sample_range (length dcid)).1
      ≡ ok (sample_of pn sealed)
  unfolding hp_sample_range sample_of sample_offset
  slice-sample_of =
      let bounds = packet_number_len-bounds pn in
      let low = 1 + length dcid + packet_number_len pn + (4 - packet_number_len pn) in
      let high = 1 + length dcid + packet_number_len pn + (4 - packet_number_len pn + 16) in
      let from : 1 + length dcid + 4 ≡ low = omega (arith, bounds) in
      let until : 1 + length dcid + 4 + 16 ≡ high = omega (arith, bounds) in
      ap₂ (slice packet) from until
      ∙ ap (λ x. slice x low high) front
      ∙ slice-skip (1 + length dcid + packet_number_len pn) (first ∷ (dcid ++ tail)) sealed
          (4 - packet_number_len pn) (4 - packet_number_len pn + 16) length-front
      ∙ slice_len sealed (4 - packet_number_len pn) 16 (omega (arith, bounds, long))

  pub has_sample : require_hp_sample packet (length dcid) ≡ ok tt
  unfolding require_hp_sample sample_offset
  has_sample =
      let short : ltb (length packet) (1 + length dcid + 4 + 16) ≡ false =
        le→ltb_false _ _ (omega (arith, length-packet, long)) in
      rw short refl

  pub length-sample_of : length (sample_of pn sealed) ≡ 16
  unfolding sample_of
  length-sample_of = omega (
    arith,
    packet_number_len-bounds pn,
    length-take 16 (drop (4 - packet_number_len pn) sealed),
    length-drop (4 - packet_number_len pn) sealed,
    long,
  )

  pub slice-front :
      slice {E = QspCryptoError} packet (length (first ∷ (dcid ++ tail))) (length packet)
      ≡ ok sealed
  slice-front =
      ap (λ x. slice x (length (first ∷ (dcid ++ tail))) (length x)) front
      ∙ slice_back (length (first ∷ (dcid ++ tail))) (first ∷ (dcid ++ tail)) sealed refl
