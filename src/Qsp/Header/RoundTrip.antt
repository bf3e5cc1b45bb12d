-- ===== src/Qsp/Header/RoundTrip.antt =====
-- What slt-core/src/crypto/udp_qsp/packet.rs builds and protects, it parses again.
use Prim.Native.Nat.{bit_and, bit_xor}
use slt.Prelude.{
  ℕ, ◌+◌, ◌-◌, ◌*◌, ◌%◌, ◌^◌, ◌≤◌, ◌<◌, ◌≡◌, refl, sym, ap, ap₂, ◌∙◌, arith, List, [], ◌∷◌, ◌++◌,
  length, replicate, ◌==◌, not, Bool, true, false, ok, index, slice, ◌||◌, ltb, le→ltb_false,
}
use slt.Prelude.Lists.{length-append, length-replicate, All, replicate-add}
use slt.Prelude.Slices.{slice_front, slice-skip, slice_back}
use slt.Prelude.Bytes.{IsByte, to_be, from_be}
use slt.Prelude.Masks.{bit_and-lt}
use slt.Prelude.Xor.{bit_xor_twice}
use slt.Qsp.Backend.{xor_zip}
use slt.Qsp.Crypto.{QspCryptoError}
use slt.Qsp.Pn.{packet_number_len, max_wire_pn_len}
use slt.Qsp.Pn.Reconstruct.{Len-cases}
use slt.Qsp.Header.{
  first_byte, build_header, parse_header, apply_header_protection, fixed_bit, reserved_mask,
  pn_len_mask, key_phase_bit, store, mask_pn, read_pn,
}
use slt.Qsp.Header.Masking.{length-xor_zip, xor_zip_twice, mask_pn-xor_zip, read_pn-xor_zip}

-- What the first byte says.
pub record IsFirst (first pn_len : ℕ) (key_phase : Bool) : Type 0 where
  pub fits : first < 256
  pub fixed : (bit_and first fixed_bit == 0) ≡ false
  pub short : (bit_and first 0x80 == 0) ≡ true
  pub reserved : (bit_and first reserved_mask == 0) ≡ true
  pub own_len : bit_and first pn_len_mask + 1 ≡ pn_len
  pub own_phase : not (bit_and first key_phase_bit == 0) ≡ key_phase

pub first_byte-IsFirst :
    (pn : ℕ) (key_phase : Bool)
    → IsFirst (first_byte (packet_number_len pn) key_phase) (packet_number_len pn) key_phase
unfolding first_byte
first_byte-IsFirst pn b =
    Len-cases pn (λ n. IsFirst (first_byte n b) n b) (one b) (two b) (three b) (four b)
  where
    one : (b : Bool) → IsFirst (first_byte 1 b) 1 b
    one true = record {
      fits = omega arith;
      fixed = refl;
      short = refl;
      reserved = refl;
      own_len = refl;
      own_phase = refl;
    }
    one false = record {
      fits = omega arith;
      fixed = refl;
      short = refl;
      reserved = refl;
      own_len = refl;
      own_phase = refl;
    }

    two : (b : Bool) → IsFirst (first_byte 2 b) 2 b
    two true = record {
      fits = omega arith;
      fixed = refl;
      short = refl;
      reserved = refl;
      own_len = refl;
      own_phase = refl;
    }
    two false = record {
      fits = omega arith;
      fixed = refl;
      short = refl;
      reserved = refl;
      own_len = refl;
      own_phase = refl;
    }

    three : (b : Bool) → IsFirst (first_byte 3 b) 3 b
    three true = record {
      fits = omega arith;
      fixed = refl;
      short = refl;
      reserved = refl;
      own_len = refl;
      own_phase = refl;
    }
    three false = record {
      fits = omega arith;
      fixed = refl;
      short = refl;
      reserved = refl;
      own_len = refl;
      own_phase = refl;
    }

    four : (b : Bool) → IsFirst (first_byte 4 b) 4 b
    four true = record {
      fits = omega arith;
      fixed = refl;
      short = refl;
      reserved = refl;
      own_len = refl;
      own_phase = refl;
    }
    four false = record {
      fits = omega arith;
      fixed = refl;
      short = refl;
      reserved = refl;
      own_len = refl;
      own_phase = refl;
    }

pub packet_number_len-bounds : (pn : ℕ) → (1 ≤ packet_number_len pn) × (packet_number_len pn ≤ 4)
packet_number_len-bounds pn =
    Len-cases pn (λ n. (1 ≤ n) × (n ≤ 4)) (omega arith) (omega arith) (omega arith) (omega arith)

-- The bytes of the number that go on the wire.
abbrev pub tail_of : ℕ → List ℕ
tail_of pn = to_be (packet_number_len pn) pn

slice-tail_of :
    (pn : ℕ)
    → slice {E = QspCryptoError} (to_be 8 pn) (8 - packet_number_len pn) 8 ≡ ok (tail_of pn)
unfolding slice to_be
slice-tail_of pn =
    Len-cases pn (λ n. slice {E = QspCryptoError} (to_be 8 pn) (8 - n) 8 ≡ ok (to_be n pn)) refl
      refl refl refl

-- The length is one that a header can have.
pub valid_len :
    (pn : ℕ) → (packet_number_len pn == 0 || ltb max_wire_pn_len (packet_number_len pn)) ≡ false
valid_len pn = Len-cases pn (λ n. (n == 0 || ltb max_wire_pn_len n) ≡ false) refl refl refl refl

pub build_header_lem :
    (dcid : List ℕ) (pn : ℕ) (key_phase : Bool)
    → build_header dcid pn key_phase []
      ≡ ok (
        record { pn_len = packet_number_len pn; pn_offset = 1 + length dcid },
        first_byte (packet_number_len pn) key_phase ∷ (dcid ++ tail_of pn),
      )
unfolding build_header
build_header_lem dcid pn key_phase = rw (build_header, valid_len pn, slice-tail_of pn) refl

pub from_be-tail_of :
    (pn : ℕ)
    → from_be (replicate (4 - packet_number_len pn) 0 ++ tail_of pn)
      ≡ pn % 2 ^ (packet_number_len pn * 8)
unfolding from_be to_be
from_be-tail_of pn =
    Len-cases pn (λ n. from_be (replicate (4 - n) 0 ++ to_be n pn) ≡ pn % 2 ^ (n * 8)) (omega arith)
      (omega arith) (omega arith) (omega arith)

-- The header under header protection, in front of `body`.
abbrev pub protected : ℕ → List ℕ → List ℕ → List ℕ → ℕ → List ℕ → List ℕ
protected first dcid tail body m0 ms =
    bit_xor first (bit_and m0 0x1f) ∷ (dcid ++ (xor_zip tail ms ++ body))

module _ (first len : ℕ) (dcid tail body : List ℕ) (m0 : ℕ) (ms : List ℕ)
    (valid : (len == 0 || ltb max_wire_pn_len len) ≡ false) (own : length tail ≡ len)
    (mask_len : length ms ≡ 4) where
  reaches : len ≤ 4
  reaches = ground (arith, valid)

  length-protected :
      length (protected first dcid tail body m0 ms) ≡ 1 + length dcid + len + length body
  length-protected = omega (
    arith,
    length-append dcid (xor_zip tail ms ++ body),
    length-append (xor_zip tail ms) body,
    length-xor_zip tail ms,
    own,
  )

  pub apply_header_protection_lem :
      apply_header_protection (first ∷ (dcid ++ (tail ++ body))) (1 + length dcid) len (m0 ∷ ms)
      ≡ ok (protected first dcid tail body m0 ms)
  unfolding apply_header_protection index store
  apply_header_protection_lem =
      let long : ltb (length (first ∷ (dcid ++ (tail ++ body)))) (1 + length dcid + len) ≡ false =
        le→ltb_false _ _
          (omega (arith, length-append dcid (tail ++ body), length-append tail body, own)) in
      let masked : mask_pn len 0 (1 + length dcid)
            (bit_xor first (bit_and m0 0x1f) ∷ (dcid ++ (tail ++ body))) (m0 ∷ ms)
          ≡ ok (protected first dcid tail body m0 ms) =
        ap
          (λ n.
            mask_pn n 0 (1 + length dcid)
              (bit_xor first (bit_and m0 0x1f) ∷ (dcid ++ (tail ++ body))) (m0 ∷ ms))
          (sym own)
        ∙ mask_pn-xor_zip tail ms (bit_xor first (bit_and m0 0x1f) ∷ dcid) body (m0 ∷ []) 0
            (1 + length dcid) (omega arith) (omega arith) (omega (arith, own, mask_len, reaches)) in
      rw (apply_header_protection, valid, long, masked) refl

  pub parse_header_lem :
      (key_phase : Bool) (value : ℕ)
      → IsFirst first len key_phase
      → All IsByte tail
      → All IsByte ms
      → 16 ≤ length body
      → from_be (replicate (4 - len) 0 ++ tail) ≡ value
      → parse_header (length dcid) (protected first dcid tail body m0 ms) (m0 ∷ ms)
        ≡ ok (record {
          pn = value;
          pn_len = len;
          key_phase = key_phase;
          header = first ∷ (dcid ++ tail);
        })
  unfolding parse_header index
  parse_header_lem key_phase value f tail_bytes ms_bytes long is =
      let zeros : List ℕ = replicate (4 - len) 0 in
      let zeros_len : length zeros ≡ 4 - len = length-replicate {A = ℕ} (4 - len) 0 in
      let unmasked : bit_xor (bit_xor first (bit_and m0 0x1f)) (bit_and m0 0x1f) ≡ first =
        bit_xor_twice 8 first (bit_and m0 0x1f) f.fits
          (omega (arith, bit_and-lt 5 m0 0x1f (omega arith))) in
      let long' : ltb (length (protected first dcid tail body m0 ms)) (1 + length dcid + len + 16)
          ≡ false =
        le→ltb_false _ _ (omega (arith, length-protected, long)) in
      let read : read_pn len 0 len (1 + length dcid) (protected first dcid tail body m0 ms)
            (m0 ∷ ms) (replicate 4 0)
          ≡ ok (zeros ++ tail) =
        ap₂
          (λ n z.
            read_pn n 0 len (1 + length dcid) (protected first dcid tail body m0 ms) (m0 ∷ ms) z)
          (sym (length-xor_zip tail ms ∙ own))
          (let whole : 4 ≡ 4 - len + len = omega (arith, reaches) in
            ap (λ n. replicate n 0) whole ∙ replicate-add (4 - len) len 0)
        ∙ read_pn-xor_zip (xor_zip tail ms) ms (bit_xor first (bit_and m0 0x1f) ∷ dcid) body
            (m0 ∷ []) zeros (replicate len 0) 0 len (1 + length dcid) (omega arith) (omega arith)
            (omega (arith, zeros_len))
            (omega (arith, length-xor_zip tail ms, own, mask_len, reaches))
            (omega (arith, length-replicate {A = ℕ} len 0, length-xor_zip tail ms, own))
        ∙ ap (λ t. ok (zeros ++ t)) (xor_zip_twice tail ms tail_bytes ms_bytes) in
      let cid : slice {E = QspCryptoError} (protected first dcid tail body m0 ms) 1
            (1 + length dcid)
          ≡ ok dcid =
        slice-skip 1 (bit_xor first (bit_and m0 0x1f) ∷ []) (dcid ++ (xor_zip tail ms ++ body)) 0
          (length dcid) refl
        ∙ slice_front (length dcid) dcid (xor_zip tail ms ++ body) refl in
      let rest : slice {E = QspCryptoError} (zeros ++ tail) (4 - len) (length (zeros ++ tail))
          ≡ ok tail =
        slice_back (4 - len) zeros tail zeros_len in
      rw
        (
          parse_header, unmasked, f.fixed, f.short, f.reserved, f.own_len, f.own_phase, valid,
          long', read, cid, rest, is,
        )
        refl
