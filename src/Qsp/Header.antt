-- ===== src/Qsp/Header.antt =====
-- The short header of a UDP-QSP packet: slt-core/src/crypto/udp_qsp/packet.rs. The mask of header protection is
-- the list of its five bytes.
pub mod Masking
pub mod RoundTrip
pub mod Safety
use Prim.Native.Nat.{bit_and, bit_or, bit_xor}
use slt.Prelude.{
  ℕ, zero, suc, ◌+◌, ◌-◌, ◌≡◌, ◌<◌, List, [], ◌∷◌, ◌++◌, length, take, drop, replicate, ltb, ◌==◌,
  ◌||◌, not, if◌then◌else◌, Bool, Result, ok, err, panic, index, slice, guard, ◌>>=◌, ◌>>◌,
}
use slt.Prelude.Bytes.{to_be, from_be}
use slt.Qsp.Crypto.{QspCryptoError, invalid_packet_number, invalid_header, packet_too_short}
use slt.Qsp.Pn.{packet_number_len, max_wire_pn_len}

abbrev pub fixed_bit : ℕ
fixed_bit = 0x40

abbrev pub key_phase_bit : ℕ
key_phase_bit = 0x04

abbrev pub reserved_mask : ℕ
reserved_mask = 0x18

abbrev pub pn_len_mask : ℕ
pn_len_mask = 0x03

abbrev pub hp_mask_len : ℕ
hp_mask_len = 5

abbrev pub hp_sample_len : ℕ
hp_sample_len = 16

abbrev pub aead_tag_len : ℕ
aead_tag_len = 16

pub record BuiltHeader : Type 0 where
  pub pn_len : ℕ
  pub pn_offset : ℕ

pub record ParsedHeader : Type 0 where
  pub pn : ℕ
  pub pn_len : ℕ
  pub key_phase : Bool
  pub header : List ℕ

-- The first byte that is written, with `pn_len` from 1 to 4.
unfoldable pub first_byte : ℕ → Bool → ℕ
first_byte pn_len key_phase =
    let first = bit_or fixed_bit (bit_and (pn_len - 1) pn_len_mask) in
    if key_phase then bit_or first key_phase_bit else first

-- The header, and `out` with it. That `pn_len` is at most 4 makes its conversion to `u8` succeed.
unfoldable pub build_header :
    List ℕ → ℕ → Bool → List ℕ → Result QspCryptoError (BuiltHeader × List ℕ)
unfolding first_byte
build_header dcid pn key_phase out =
    let pn_len = packet_number_len pn in
    do
      guard (not (pn_len == 0 || ltb max_wire_pn_len pn_len)) invalid_packet_number
      tail ← slice (to_be 8 pn) (8 - pn_len) 8
      ok (
        record { pn_len = pn_len; pn_offset = 1 + length dcid },
        out ++ first_byte pn_len key_phase ∷ dcid ++ tail,
      )

-- `bytes[i] = b`
unfoldable pub store : List ℕ → ℕ → ℕ → Result QspCryptoError (List ℕ)
store [] i b = panic
store (x ∷ xs) zero b = ok (b ∷ xs)
store (x ∷ xs) (suc i) b = store xs i b >>= λ ys. ok (x ∷ ys)

-- The rounds `i .. i + n` of the loop that fills `pn_bytes`.
unfoldable pub read_pn : ℕ → ℕ → ℕ → ℕ → List ℕ → List ℕ → List ℕ → Result QspCryptoError (List ℕ)
unfolding index
read_pn zero i pn_len pn_offset packet mask pn_bytes = ok pn_bytes
read_pn (suc n) i pn_len pn_offset packet mask pn_bytes = do
  b ← index packet (pn_offset + i)
  m ← index mask (1 + i)
  pn_bytes' ← store pn_bytes (max_wire_pn_len - pn_len + i) (bit_xor b m)
  read_pn n (suc i) pn_len pn_offset packet mask pn_bytes'

unfoldable pub parse_header : ℕ → List ℕ → List ℕ → Result QspCryptoError ParsedHeader
parse_header dcid_len packet mask =
    let pn_offset = 1 + dcid_len in
    do
      p ← index packet 0
      m ← index mask 0
      let first = bit_xor p (bit_and m 0x1f)
      guard (not (bit_and first fixed_bit == 0 || not (bit_and first 0x80 == 0))) invalid_header
      guard (bit_and first reserved_mask == 0) invalid_header
      let pn_len = bit_and first pn_len_mask + 1
      guard (not (pn_len == 0 || ltb max_wire_pn_len pn_len)) invalid_packet_number
      guard (not (ltb (length packet) (pn_offset + pn_len + aead_tag_len))) packet_too_short
      pn_bytes ← read_pn pn_len 0 pn_len pn_offset packet mask (replicate max_wire_pn_len 0)
      dcid ← slice packet 1 pn_offset
      tail ← slice pn_bytes (max_wire_pn_len - pn_len) (length pn_bytes)
      ok (record {
        pn = from_be pn_bytes;
        pn_len = pn_len;
        key_phase = not (bit_and first key_phase_bit == 0);
        header = first ∷ dcid ++ tail;
      })

-- The rounds `i .. i + n` of the loop that masks the packet number.
unfoldable pub mask_pn : ℕ → ℕ → ℕ → List ℕ → List ℕ → Result QspCryptoError (List ℕ)
mask_pn zero i pn_offset packet mask = ok packet
mask_pn (suc n) i pn_offset packet mask = do
  b ← index packet (pn_offset + i)
  m ← index mask (1 + i)
  packet' ← store packet (pn_offset + i) (bit_xor b m)
  mask_pn n (suc i) pn_offset packet' mask

unfoldable pub apply_header_protection : List ℕ → ℕ → ℕ → List ℕ → Result QspCryptoError (List ℕ)
apply_header_protection packet pn_offset pn_len mask = do
  guard (not (pn_len == 0 || ltb max_wire_pn_len pn_len)) invalid_packet_number
  guard (not (ltb (length packet) (pn_offset + pn_len))) packet_too_short
  b ← index packet 0
  m ← index mask 0
  packet' ← store packet 0 (bit_xor b (bit_and m 0x1f))
  mask_pn pn_len 0 pn_offset packet' mask

unfoldable pub sample_offset : ℕ → ℕ
sample_offset dcid_len = 1 + dcid_len + 4

unfoldable pub require_hp_sample : List ℕ → ℕ → Result QspCryptoError (Unit {0})
require_hp_sample packet dcid_len =
    guard (not (ltb (length packet) (sample_offset dcid_len + hp_sample_len))) packet_too_short

-- The start and the end of the range.
unfoldable pub hp_sample_range : ℕ → ℕ × ℕ
hp_sample_range dcid_len = (sample_offset dcid_len, sample_offset dcid_len + hp_sample_len)
