-- ===== src/Qsp/Header/Safety.antt =====
-- The parser of slt-core/src/crypto/udp_qsp/packet.rs reads no byte that is not there.
use Prim.Native.Nat.{bit_and, bit_xor}
use slt.Prelude.{
  ℕ, zero, suc, ◌+◌, ◌-◌, ◌≤◌, ◌<◌, ◌≡◌, ◌≢◌, refl, ap, ◌∙◌, arith, List, [], ◌∷◌, length,
  replicate, ltb, ◌==◌, ◌||◌, not, true, ok, panic, guard, ◌>>=◌, get_or, bind-ne-panic,
  guard-ne-panic, guard-true,
}
use slt.Prelude.Lists.{length-replicate}
use slt.Prelude.Slices.{index_ok, slice_ok}
use slt.Qsp.Crypto.{QspCryptoError, invalid_header, invalid_packet_number, packet_too_short}
use slt.Qsp.Pn.{max_wire_pn_len}
use slt.Qsp.Header.{
  store, read_pn, parse_header, fixed_bit, reserved_mask, pn_len_mask, aead_tag_len,
}

store_ok :
    (xs : List ℕ) (i b : ℕ)
    → i < length xs
    → (ys : List ℕ) × (store xs i b ≡ ok ys) × (length ys ≡ length xs)
unfolding store
store_ok [] i b h = absurd (omega arith)
store_ok (x ∷ xs) zero b h = (b ∷ xs, refl, refl)
store_ok (x ∷ xs) (suc i) b h =
    let (ys, e, n) = store_ok xs i b (omega arith) in
    (x ∷ ys, ap (λ r. r >>= λ zs. ok (x ∷ zs)) e, ap suc n)

read_pn_ok :
    (n i pn_len offset : ℕ) (packet mask bytes : List ℕ)
    → offset + i + n ≤ length packet
    → 1 + i + n ≤ length mask
    → max_wire_pn_len - pn_len + i + n ≤ length bytes
    → (bytes' : List ℕ) × (read_pn n i pn_len offset packet mask bytes ≡ ok bytes')
      × (length bytes' ≡ length bytes)
unfolding read_pn
read_pn_ok zero i pn_len offset packet mask bytes p q r = (bytes, refl, refl)
read_pn_ok (suc n) i pn_len offset packet mask bytes p q r =
    let b = get_or packet (offset + i) 0 in
    let m = get_or mask (1 + i) 0 in
    let (stored, e, size) =
      store_ok bytes (max_wire_pn_len - pn_len + i) (bit_xor b m) (omega (arith, r)) in
    let (bytes', rest, size') =
      read_pn_ok n (suc i) pn_len offset packet mask stored (omega (arith, p)) (omega (arith, q))
        (omega (arith, r, size)) in
    (
      bytes',
      rw
          (
            read_pn,
            index_ok {E = QspCryptoError} packet (offset + i) 0 (omega (arith, p)),
            index_ok {E = QspCryptoError} mask (1 + i) 0 (omega (arith, q)),
            e,
          )
          rest,
      size' ∙ size,
    )

pub not-ltb : (a b : ℕ) → not (ltb a b) ≡ true → b ≤ a
not-ltb a b h = ground arith

len_le : (n : ℕ) → not (n == 0 || ltb max_wire_pn_len n) ≡ true → n ≤ 4
len_le n h = ground arith

-- For a mask of five bytes and a packet that is not empty.
pub parse_header-ne-panic :
    (dcid_len : ℕ) (packet mask : List ℕ)
    → 1 ≤ length packet
    → length mask ≡ 5
    → parse_header dcid_len packet mask ≢ panic
unfolding parse_header
parse_header-ne-panic dcid_len packet mask h m =
    let first = bit_xor (get_or packet 0 0) (bit_and (get_or mask 0 0) 0x1f) in
    let pn_len = bit_and first pn_len_mask + 1 in
    rw
      (
        parse_header,
        index_ok {E = QspCryptoError} packet 0 0 (omega arith),
        index_ok {E = QspCryptoError} mask 0 0 (omega arith),
      )
      (bind-ne-panic
        (guard (not (bit_and first fixed_bit == 0 || not (bit_and first 0x80 == 0))) invalid_header)
        _ (guard-ne-panic _ _)
        (λ a p.
          bind-ne-panic (guard (bit_and first reserved_mask == 0) invalid_header) _
            (guard-ne-panic _ _)
            (λ a' p'.
              bind-ne-panic
                (guard (not (pn_len == 0 || ltb max_wire_pn_len pn_len)) invalid_packet_number) _
                (guard-ne-panic _ _)
                (λ u valid.
                  bind-ne-panic
                    (guard (not (ltb (length packet) (1 + dcid_len + pn_len + aead_tag_len)))
                      packet_too_short)
                    _ (guard-ne-panic _ _)
                    (λ u' long.
                      let few = len_le pn_len (guard-true _ _ u valid) in
                      let room =
                        not-ltb (length packet) (1 + dcid_len + pn_len + 16)
                          (guard-true _ _ u' long) in
                      let (bytes, e, size) =
                        read_pn_ok pn_len 0 pn_len (1 + dcid_len) packet mask (replicate 4 0)
                          (omega (arith, room)) (omega (arith, few))
                          (omega (arith, few, length-replicate {A = ℕ} 4 0)) in
                      rw
                        (
                          e,
                          slice_ok {E = QspCryptoError} packet 1 (1 + dcid_len) (omega arith)
                              (omega (arith, room)),
                          slice_ok {E = QspCryptoError} bytes (4 - pn_len) (length bytes)
                              (omega (arith, size, length-replicate {A = ℕ} 4 0)) (omega arith),
                        )
                        (λ q. cc q))))))
