-- ===== src/Qsp/Pn/Reconstruct.antt =====
-- What slt-core/src/crypto/udp_qsp/pn.rs reconstructs: the number that was sent, if it is near.
use Prim.Native.Nat.{bit_and, bit_or}
use slt.Prelude.{ℕ, ◌+◌, ◌-◌, ◌*◌, ◌/◌, ◌%◌, ◌^◌, ◌≤◌, ◌<◌, ◌≡◌, sym, ap, ◌∙◌, arith, ◌⊎◌, inl, inr}
use native.Mathlib.Decide.{dec_lt}
use slt.Prelude.Masks.{bit_or_low, bit_and_high, bit_and_ones}
use slt.Prelude.Words.{u64_max}
use slt.Qsp.Pn.{packet_number_len, advance, retreat, reconstruct_packet_number}

-- The lengths that occur.
pub Len-cases : (pn : ℕ) (P : ℕ → Type 0) → P 1 → P 2 → P 3 → P 4 → P (packet_number_len pn)
unfolding packet_number_len
Len-cases pn P a b c d = ground arith

-- Clearing the low bits and putting others in: `j` and `k` share the 64 bits.
splice :
    (j k e t : ℕ)
    → (2 ^ j - 1) * 2 ^ k ≡ u64_max - (2 ^ k - 1)
    → e / 2 ^ k < 2 ^ j
    → e / 2 ^ k * 2 ^ k + e % 2 ^ k ≡ e
    → e % 2 ^ k < 2 ^ k
    → t < 2 ^ k
    → bit_or (bit_and e (u64_max - (2 ^ k - 1))) t ≡ e / 2 ^ k * 2 ^ k + t
splice j k e t mask top parts low fits =
    let cleared : bit_and e (u64_max - (2 ^ k - 1)) ≡ e / 2 ^ k * 2 ^ k =
      ap (λ m. bit_and e m) (sym mask)
      ∙ ap (λ x. bit_and x ((2 ^ j - 1) * 2 ^ k)) (sym parts)
      ∙ bit_and_high k (e / 2 ^ k) (e % 2 ^ k) (2 ^ j - 1) low
      ∙ ap (λ x. x * 2 ^ k) (bit_and_ones j (e / 2 ^ k) top) in
    ap (λ x. bit_or x t) cleared ∙ bit_or_low k (e / 2 ^ k) t fits

-- A candidate that is the number, or one window `w` below or above it, moves to the number.
module _ (e pn w half c : ℕ) (p : pn ≤ u64_max) (q : c ≤ u64_max) (whole : w ≡ half + half)
    (near : e < pn + half) (far : pn ≤ e + half) where
  advance_same : c ≡ pn → advance c w half e ≡ pn
  unfolding advance
  advance_same same = ground arith

  advance_below : c + w ≡ pn → advance c w half e ≡ pn
  unfolding advance
  advance_below below = ground arith

  advance_above : c ≡ pn + w → advance c w half e ≡ c
  unfolding advance
  advance_above above = ground arith

  retreat_same : retreat pn w half e ≡ pn
  unfolding retreat
  retreat_same = ground arith

  retreat_above : c ≡ pn + w → retreat c w half e ≡ pn
  unfolding retreat
  retreat_above above = ground arith

  nearest : (c ≡ pn) ⊎ ((c + w ≡ pn) ⊎ (c ≡ pn + w)) → retreat (advance c w half e) w half e ≡ pn
  nearest (inl same) = ap (λ x. retreat x w half e) (advance_same same) ∙ retreat_same
  nearest (inr (inl below)) = ap (λ x. retreat x w half e) (advance_below below) ∙ retreat_same
  nearest (inr (inr above)) =
      ap (λ x. retreat x w half e) (advance_above above) ∙ retreat_above above

-- A packet number is near what is expected: within half a window of the length's wire numbers.
pub record IsNear (pn expected_pn pn_len : ℕ) : Type 0 where
  pub pn_fits : pn ≤ u64_max
  pub expected_fits : expected_pn ≤ u64_max
  pub not_early : expected_pn < pn + 2 ^ (pn_len * 8) / 2
  pub not_late : pn ≤ expected_pn + 2 ^ (pn_len * 8) / 2

abbrev Recovers : ℕ → ℕ → ℕ → Type 0
Recovers pn e len = IsNear pn e len → reconstruct_packet_number (pn % 2 ^ (len * 8)) e len ≡ pn

which_window :
    (c pn w : ℕ)
    → (c < pn → c + w ≡ pn)
    → (pn < c → c ≡ pn + w)
    → (c ≡ pn) ⊎ ((c + w ≡ pn) ⊎ (c ≡ pn + w))
which_window c pn w below above = elim (dec_lt c pn) [
  | yes l ↦ inr (inl (below l))
  | no n ↦ elim (dec_lt pn c) [ yes g ↦ inr (inr (above g)) | no m ↦ inl (omega arith) ]
]

Recovers-one : (pn e : ℕ) → Recovers pn e 1
unfolding reconstruct_packet_number
Recovers-one pn e n =
    rw
      (splice 56 8 e (pn % 256) (omega arith) (omega (arith, n.expected_fits)) (omega arith)
        (omega arith) (omega arith))
      (nearest e pn 256 128 (e / 256 * 256 + pn % 256) n.pn_fits (omega (arith, n.expected_fits))
        (omega arith) (omega (arith, n.not_early)) (omega (arith, n.not_late))
        (which_window (e / 256 * 256 + pn % 256) pn 256
          (λ l. omega (arith, n.not_early, n.not_late))
          (λ g. omega (arith, n.not_early, n.not_late))))

Recovers-two : (pn e : ℕ) → Recovers pn e 2
unfolding reconstruct_packet_number
Recovers-two pn e n =
    rw
      (splice 48 16 e (pn % 65536) (omega arith) (omega (arith, n.expected_fits)) (omega arith)
        (omega arith) (omega arith))
      (nearest e pn 65536 32768 (e / 65536 * 65536 + pn % 65536) n.pn_fits
        (omega (arith, n.expected_fits)) (omega arith) (omega (arith, n.not_early))
        (omega (arith, n.not_late))
        (which_window (e / 65536 * 65536 + pn % 65536) pn 65536
          (λ l. omega (arith, n.not_early, n.not_late))
          (λ g. omega (arith, n.not_early, n.not_late))))

Recovers-three : (pn e : ℕ) → Recovers pn e 3
unfolding reconstruct_packet_number
Recovers-three pn e n =
    rw
      (splice 40 24 e (pn % 16777216) (omega arith) (omega (arith, n.expected_fits)) (omega arith)
        (omega arith) (omega arith))
      (nearest e pn 16777216 8388608 (e / 16777216 * 16777216 + pn % 16777216) n.pn_fits
        (omega (arith, n.expected_fits)) (omega arith) (omega (arith, n.not_early))
        (omega (arith, n.not_late))
        (which_window (e / 16777216 * 16777216 + pn % 16777216) pn 16777216
          (λ l. omega (arith, n.not_early, n.not_late))
          (λ g. omega (arith, n.not_early, n.not_late))))

Recovers-four : (pn e : ℕ) → Recovers pn e 4
unfolding reconstruct_packet_number
Recovers-four pn e n =
    rw
      (splice 32 32 e (pn % 4294967296) (omega arith) (omega (arith, n.expected_fits)) (omega arith)
        (omega arith) (omega arith))
      (nearest e pn 4294967296 2147483648 (e / 4294967296 * 4294967296 + pn % 4294967296) n.pn_fits
        (omega (arith, n.expected_fits)) (omega arith) (omega (arith, n.not_early))
        (omega (arith, n.not_late))
        (which_window (e / 4294967296 * 4294967296 + pn % 4294967296) pn 4294967296
          (λ l. omega (arith, n.not_early, n.not_late))
          (λ g. omega (arith, n.not_early, n.not_late))))

-- A packet number of 64 bits, cut to the bytes that `packet_number_len` gives it and put together again with
-- an expected number that is within half a window of those bytes, is the number that was sent: more
-- than the expected number less half a window, and at most half a window above it.
pub reconstruct_packet_number-mod :
    (pn expected_pn : ℕ)
    → IsNear pn expected_pn (packet_number_len pn)
    → reconstruct_packet_number
        (pn % 2 ^ (packet_number_len pn * 8))
        expected_pn
        (packet_number_len pn)
      ≡ pn
reconstruct_packet_number-mod pn expected_pn =
    Len-cases pn (Recovers pn expected_pn) (Recovers-one pn expected_pn)
      (Recovers-two pn expected_pn) (Recovers-three pn expected_pn) (Recovers-four pn expected_pn)
