-- ===== src/Qsp/Replay/Bitmap.antt =====
-- What the bit operations of the replay window do to each of its 1024 bits.
use Prim.Native.Nat.{bit_or}
use native.Mathlib.Decide.{ℕ_discrete}
use slt.Prelude.{ℕ, suc, ◌+◌, ◌-◌, ◌/◌, ◌%◌, ◌^◌, ◌<◌, ◌≡◌, ◌≢◌, refl, sym, ◌∙◌, replicate, arith}
use slt.Prelude.{List, ◌==◌, length, get_or, set, get_or-set_self, get_or-set_ne}
use slt.Prelude.{length-set, get_or-replicate}
use slt.Prelude.Bits.{digit, digit-zero, digit-lt_two, digit-bit_or, digit-bit_and, digit-pow_self}
use slt.Prelude.Bits.{digit-pow_ne, digit_complement, bit_and-pow_zero, bit_and-pow_one}
use native.Mathlib.Nat.{pow-suc, one-le-pow, pow-le-pow_right}
use slt.Qsp.Replay.{ReplayWindow, u64_max, is_set, set_bit, clear_bit}

-- The bit of the ring at index `i`, as 0 or 1.
unfoldable pub bit_at : List ℕ → ℕ → ℕ
bit_at bits i = digit (get_or bits (i / 64) 0) (i % 64)

-- A mask of one bit, complemented in 64 bits.
complement_mask : (b i : ℕ) → b < 64 → i < 64 → digit (u64_max - 2 ^ b) i + digit (2 ^ b) i ≡ 1
complement_mask b i p q = digit_complement 64 (2 ^ b) i fits q
  where
    fits : 2 ^ b < 2 ^ 64
    fits = omega (
      arith,
      pow-le-pow_right {n = 2} (omega arith) {i = suc b} {j = 64} p,
      pow-suc 2 b,
      one-le-pow b 2,
    )

-- A write of one word, seen bit by bit.
bit_at-set_same :
    (bits : List ℕ) (word v i : ℕ)
    → length bits ≡ 16
    → word < 16
    → i / 64 ≡ word
    → bit_at (set bits word v) i ≡ digit v (i % 64)
unfolding bit_at
bit_at-set_same bits word v i full h e = rw (e, get_or-set_self bits word v 0 (omega arith))

bit_at-set_other :
    (bits : List ℕ) (word v i : ℕ) → i / 64 ≢ word → bit_at (set bits word v) i ≡ bit_at bits i
unfolding bit_at
bit_at-set_other bits word v i ne = rw (get_or-set_ne bits word (i / 64) v 0 (λ e. ne (sym e)))

bit_at_word :
    (bits : List ℕ) (word i : ℕ)
    → i / 64 ≡ word
    → bit_at bits i ≡ digit (get_or bits word 0) (i % 64)
unfolding bit_at
bit_at_word bits word i e = rw e

-- Two indices of the ring are equal when word and bit are.
same_index : (i j : ℕ) → i / 64 ≡ j / 64 → i % 64 ≡ j % 64 → i ≡ j
same_index i j p q = omega arith

pub bit_at-replicate : (i : ℕ) → bit_at (replicate 16 0) i ≡ 0
unfolding bit_at
bit_at-replicate i = rw (get_or-replicate {A = ℕ} 16 (i / 64) 0) (digit-zero (i % 64))

module _ (w : ReplayWindow) (pn : ℕ) where
  abbrev idx : ℕ
  idx = pn % 1024

  abbrev old_word : ℕ
  old_word = get_or w.bits (idx / 64) 0

  pub length-set_bit : length (set_bit w pn).bits ≡ length w.bits
  unfolding set_bit
  length-set_bit = length-set w.bits _ _

  pub length-clear_bit : length (clear_bit w pn).bits ≡ length w.bits
  unfolding clear_bit
  length-clear_bit = length-set w.bits _ _

  pub bit_at-set_bit_self : length w.bits ≡ 16 → bit_at (set_bit w pn).bits (pn % 1024) ≡ 1
  unfolding set_bit
  bit_at-set_bit_self full =
      bit_at-set_same w.bits (idx / 64) (bit_or old_word (2 ^ (idx % 64))) idx full (omega arith)
        refl
      ∙ omega (
        arith,
        digit-bit_or (idx % 64) old_word (2 ^ (idx % 64)),
        digit-pow_self (idx % 64),
        digit-lt_two old_word (idx % 64),
      )

  pub bit_at-set_bit_ne :
      (i : ℕ) → length w.bits ≡ 16 → i ≢ pn % 1024 → bit_at (set_bit w pn).bits i ≡ bit_at w.bits i
  unfolding set_bit
  bit_at-set_bit_ne i full ne = elim (ℕ_discrete (i / 64) (idx / 64)) [
    | yes e ↦
        bit_at-set_same w.bits (idx / 64) (bit_or old_word (2 ^ (idx % 64))) i full (omega arith) e
        ∙ omega (
          arith,
          digit-bit_or (i % 64) old_word (2 ^ (idx % 64)),
          digit-pow_ne (idx % 64) (i % 64) (λ q. ne (same_index i idx e (sym q))),
          bit_at_word w.bits (idx / 64) i e,
        )
    | no n ↦ bit_at-set_other w.bits (idx / 64) _ i n
  ]

  pub bit_at-clear_bit_self : length w.bits ≡ 16 → bit_at (clear_bit w pn).bits (pn % 1024) ≡ 0
  unfolding clear_bit
  bit_at-clear_bit_self full =
      bit_at-set_same w.bits (idx / 64) _ idx full (omega arith) refl
      ∙ omega (
        arith,
        digit-bit_and (idx % 64) old_word (u64_max - 2 ^ (idx % 64)),
        digit-pow_self (idx % 64),
        complement_mask (idx % 64) (idx % 64) (omega arith) (omega arith),
      )

  pub bit_at-clear_bit_ne :
      (i : ℕ)
      → length w.bits ≡ 16
      → i ≢ pn % 1024
      → bit_at (clear_bit w pn).bits i ≡ bit_at w.bits i
  unfolding clear_bit
  bit_at-clear_bit_ne i full ne = elim (ℕ_discrete (i / 64) (idx / 64)) [
    | yes e ↦
        bit_at-set_same w.bits (idx / 64) _ i full (omega arith) e
        ∙ omega (
          arith,
          digit-bit_and (i % 64) old_word (u64_max - 2 ^ (idx % 64)),
          digit-pow_ne (idx % 64) (i % 64) (λ q. ne (same_index i idx e (sym q))),
          complement_mask (idx % 64) (i % 64) (omega arith) (omega arith),
          digit-lt_two old_word (i % 64),
          bit_at_word w.bits (idx / 64) i e,
        )
    | no n ↦ bit_at-set_other w.bits (idx / 64) _ i n
  ]

  -- The test reads the bit.
  pub is_set-bit_at : is_set w pn ≡ (bit_at w.bits (pn % 1024) == 1)
  unfolding is_set bit_at
  is_set-bit_at = elim (ℕ_discrete (digit old_word (idx % 64)) 1) [
    | yes e ↦ ground (arith, bit_and-pow_one old_word (idx % 64) e)
    | no n ↦
        let z : digit old_word (idx % 64) ≡ 0 = omega (arith, digit-lt_two old_word (idx % 64)) in
        ground (arith, bit_and-pow_zero old_word (idx % 64) z)
  ]
