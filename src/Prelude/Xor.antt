-- ===== src/Prelude/Xor.antt =====
-- The machine's `^` on numbers of a bounded width.
use Prim.Native.Nat.{ℕ, zero, suc, ◌+◌, ◌*◌, ◌/◌, ◌%◌, ◌^◌, ◌<◌}
use Prim.Native.Nat.{bit_xor, bitwise, bit_xor-bitwise, differ}
use mathlib.Core.Path.{◌≡◌, refl}
use native.Mathlib.Omega.{arith}
use native.Mathlib.Nat.{pow-suc}
use slt.Prelude.Bits.{halves}

bit_xor_step : (a b : ℕ) → bit_xor a b ≡ differ (a % 2) (b % 2) + 2 * bit_xor (a / 2) (b / 2)
bit_xor_step a b = simp bit_xor-bitwise (step a)
  where
    step :
        (x : ℕ)
        → bitwise (λ y. y) differ x b
          ≡ differ (x % 2) (b % 2) + 2 * bitwise (λ y. y) differ (x / 2) (b / 2)
    step zero = omega arith
    step (suc x) = omega (arith, halves (λ y. y) differ x b)

differ_twice : (a b : ℕ) → a < 2 → b < 2 → differ (differ a b) b ≡ a
differ_twice zero zero p q = refl
differ_twice zero (suc zero) p q = refl
differ_twice (suc zero) zero p q = refl
differ_twice (suc zero) (suc zero) p q = refl
differ_twice (suc (suc a)) b p q = absurd (omega arith)
differ_twice zero (suc (suc b)) p q = absurd (omega arith)
differ_twice (suc zero) (suc (suc b)) p q = absurd (omega arith)

differ-lt_two : (a b : ℕ) → a < 2 → b < 2 → differ a b < 2
differ-lt_two zero b p q = q
differ-lt_two (suc a) zero p q = p
differ-lt_two (suc a) (suc b) p q = differ-lt_two a b (omega arith) (omega arith)

pub bit_xor-lt : (k a b : ℕ) → a < 2 ^ k → b < 2 ^ k → bit_xor a b < 2 ^ k
bit_xor-lt zero zero zero p q = omega arith
bit_xor-lt zero (suc a) b p q = absurd (omega arith)
bit_xor-lt zero zero (suc b) p q = absurd (omega arith)
bit_xor-lt (suc k) a b p q = omega (
  arith,
  bit_xor_step a b,
  pow-suc 2 k,
  differ-lt_two (a % 2) (b % 2) (omega arith) (omega arith),
  bit_xor-lt k (a / 2) (b / 2) (omega (arith, pow-suc 2 k)) (omega (arith, pow-suc 2 k)),
)

-- Masking twice with the same mask gives the number back.
pub bit_xor_twice : (k a b : ℕ) → a < 2 ^ k → b < 2 ^ k → bit_xor (bit_xor a b) b ≡ a
bit_xor_twice zero zero zero p q = refl
bit_xor_twice zero (suc a) b p q = absurd (omega arith)
bit_xor_twice zero zero (suc b) p q = absurd (omega arith)
bit_xor_twice (suc k) a b p q =
    let low : bit_xor a b % 2 ≡ differ (a % 2) (b % 2) =
      omega (arith, bit_xor_step a b, differ-lt_two (a % 2) (b % 2) (omega arith) (omega arith)) in
    let high : bit_xor a b / 2 ≡ bit_xor (a / 2) (b / 2) =
      omega (arith, bit_xor_step a b, differ-lt_two (a % 2) (b % 2) (omega arith) (omega arith)) in
    let bit : differ (bit_xor a b % 2) (b % 2) ≡ a % 2 =
      rw low (differ_twice (a % 2) (b % 2) (omega arith) (omega arith)) in
    let rest : bit_xor (bit_xor a b / 2) (b / 2) ≡ a / 2 =
      rw high (
        bit_xor_twice k (a / 2) (b / 2) (omega (arith, pow-suc 2 k))
          (omega (arith, pow-suc 2 k))) in
    omega (arith, bit_xor_step (bit_xor a b) b, bit, rest)
