-- ===== src/Prelude/Masks.antt =====
-- Masks of whole bits: the machine's `&` and `|` as arithmetic on the two parts of a number.
use Prim.Native.Nat.{ℕ, zero, suc, ◌+◌, ◌-◌, ◌*◌, ◌/◌, ◌^◌, ◌<◌, bit_and, bit_or}
use mathlib.Core.Path.{◌≡◌, refl}
use native.Mathlib.Omega.{arith}
use native.Mathlib.Nat.{pow-suc}
use slt.Prelude.Bits.{bit_and_step, bit_or_step, lt-two-pow}

mul-pow_suc : (x k : ℕ) → x * 2 ^ suc k ≡ 2 * (x * 2 ^ k)
mul-pow_suc x k = rw (pow-suc 2 k) (grind arith)

-- The number of digits bounds how far the recursion goes.
bit_or-zero_below : (k a : ℕ) → a < 2 ^ k → bit_or a 0 ≡ a
bit_or-zero_below zero zero h = refl
bit_or-zero_below zero (suc a) h = absurd (omega arith)
bit_or-zero_below (suc k) a h =
    omega (arith, bit_or_step a 0, bit_or-zero_below k (a / 2) (omega (arith, pow-suc 2 k)))

-- `|` puts the low bits into a number that has none.
pub bit_or_low : (k x t : ℕ) → t < 2 ^ k → bit_or (x * 2 ^ k) t ≡ x * 2 ^ k + t
bit_or_low zero x t h =
    let none_left : t ≡ 0 = omega arith in
    let whole : x * 2 ^ 0 ≡ x = omega arith in
    rw (none_left, whole) (omega (arith, bit_or-zero_below x x (lt-two-pow x)))
bit_or_low (suc k) x t h =
    let half : x * 2 ^ suc k / 2 ≡ x * 2 ^ k = omega (arith, mul-pow_suc x k) in
    let rest : bit_or (x * 2 ^ suc k / 2) (t / 2) ≡ x * 2 ^ k + t / 2 =
      rw half (bit_or_low k x (t / 2) (omega (arith, pow-suc 2 k))) in
    omega (arith, bit_or_step (x * 2 ^ suc k) t, mul-pow_suc x k, rest)

-- `&` with all ones keeps a number.
pub bit_and_ones : (k x : ℕ) → x < 2 ^ k → bit_and x (2 ^ k - 1) ≡ x
bit_and_ones zero zero h = refl
bit_and_ones zero (suc x) h = absurd (omega arith)
bit_and_ones (suc k) x h =
    let half : (2 ^ suc k - 1) / 2 ≡ 2 ^ k - 1 = omega (arith, pow-suc 2 k) in
    let rest : bit_and (x / 2) ((2 ^ suc k - 1) / 2) ≡ x / 2 =
      rw half (bit_and_ones k (x / 2) (omega (arith, pow-suc 2 k))) in
    omega (arith, bit_and_step x (2 ^ suc k - 1), pow-suc 2 k, lt-two-pow k, rest)

-- `&` with a mask that has no low bits drops the low bits.
pub bit_and_high :
    (k x r m : ℕ) → r < 2 ^ k → bit_and (x * 2 ^ k + r) (m * 2 ^ k) ≡ bit_and x m * 2 ^ k
bit_and_high zero x r m h =
    let none_left : r ≡ 0 = omega arith in
    let left : x * 2 ^ 0 + 0 ≡ x = omega arith in
    let right : m * 2 ^ 0 ≡ m = omega arith in rw (none_left, left, right) (omega arith)
bit_and_high (suc k) x r m h =
    let left : (x * 2 ^ suc k + r) / 2 ≡ x * 2 ^ k + r / 2 = omega (arith, mul-pow_suc x k) in
    let right : m * 2 ^ suc k / 2 ≡ m * 2 ^ k = omega (arith, mul-pow_suc m k) in
    let rest : bit_and ((x * 2 ^ suc k + r) / 2) (m * 2 ^ suc k / 2) ≡ bit_and x m * 2 ^ k =
      rw (left, right) (bit_and_high k x (r / 2) m (omega (arith, pow-suc 2 k))) in
    omega (
      arith,
      bit_and_step (x * 2 ^ suc k + r) (m * 2 ^ suc k),
      mul-pow_suc m k,
      mul-pow_suc (bit_and x m) k,
      rest,
    )

bit_and-zero_below : (k a : ℕ) → a < 2 ^ k → bit_and a 0 ≡ 0
bit_and-zero_below zero zero h = refl
bit_and-zero_below zero (suc a) h = absurd (omega arith)
bit_and-zero_below (suc k) a h =
    omega (arith, bit_and_step a 0, bit_and-zero_below k (a / 2) (omega (arith, pow-suc 2 k)))

pub bit_and-lt : (k a b : ℕ) → b < 2 ^ k → bit_and a b < 2 ^ k
bit_and-lt zero a b h =
    let none_left : b ≡ 0 = omega arith in
    rw none_left (omega (arith, bit_and-zero_below a a (lt-two-pow a)))
bit_and-lt (suc k) a b h = omega (
  arith,
  bit_and_step a b,
  pow-suc 2 k,
  bit_and-lt k (a / 2) (b / 2) (omega (arith, pow-suc 2 k)),
)
