-- ===== src/Prelude/Bits.antt =====
-- The machine's `&` and `|` against a single-bit mask, as facts about binary digits.
use Prim.Native.Nat.{ℕ, zero, suc, ◌+◌, ◌-◌, ◌*◌, ◌/◌, ◌%◌, ◌^◌, ◌≤◌, ◌<◌, min, max}
use Prim.Native.Nat.{bit_and, bit_or, digits, bitwise, bit_and-bitwise, bit_or-bitwise}
use mathlib.Core.Path.{◌≡◌, refl, ap}
use mathlib.Core.Logic.{◌≢◌}
use native.Mathlib.Omega.{arith}
use native.Mathlib.Decide.{ℕ_discrete}
use native.Mathlib.Nat.{pow-suc}

module _ (last : ℕ → ℕ) (one : ℕ → ℕ → ℕ) where
  -- Beyond the first number, a longer count of digits changes nothing.
  spare : (g n x y : ℕ) → g ≤ n → x ≤ g → digits last one n x y ≡ digits last one g x y
  spare zero zero x y k h = refl
  spare zero (suc n) zero y k h = refl
  spare (suc g) (suc n) zero y k h = refl
  spare (suc g) (suc n) (suc x) y k h =
      let rest = spare g n (suc x / 2) (y / 2) (omega arith) (omega arith) in
      ap (λ high. high * 2 + one (suc x % 2) (y % 2)) rest
  spare (suc g) zero x y k h = absurd (omega arith)
  spare zero n (suc x) y k h = absurd (omega arith)

  -- The count of digits for the halves is the first half again.
  pub halves :
      (x y : ℕ) → digits last one x (suc x / 2) (y / 2) ≡ bitwise last one (suc x / 2) (y / 2)
  halves x y = spare (suc x / 2) x (suc x / 2) (y / 2) (omega arith) (omega arith)

pub bit_or_step : (a b : ℕ) → bit_or a b ≡ max (a % 2) (b % 2) + 2 * bit_or (a / 2) (b / 2)
bit_or_step a b = simp bit_or-bitwise (step a)
  where
    step :
        (x : ℕ)
        → bitwise (λ y. y) max x b ≡ max (x % 2) (b % 2) + 2 * bitwise (λ y. y) max (x / 2) (b / 2)
    step zero = omega arith
    step (suc x) = omega (arith, halves (λ y. y) max x b)

pub bit_and_step : (a b : ℕ) → bit_and a b ≡ min (a % 2) (b % 2) + 2 * bit_and (a / 2) (b / 2)
bit_and_step a b = simp bit_and-bitwise (step a)
  where
    step :
        (x : ℕ)
        → bitwise (λ y. 0) min x b ≡ min (x % 2) (b % 2) + 2 * bitwise (λ y. 0) min (x / 2) (b / 2)
    step zero = omega arith
    step (suc x) = omega (arith, halves (λ y. 0) min x b)

-- The binary digit of `w` at place `i`, from the lowest.
unfoldable pub digit : ℕ → ℕ → ℕ
digit w zero = w % 2
digit w (suc i) = digit (w / 2) i

pub digit-zero : (i : ℕ) → digit 0 i ≡ 0
unfolding digit
digit-zero zero = refl
digit-zero (suc i) = digit-zero i

pub digit-lt_two : (w i : ℕ) → digit w i < 2
unfolding digit
digit-lt_two w zero = omega arith
digit-lt_two w (suc i) = digit-lt_two (w / 2) i

-- The digits of `a | b` and of `a & b`.
pub digit-bit_or : (i a b : ℕ) → digit (bit_or a b) i ≡ max (digit a i) (digit b i)
unfolding digit
digit-bit_or zero a b = omega (arith, bit_or_step a b)
digit-bit_or (suc i) a b =
    let half : bit_or a b / 2 ≡ bit_or (a / 2) (b / 2) = omega (arith, bit_or_step a b) in
    rw half (digit-bit_or i (a / 2) (b / 2))

pub digit-bit_and : (i a b : ℕ) → digit (bit_and a b) i ≡ min (digit a i) (digit b i)
unfolding digit
digit-bit_and zero a b = omega (arith, bit_and_step a b)
digit-bit_and (suc i) a b =
    let half : bit_and a b / 2 ≡ bit_and (a / 2) (b / 2) = omega (arith, bit_and_step a b) in
    rw half (digit-bit_and i (a / 2) (b / 2))

-- The mask `1 << b`.
pub digit-pow_self : (b : ℕ) → digit (2 ^ b) b ≡ 1
unfolding digit
digit-pow_self zero = refl
digit-pow_self (suc b) =
    let half : 2 ^ suc b / 2 ≡ 2 ^ b = omega (arith, pow-suc 2 b) in rw half (digit-pow_self b)

pub digit-pow_ne : (b i : ℕ) → b ≢ i → digit (2 ^ b) i ≡ 0
unfolding digit
digit-pow_ne zero zero h = absurd (h refl)
digit-pow_ne zero (suc i) h = digit-zero i
digit-pow_ne (suc b) zero h = omega (arith, pow-suc 2 b)
digit-pow_ne (suc b) (suc i) h =
    let half : 2 ^ suc b / 2 ≡ 2 ^ b = omega (arith, pow-suc 2 b) in
    rw half (digit-pow_ne b i (λ e. h (ap suc e)))

-- The complement of a number of `k` digits turns each of them over.
pub digit_complement : (k m i : ℕ) → m < 2 ^ k → i < k → digit (2 ^ k - 1 - m) i + digit m i ≡ 1
unfolding digit
digit_complement zero m i p q = absurd (omega arith)
digit_complement (suc k) m zero p q = omega (arith, pow-suc 2 k)
digit_complement (suc k) m (suc i) p q =
    let half : (2 ^ suc k - 1 - m) / 2 ≡ 2 ^ k - 1 - m / 2 = omega (arith, pow-suc 2 k) in
    rw half (digit_complement k (m / 2) i (omega (arith, pow-suc 2 k)) (omega arith))

-- A number of which all digits are 0 is 0.
pub digits_zero : (k a : ℕ) → a < 2 ^ k → ((i : ℕ) → i < k → digit a i ≡ 0) → a ≡ 0
unfolding digit
digits_zero zero a p h = omega arith
digits_zero (suc k) a p h = omega (
  arith,
  h 0 (omega arith),
  digits_zero k (a / 2) (omega (arith, pow-suc 2 k)) (λ i q. h (suc i) (omega arith)),
)

pub lt-two-pow : (a : ℕ) → a < 2 ^ a
lt-two-pow zero = omega arith
lt-two-pow (suc a) = omega (arith, lt-two-pow a, pow-suc 2 a)

-- `a & (1 << b)` is 0 exactly when the digit of `a` at `b` is.
pub bit_and-pow_zero : (a b : ℕ) → digit a b ≡ 0 → bit_and a (2 ^ b) ≡ 0
bit_and-pow_zero a b h =
    let v = bit_and a (2 ^ b) in
    digits_zero v v (lt-two-pow v) λ i p. elim (ℕ_discrete b i) [
      | yes e ↦ rw (← e) (omega (arith, digit-bit_and b a (2 ^ b)))
      | no n ↦ omega (arith, digit-bit_and i a (2 ^ b), digit-pow_ne b i n)
    ]

pub bit_and-pow_one : (a b : ℕ) → digit a b ≡ 1 → bit_and a (2 ^ b) ≢ 0
bit_and-pow_one a b h z = let e : digit 0 b ≡ 1 = rw z at one in omega (arith, e, digit-zero b)
  where
    one : digit (bit_and a (2 ^ b)) b ≡ 1
    one = omega (arith, digit-bit_and b a (2 ^ b), digit-pow_self b)
