-- ===== src/Prelude/Bytes.antt =====
-- Bytes, and the big-endian conversions `to_be_bytes` and `from_be_bytes` of the unsigned types.
use Prim.Native.Nat.{ℕ, zero, suc, ◌+◌, ◌*◌, ◌/◌, ◌%◌, ◌^◌, ◌<◌}
use mathlib.Core.Path.{◌≡◌, refl, sym, ap, ◌∙◌}
use mathlib.Core.List.{List, [], ◌∷◌, ◌++◌}
use native.Mathlib.Omega.{arith}
use native.Mathlib.Nat.{pow-suc}
use slt.Prelude.Lists.{length, length-append, All, All-append, All-append_split, snoc_view}

abbrev pub IsByte : ℕ → Type 0
IsByte b = b < 256

abbrev pub IsU64 : ℕ → Type 0
IsU64 n = n < 2 ^ 64

-- The `k` low bytes of `n`, the highest first.
unfoldable pub to_be : ℕ → ℕ → List ℕ
to_be zero n = []
to_be (suc k) n = to_be k (n / 256) ++ n % 256 ∷ []

unfoldable pub from_be_acc : ℕ → List ℕ → ℕ
from_be_acc acc [] = acc
from_be_acc acc (b ∷ bs) = from_be_acc (acc * 256 + b) bs

unfoldable pub from_be : List ℕ → ℕ
unfolding from_be_acc
from_be bs = from_be_acc 0 bs

pub length-to_be : (k n : ℕ) → length (to_be k n) ≡ k
unfolding to_be
length-to_be zero n = refl
length-to_be (suc k) n =
    omega (arith, length-append (to_be k (n / 256)) (n % 256 ∷ []), length-to_be k (n / 256))

pub to_be-IsByte : (k n : ℕ) → All IsByte (to_be k n)
unfolding to_be
to_be-IsByte zero n = tt
to_be-IsByte (suc k) n =
    All-append IsByte (to_be k (n / 256)) (n % 256 ∷ []) (to_be-IsByte k (n / 256)) (omega arith)

from_be_acc-append :
    (acc : ℕ) (xs : List ℕ) (b : ℕ) → from_be_acc acc (xs ++ b ∷ []) ≡ from_be_acc acc xs * 256 + b
unfolding from_be_acc
from_be_acc-append acc [] b = refl
from_be_acc-append acc (x ∷ xs) b = from_be_acc-append (acc * 256 + x) xs b

-- Reading back the `k` bytes of a number below `256 ^ k`.
pub from_be-to_be : (k n : ℕ) → n < 256 ^ k → from_be (to_be k n) ≡ n
unfolding from_be to_be
from_be-to_be zero n h = omega arith
from_be-to_be (suc k) n h = omega (
  arith,
  from_be_acc-append 0 (to_be k (n / 256)) (n % 256),
  from_be-to_be k (n / 256) (omega (arith, pow-suc 256 k)),
)

from_be_acc-lt :
    (bs : List ℕ) (acc m : ℕ) → acc < m → All IsByte bs → from_be_acc acc bs < m * 256 ^ length bs
unfolding from_be_acc
from_be_acc-lt [] acc m h hs = omega arith
from_be_acc-lt (b ∷ bs) acc m h (hb, hs) = omega (
  arith,
  ap (λ (t : ℕ). m * t) (pow-suc 256 (length bs)),
  from_be_acc-lt bs (acc * 256 + b) (m * 256) (omega arith) hs,
)

pub from_be-lt : (bs : List ℕ) → All IsByte bs → from_be bs < 256 ^ length bs
unfolding from_be
from_be-lt bs h = omega (arith, from_be_acc-lt bs 0 1 (omega arith) h)

-- Writing back the number that `k` bytes stand for.
pub to_be-from_be :
    (k : ℕ) (bs : List ℕ) → length bs ≡ k → All IsByte bs → to_be k (from_be bs) ≡ bs
unfolding to_be from_be
to_be-from_be zero [] e h = refl
to_be-from_be zero (b ∷ bs) e h = absurd (omega arith)
to_be-from_be (suc k) bs e h =
    let (ys, y, split, n) = snoc_view k bs e in
    let (hy, (byte, _)) = All-append_split IsByte ys (y ∷ []) (rw split at h) in
    let value : from_be bs ≡ from_be ys * 256 + y = rw split (from_be_acc-append 0 ys y) in
    let high : from_be bs / 256 ≡ from_be ys = omega (arith, value) in
    let low : from_be bs % 256 ≡ y = omega (arith, value) in
    rw (high, low) (ap (λ zs. zs ++ y ∷ []) (to_be-from_be k ys n hy) ∙ sym split)
