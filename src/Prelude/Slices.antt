-- ===== src/Prelude/Slices.antt =====
-- When a slice access succeeds, what it yields, and how it moves past a prefix.
use Prim.Native.Nat.{ℕ, zero, suc, ◌+◌, ◌-◌, ◌≤◌, ◌<◌}
use native.Mathlib.Nat.{sub-zero}
use mathlib.Core.Path.{◌≡◌, refl, ap, ap₂, ◌∙◌}
use mathlib.Core.List.{List, [], ◌∷◌, ◌++◌, append-nil}
use native.Mathlib.Omega.{arith}
use slt.Prelude.Tests.{le→leb}
use slt.Prelude.Lists.{length, take, drop, get_or, length-append}
use slt.Prelude.Lists.{take-append_length}
use slt.Prelude.Results.{ok, index, slice}

module _ {ℓ κ} {E : Type ℓ} {A : Type κ} where
  pub index_ok :
      (xs : List A) (i : ℕ) (d : A) → i < length xs → index {E = E} xs i ≡ ok (get_or xs i d)
  unfolding index
  index_ok [] i d h = absurd (omega arith)
  index_ok (x ∷ xs) zero d h = refl
  index_ok (x ∷ xs) (suc i) d h = index_ok xs i d (omega arith)

  pub index-skip :
      (n : ℕ) (xs ys : List A) (i : ℕ)
      → length xs ≡ n
      → index {E = E} (xs ++ ys) (n + i) ≡ index ys i
  unfolding index
  index-skip n [] ys i h = ap (index ys) (omega arith)
  index-skip zero (x ∷ xs) ys i h = absurd (omega arith)
  index-skip (suc n) (x ∷ xs) ys i h = ground (arith, index-skip n xs ys i (omega arith))

  pub slice_ok :
      (xs : List A) (a b : ℕ)
      → a ≤ b
      → b ≤ length xs
      → slice {E = E} xs a b ≡ ok (take (b - a) (drop a xs))
  unfolding slice
  slice_ok xs a b p q = rw (le→leb a b p, le→leb b (length xs) q)

  pub slice_front : (n : ℕ) (xs ys : List A) → length xs ≡ n → slice {E = E} (xs ++ ys) 0 n ≡ ok xs
  slice_front n xs ys h =
      slice_ok (xs ++ ys) 0 n (omega arith) (omega (arith, length-append xs ys))
      ∙ ap ok (rw (sub-zero, ← h) (take-append_length xs ys))

  pub slice_whole : (n : ℕ) (xs : List A) → length xs ≡ n → slice {E = E} xs 0 n ≡ ok xs
  slice_whole n xs h = rw append-nil at (slice_front n xs [] h)

  pub slice-skip :
      (n : ℕ) (xs ys : List A) (a b : ℕ)
      → length xs ≡ n
      → slice {E = E} (xs ++ ys) (n + a) (n + b) ≡ slice ys a b
  unfolding slice
  slice-skip n [] ys a b h = ground arith
  slice-skip zero (x ∷ xs) ys a b h = absurd (omega arith)
  slice-skip (suc n) (x ∷ xs) ys a b h = ground (arith, slice-skip n xs ys a b (omega arith))

  pub slice_back :
      (n : ℕ) (xs ys : List A)
      → length xs ≡ n
      → slice {E = E} (xs ++ ys) n (length (xs ++ ys)) ≡ ok ys
  slice_back n xs ys h =
      let from : n ≡ n + 0 = omega arith in
      let until : length (xs ++ ys) ≡ n + length ys = omega (arith, length-append xs ys, h) in
      ap₂ (slice (xs ++ ys)) from until
      ∙ slice-skip n xs ys 0 (length ys) h
      ∙ slice_whole (length ys) ys refl

  -- A slice given by its start and its length.
  pub slice_len :
      (xs : List A) (a k : ℕ)
      → a + k ≤ length xs
      → slice {E = E} xs a (a + k) ≡ ok (take k (drop a xs))
  slice_len xs a k h =
      let e : a + k - a ≡ k = omega arith in
      slice_ok xs a (a + k) (omega arith) h ∙ ap (λ n. ok (take n (drop a xs))) e
