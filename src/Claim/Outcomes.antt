-- ===== src/Claim/Outcomes.antt =====
-- How a chain of reads of slt-core/src/classifier.rs and slt-core/src/crypto/client_hello.rs ends: with a value or early
-- with an error, never with a panic.
use slt.Prelude.{
  ℕ, ◌+◌, ◌≤◌, ◌<◌, ◌≡◌, ◌≢◌, refl, arith, List, Bool, true, false, length, take, drop, Result, ok,
  err, panic, ◌>>=◌, ◌>>◌, guard, index, slice,
}
use slt.Prelude.Lists.{get_or, length-take, length-drop}
use slt.Prelude.Slices.{index_ok, slice_len}
use slt.Claim.Tcp as Tcp
use slt.Claim.Tcp.{Verdict}

module _ {E : Type 0} (F : E → Type 0) where
  -- A value meets one condition, an error the other.
  unfoldable pub EndsIn : {A : Type 0} → (A → Type 0) → Result E A → Type 0
  EndsIn P (ok a) = P a
  EndsIn P (err e) = F e
  EndsIn P panic = ⊥

  pub EndsIn-ok : {A : Type 0} (P : A → Type 0) (a : A) → P a → EndsIn P (ok a)
  unfolding EndsIn
  EndsIn-ok P a p = p

  pub EndsIn-bind :
      {A B : Type 0} (P : A → Type 0) (Q : B → Type 0) (m : Result E A) (f : A → Result E B)
      → EndsIn P m
      → ((a : A) → P a → EndsIn Q (f a))
      → EndsIn Q (m >>= f)
  unfolding EndsIn
  EndsIn-bind P Q (ok a) f p h = h a p
  EndsIn-bind P Q (err e) f p h = p
  EndsIn-bind P Q panic f p h = absurd p

  pub EndsIn-guard :
      {B : Type 0} (Q : B → Type 0) (b : Bool) (e : E) (m : Result E B)
      → F e
      → (b ≡ true → EndsIn Q m)
      → EndsIn Q (guard b e >> m)
  unfolding EndsIn
  EndsIn-guard Q true e m n h = h refl
  EndsIn-guard Q false e m n h = n

  -- An access within range goes on with the byte that is there.
  pub EndsIn-index_at :
      {B : Type 0} (Q : B → Type 0) (xs : List ℕ) (i : ℕ) (f : ℕ → Result E B)
      → i < length xs
      → EndsIn Q (f (get_or xs i 0))
      → EndsIn Q (index xs i >>= f)
  EndsIn-index_at Q xs i f h k = rw (index_ok xs i 0 h) k

  pub EndsIn-index :
      {B : Type 0} (Q : B → Type 0) (xs : List ℕ) (i : ℕ) (f : ℕ → Result E B)
      → i < length xs
      → ((b : ℕ) → EndsIn Q (f b))
      → EndsIn Q (index xs i >>= f)
  EndsIn-index Q xs i f h k = EndsIn-index_at Q xs i f h (k (get_or xs i 0))

  -- A slice within range goes on with the bytes that are there.
  pub EndsIn-slice_at :
      {B : Type 0} (Q : B → Type 0) (xs : List ℕ) (a n : ℕ) (f : List ℕ → Result E B)
      → a + n ≤ length xs
      → (length (take n (drop a xs)) ≡ n → EndsIn Q (f (take n (drop a xs))))
      → EndsIn Q (slice xs a (a + n) >>= f)
  EndsIn-slice_at Q xs a n f h k =
      rw (slice_len xs a n h) (k (omega (arith, length-take n (drop a xs), length-drop a xs)))

  pub EndsIn-slice :
      {B : Type 0} (Q : B → Type 0) (xs : List ℕ) (a n : ℕ) (f : List ℕ → Result E B)
      → a + n ≤ length xs
      → ((bytes : List ℕ) → length bytes ≡ n → EndsIn Q (f bytes))
      → EndsIn Q (slice xs a (a + n) >>= f)
  EndsIn-slice Q xs a n f h k = EndsIn-slice_at Q xs a n f h (k (take n (drop a xs)))

  pub EndsIn-ne-panic : {A : Type 0} (P : A → Type 0) (m : Result E A) → EndsIn P m → m ≢ panic
  unfolding EndsIn
  EndsIn-ne-panic P (ok a) p = λ h. cc h
  EndsIn-ne-panic P (err e) p = λ h. cc h
  EndsIn-ne-panic P panic p = absurd p

-- An early verdict of the classifier is not a claim.
abbrev pub NoClaim : Verdict → Type 0
NoClaim v = v ≢ Tcp.claim

abbrev pub Outcome : {A : Type 0} → (A → Type 0) → Result Verdict A → Type 0
Outcome P m = EndsIn NoClaim P m
