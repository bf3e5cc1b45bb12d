-- ===== src/Prelude/Maps.antt =====
-- Finite maps with byte strings for keys, as functions, with the operations of a hash map.
use Prim.Native.Nat.{ℕ}
use mathlib.Core.Path.{◌≡◌, refl, sym, ap₂, ◌∙◌}
use mathlib.Core.Logic.{◌≢◌, ◌⊎◌, inl, inr}
use mathlib.Core.Bool.{Bool, true, false, ◌&&◌}
use mathlib.Core.List.{List, [], ◌∷◌}
use mathlib.Core.Option.{Option, none, some}
use slt.Prelude.Tests.{◌==◌, if◌then◌else◌, ==_refl, ==_iff, Bool-cases}

abbrev pub Key : Type 0
Key = List ℕ

unfoldable pub same : Key → Key → Bool
same [] [] = true
same [] (y ∷ ys) = false
same (x ∷ xs) [] = false
same (x ∷ xs) (y ∷ ys) = x == y && same xs ys

pub same_refl : (k : Key) → same k k ≡ true
unfolding same
same_refl [] = refl
same_refl (x ∷ xs) = rw (==_refl x, same_refl xs) refl

pub same-eq : (k j : Key) → same k j ≡ true → k ≡ j
unfolding same
same-eq [] [] h = refl
same-eq [] (y ∷ ys) h = cc h
same-eq (x ∷ xs) [] h = cc h
same-eq (x ∷ xs) (y ∷ ys) h = elim (Bool-cases (x == y)) [
  | inl e ↦
      let tails : same xs ys ≡ true = rw e at h in
      ap₂ (λ a r. a ∷ r) ((==_iff x y).0 e) (same-eq xs ys tails)
  | inr n ↦ let f : false ≡ true = rw n at h in cc f
]

pub same-ne : (k j : Key) → k ≢ j → same k j ≡ false
same-ne k j n = elim (Bool-cases (same k j)) [ inl e ↦ absurd (n (same-eq k j e)) | inr f ↦ f ]

pub Key-cases : (k j : Key) → (k ≡ j) ⊎ (k ≢ j)
Key-cases k j = elim (Bool-cases (same k j)) [
  | inl e ↦ inl (same-eq k j e)
  | inr f ↦ inr (λ e. let t : same k j ≡ true = rw e (same_refl j) in cc (t, f))
]

abbrev pub Map {ℓ} : Type ℓ → Type ℓ
Map V = Key → Option V

module _ {ℓ} {V : Type ℓ} where
  abbrev pub empty : Map V
  empty k = none

  unfoldable pub insert : Key → V → Map V → Map V
  insert k v m j = if same k j then some v else m j

  unfoldable pub remove : Key → Map V → Map V
  remove k m j = if same k j then none else m j

  abbrev pub keep : (V → Bool) → Option V → Option V
  keep p none = none
  keep p (some v) = if p v then some v else none

  unfoldable pub retain : (Key → V → Bool) → Map V → Map V
  retain p m j = keep (p j) (m j)

  pub insert-here : (k : Key) (v : V) (m : Map V) → insert k v m k ≡ some v
  unfolding insert
  insert-here k v m = rw (same_refl k) refl

  pub insert-other : (k : Key) (v : V) (m : Map V) (j : Key) → k ≢ j → insert k v m j ≡ m j
  unfolding insert
  insert-other k v m j n = rw (same-ne k j n) refl

  pub remove-here : (k : Key) (m : Map V) → remove k m k ≡ none
  unfolding remove
  remove-here k m = rw (same_refl k) refl

  pub remove-other : (k : Key) (m : Map V) (j : Key) → k ≢ j → remove k m j ≡ m j
  unfolding remove
  remove-other k m j n = rw (same-ne k j n) refl

  -- An entry of the new map is the inserted one, or was there before.
  pub insert-found :
      (k : Key) (v : V) (m : Map V) (j : Key) (w : V)
      → insert k v m j ≡ some w
      → ((k ≡ j) × (v ≡ w)) ⊎ ((k ≢ j) × (m j ≡ some w))
  insert-found k v m j w h = elim (Key-cases k j) [
    | inl e ↦
        let here : insert k v m j ≡ some v = rw (← e) (insert-here k v m) in inl (e, cc (here, h))
    | inr n ↦ inr (n, sym (insert-other k v m j n) ∙ h)
  ]

  pub remove-found :
      (k : Key) (m : Map V) (j : Key) (w : V) → remove k m j ≡ some w → (k ≢ j) × (m j ≡ some w)
  remove-found k m j w h = elim (Key-cases k j) [
    | inl e ↦ let gone : remove k m j ≡ none = rw (← e) (remove-here k m) in cc (gone, h)
    | inr n ↦ (n, sym (remove-other k m j n) ∙ h)
  ]

  keep-found :
      (p : V → Bool) (o : Option V) (w : V) → keep p o ≡ some w → (o ≡ some w) × (p w ≡ true)
  keep-found p none w h = cc h
  keep-found p (some v) w h = elim (Bool-cases (p v)) [
    | inl t ↦
        let kept : some v ≡ some w = rw t at h in let is : v ≡ w = cc kept in (kept, rw is at t)
    | inr f ↦ let dropped : none ≡ some w = rw f at h in cc dropped
  ]

  pub retain-found :
      (p : Key → V → Bool) (m : Map V) (j : Key) (w : V)
      → retain p m j ≡ some w
      → (m j ≡ some w) × (p j w ≡ true)
  unfolding retain
  retain-found p m j w h = keep-found (p j) (m j) w h

  pub retain-keeps :
      (p : Key → V → Bool) (m : Map V) (j : Key) (w : V)
      → m j ≡ some w
      → p j w ≡ true
      → retain p m j ≡ some w
  unfolding retain
  retain-keeps p m j w h t = rw (h, t) refl
