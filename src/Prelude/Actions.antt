-- ===== src/Prelude/Actions.antt =====
-- Code that changes a state and can fail: the state and the outcome after each call, with the `?` operator.
use mathlib.Core.Path.{◌≡◌, refl}
use mathlib.Core.Bool.{Bool, true, false}
use slt.Prelude.Tests.{if◌then◌else◌}
use slt.Prelude.Results.{Result, ok, err, panic}

abbrev pub Action : Type 0 → Type 0 → Type 0 → Type 0
Action S E A = S → S × Result E A

abbrev pub follow : {S E A B : Type 0} → S × Result E A → (A → Action S E B) → S × Result E B
follow (s, ok a) k = k a s
follow (s, err e) k = (s, err e)
follow (s, panic) k = (s, panic)

infixl 5 ◌>>=◌ ◌>>◌
abbrev pub ◌>>=◌ : {S E A B : Type 0} → Action S E A → (A → Action S E B) → Action S E B
m >>= k = λ s. follow (m s) k

abbrev pub ◌>>◌ : {S E A B : Type 0} → Action S E A → Action S E B → Action S E B
m >> k = m >>= λ _. k

-- `return Ok(a)`
abbrev pub return : {S E A : Type 0} → A → Action S E A
return a = λ s. (s, ok a)

-- `return Err(e)`
abbrev pub fail : {S E A : Type 0} → E → Action S E A
fail e = λ s. (s, err e)

-- A step that reads the state and goes on.
abbrev pub get : {S E : Type 0} → Action S E S
get = λ s. (s, ok s)

-- An assignment.
abbrev pub modify : {S E : Type 0} → (S → S) → Action S E (Unit {0})
modify f = λ s. (f s, ok tt)

-- `?` on a result that does not touch the state, with `From` for its error.
abbrev pub lift_result : {S E F A : Type 0} → (F → E) → Result F A → Action S E A
lift_result f (ok a) = λ s. (s, ok a)
lift_result f (err e) = λ s. (s, err (f e))
lift_result f panic = λ s. (s, panic)

-- What holds of the value and the state behind a call that succeeds.
abbrev pub Ends : {S E A : Type 0} → (A → S → Type 0) → S × Result E A → Type 0
Ends Q (s, ok a) = Q a s
Ends Q (s, err e) = Unit
Ends Q (s, panic) = Unit

-- From a state with `P` an action ends in one with `Q`, unless it fails.
abbrev pub Triple : {S E A : Type 0} → (S → Type 0) → Action S E A → (A → S → Type 0) → Type 0
Triple {S} P m Q = (s : S) → P s → Ends Q (m s)

pub Ends-follow :
    {S E A B : Type 0} (r : S × Result E A) (k : A → Action S E B) (P : A → S → Type 0)
    (Q : B → S → Type 0)
    → Ends P r
    → ((a : A) → Triple (P a) (k a) Q)
    → Ends Q (follow r k)
Ends-follow (s, ok a) k P Q h f = f a s h
Ends-follow (s, err e) k P Q h f = tt
Ends-follow (s, panic) k P Q h f = tt

-- A predicate of `if b then x else y` from both branches, without a rewriting of `b` elsewhere.
pub if_both :
    {A : Type 0} (P : A → Type 0) (b : Bool) (x y : A)
    → (b ≡ true → P x)
    → (b ≡ false → P y)
    → P (if b then x else y)
if_both P true x y f g = f refl
if_both P false x y f g = g refl

-- To end well is to have a state: what holds of the state in any case then holds.
pub to_Ends : {S E A : Type 0} (r : S × Result E A) (Q : S → Type 0) → Q r.0 → Ends (λ a t. Q t) r
to_Ends (s, ok a) Q h = h
to_Ends (s, err e) Q h = tt
to_Ends (s, panic) Q h = tt

pub Ends-map :
    {S E A : Type 0} (r : S × Result E A) (P Q : A → S → Type 0)
    → Ends P r
    → ((a : A) (s : S) → P a s → Q a s)
    → Ends Q r
Ends-map (s, ok a) P Q h f = f a s h
Ends-map (s, err e) P Q h f = tt
Ends-map (s, panic) P Q h f = tt

-- A `?` on a result of pure code leaves the state alone.
pub Ends-lift :
    {S E F A B : Type 0} (f : F → E) (r : Result F A) (k : A → Action S E B) (Q : B → S → Type 0)
    (s : S)
    → ((a : A) → Ends Q (k a s))
    → Ends Q (follow (lift_result f r s) k)
Ends-lift f (ok a) k Q s h = h a
Ends-lift f (err e) k Q s h = tt
Ends-lift f panic k Q s h = tt

-- The same, with the equation that the result is.
pub Ends-lift_eq :
    {S E F A B : Type 0} (f : F → E) (r : Result F A) (k : A → Action S E B) (Q : B → S → Type 0)
    (s : S)
    → ((a : A) → r ≡ ok a → Ends Q (k a s))
    → Ends Q (follow (lift_result f r s) k)
Ends-lift_eq f (ok a) k Q s h = h a refl
Ends-lift_eq f (err e) k Q s h = tt
Ends-lift_eq f panic k Q s h = tt

pub along : {A : Type 0} (Q : A → Type 0) (x y : A) → y ≡ x → Q x → Q y
along Q x y e h = rw e h

pub Ends-ok :
    {S E A : Type 0} (Q : A → S → Type 0) (r : S × Result E A) (a : A) (s : S)
    → r ≡ (s, ok a)
    → Ends Q r
    → Q a s
Ends-ok Q r a s e h = rw e at h
