-- ===== src/Claim/Records.antt =====
-- What a stream of TLS handshake records carries, apart from the readers of slt-core/src/classifier.rs.
use slt.Prelude.{
  ℕ, zero, suc, ◌+◌, ◌*◌, ◌≤◌, ◌≡◌, refl, arith, List, [], ◌∷◌, ◌++◌, length, take, drop,
}
use native.Mathlib.Numerals.{unary_clauses}
use slt.Prelude.Lists.{get_or}

-- From a point with `m` bytes left in its record, `bytes` are what the records of the stream have in front of another
-- such point.
pub data Carries : ℕ → List ℕ → List ℕ → ℕ → List ℕ → Type 0 where
  nothing : {m : ℕ} {stream : List ℕ} → Carries m stream [] m stream
  in_record :
      {m k : ℕ} {b : ℕ} {stream bytes end : List ℕ}
      → Carries m stream bytes k end
      → Carries (suc m) (b ∷ stream) (b ∷ bytes) k end
  next_header :
      {k : ℕ} {major minor high low : ℕ} {stream bytes end : List ℕ}
      → Carries (high * 256 + low) stream bytes k end
      → Carries 0 (0x16 ∷ major ∷ minor ∷ high ∷ low ∷ stream) bytes k end

pub Carries-append :
    {m k n : ℕ} {stream bytes middle more end : List ℕ}
    → Carries m stream bytes k middle
    → Carries k middle more n end
    → Carries m stream (bytes ++ more) n end
Carries-append nothing d = d
Carries-append (in_record c) d = in_record (Carries-append c d)
Carries-append (next_header c) d = next_header (Carries-append c d)

pub Carries-take :
    (n m r : ℕ) (stream : List ℕ)
    → r ≡ n + m
    → n ≤ length stream
    → Carries r stream (take n stream) m (drop n stream)
Carries-take zero m r stream e h = let same_left : r ≡ m = omega arith in rw same_left nothing
Carries-take (suc n) m r [] e h = absurd (omega arith)
Carries-take (suc n) m zero (b ∷ stream) e h = absurd (omega arith)
Carries-take (suc n) m (suc r) (b ∷ stream) e h =
    in_record (Carries-take n m r stream (omega arith) (omega arith))

-- The five bytes of a record header.
pub drop-header :
    (p : ℕ) (xs : List ℕ)
    → p + 5 ≤ length xs
    → drop p xs
      ≡ get_or xs p 0
        ∷ get_or xs (p + 1) 0
        ∷ get_or xs (p + 2) 0
        ∷ get_or xs (p + 3) 0
        ∷ get_or xs (p + 4) 0
        ∷ drop (p + 5) xs
drop-header zero [] h = absurd (omega arith)
drop-header zero (a ∷ []) h = absurd (omega arith)
drop-header zero (a ∷ b ∷ []) h = absurd (omega arith)
drop-header zero (a ∷ b ∷ c ∷ []) h = absurd (omega arith)
drop-header zero (a ∷ b ∷ c ∷ d ∷ []) h = absurd (omega arith)
drop-header zero (a ∷ b ∷ c ∷ d ∷ e ∷ xs) h = refl
drop-header (suc p) [] h = absurd (omega arith)
drop-header (suc p) (x ∷ xs) h =
    let front = drop-header p xs (omega arith) in simp unary_clauses (simp unary_clauses at front)
