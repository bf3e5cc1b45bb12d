-- ===== src/Proto/Payloads/Codec.antt =====
-- What a payload schema promises, and the two shapes that most of slt-core/src/proto/payloads has: one
-- 64-bit number, and one code byte.
use slt.Prelude.{
  ℕ, ◌<◌, ◌^◌, ◌≡◌, ◌≢◌, refl, sym, ap, ◌∙◌, arith, List, [], ◌∷◌, ◌++◌, Option, none,
}
use slt.Prelude.{
  some, ◌==◌, false, length, All, Result, ok, err, panic, ◌>>=◌, ◌>>◌, guard, index, slice,
}
use slt.Prelude.{Bool-cases, inl, inr, Option-cases, ==_iff}
use slt.Prelude.Bytes.{IsByte, IsU64, to_be, from_be, length-to_be, to_be-IsByte, from_be-to_be}
use slt.Prelude.Bytes.{from_be-lt, to_be-from_be}
use slt.Prelude.Slices.{slice_whole}
use slt.Proto.Payloads.Errors.{PayloadError, length_mismatch}

-- `decode` and `encode` are inverse on valid values and byte strings, and `decode` never panics.
pub record IsCodec {P : Type 0} (IsValid : P → Type 0) (decode : List ℕ → Result PayloadError P)
    (encode : P → List ℕ → List ℕ) : Type 0 where
  pub round_trip :
      (p : P) (out : List ℕ)
      → IsValid p
      → (bytes : List ℕ) × (encode p out ≡ out ++ bytes) × All IsByte bytes × (decode bytes ≡ ok p)
  pub canonical :
      (payload : List ℕ) (p : P)
      → All IsByte payload
      → decode payload ≡ ok p
      → IsValid p × (encode p [] ≡ payload)
  pub no_panic : (payload : List ℕ) → decode payload ≢ panic

module _ {P : Type 0} (make : ℕ → P) (number : P → ℕ) where
  abbrev decode_number : List ℕ → Result PayloadError P
  decode_number payload = do
    guard (length payload == 8) (length_mismatch 8 (length payload))
    bytes ← slice payload 0 8
    ok (make (from_be bytes))

  decode_number_ok :
      (payload : List ℕ) → length payload ≡ 8 → decode_number payload ≡ ok (make (from_be payload))
  decode_number_ok payload h = rw (h, slice_whole {E = PayloadError} 8 payload h) refl

  decode_number_bad :
      (payload : List ℕ)
      → (length payload == 8) ≡ false
      → decode_number payload ≡ err (length_mismatch 8 (length payload))
  decode_number_bad payload h = rw h refl

  number_canonical :
      ((n : ℕ) → number (make n) ≡ n)
      → (payload : List ℕ) (p : P) → All IsByte payload
      → decode_number payload ≡ ok p
      → IsU64 (number p) × (to_be 8 (number p) ≡ payload)
  number_canonical number-make payload p bytes e = elim (Bool-cases (length payload == 8)) [
    | inl fits ↦
        let size : length payload ≡ 8 = (==_iff (length payload) 8).0 fits in
        let made : make (from_be payload) ≡ p = cc (decode_number_ok payload size) in
        let value : number p ≡ from_be payload = ap number (sym made) ∙ number-make _ in
        let below : from_be payload < 256 ^ 8 = rw size at (from_be-lt payload bytes) in
        (omega (arith, value, below), rw value (to_be-from_be 8 payload size bytes))
    | inr wrong ↦ cc (decode_number_bad payload wrong)
  ]

  number_no_panic : (payload : List ℕ) → decode_number payload ≢ panic
  number_no_panic payload = elim (Bool-cases (length payload == 8)) [
    | inl fits ↦ rw (decode_number_ok payload ((==_iff (length payload) 8).0 fits)) (λ e. cc)
    | inr wrong ↦ rw (decode_number_bad payload wrong) (λ e. cc)
  ]

  pub number-IsCodec :
      ((p : P) → make (number p) ≡ p)
      → ((n : ℕ) → number (make n) ≡ n)
      → IsCodec (λ p. IsU64 (number p)) decode_number (λ p out. out ++ to_be 8 (number p))
  number-IsCodec make-number number-make = record {
    round_trip = λ p out h. (
      to_be 8 (number p),
      refl,
      to_be-IsByte 8 (number p),
      decode_number_ok (to_be 8 (number p)) (length-to_be 8 (number p))
          ∙ ap ok (ap make (from_be-to_be 8 (number p) (omega arith)) ∙ make-number p),
    );
    canonical = number_canonical number-make;
    no_panic = number_no_panic;
  }

-- One byte with a code in it.
module _ {C P : Type 0} (try_from : ℕ → Option C) (to_byte : C → ℕ) (make : C → P) (code : P → C)
    (invalid : ℕ → PayloadError) where
  abbrev make_code : ℕ → Option C → Result PayloadError P
  make_code b none = err (invalid b)
  make_code b (some c) = ok (make c)

  abbrev decode_code : List ℕ → Result PayloadError P
  decode_code payload = do
    guard (length payload == 1) (length_mismatch 1 (length payload))
    b ← index payload 0
    elim (try_from b) [ none ↦ err (invalid b) | some c ↦ ok (make c) ]

  decode_code_one : (b : ℕ) → decode_code (b ∷ []) ≡ make_code b (try_from b)
  unfolding index
  decode_code_one b = ground arith

  code_canonical :
      ((c : C) → code (make c) ≡ c)
      → ((b : ℕ) (c : C) → try_from b ≡ some c → to_byte c ≡ b)
      → (payload : List ℕ) (p : P) → decode_code payload ≡ ok p
      → Unit {0} × (to_byte (code p) ∷ [] ≡ payload)
  code_canonical code-make back [] p e = cc
  code_canonical code-make back (b ∷ []) p e = elim (Option-cases (try_from b)) [
    | inl unknown ↦ let e' : make_code b none ≡ ok p = rw (decode_code_one b, unknown) at e in cc e'
    | inr (c, known) ↦
        let e' : make_code b (some c) ≡ ok p = rw (decode_code_one b, known) at e in
        let made : make c ≡ p = cc e' in
        let same : code p ≡ c = ap code (sym made) ∙ code-make c in
        (tt, ap (λ x. x ∷ []) (ap to_byte same ∙ back b c known))
  ]
  code_canonical code-make back (b ∷ d ∷ r) p e = absurd (ground arith)

  code_no_panic : (payload : List ℕ) → decode_code payload ≢ panic
  code_no_panic [] = λ e. cc
  code_no_panic (b ∷ []) = rw (decode_code_one b) (λ e. ground arith)
  code_no_panic (b ∷ d ∷ r) = λ e. ground arith

  pub code-IsCodec :
      ((c : C) → try_from (to_byte c) ≡ some c)
      → ((b : ℕ) (c : C) → try_from b ≡ some c → to_byte c ≡ b)
      → ((p : P) → make (code p) ≡ p)
      → ((c : C) → code (make c) ≡ c)
      → ((c : C) → to_byte c < 256)
      → IsCodec (λ p. Unit {0}) decode_code (λ p out. out ++ to_byte (code p) ∷ [])
  code-IsCodec forth back make-code code-make small = record {
    round_trip = λ p out h. (
      to_byte (code p) ∷ [],
      refl,
      (small (code p), tt),
      decode_code_one (to_byte (code p)) ∙ rw (forth (code p)) (ap ok (make-code p)),
    );
    canonical = λ payload p bytes e. code_canonical code-make back payload p e;
    no_panic = code_no_panic;
  }
