-- ===== src/Qsp/Derivation/Length.antt =====
-- The expansion of slt-core/src/crypto/udp_qsp/keys/derivation.rs ends, and gives the bytes it is asked for.
use slt.Prelude.{
  ℕ, zero, suc, ◌+◌, ◌-◌, ◌*◌, ◌≤◌, ◌≡◌, ◌≢◌, min, refl, ap, ◌∙◌, arith, List, [], ◌∷◌, ◌++◌,
  length, take, ltb, ◌==◌, false, Bool-cases, inl, inr, ltb→lt, le→ltb_false, Option, none, some,
  ok, panic, slice, ok-bind, bind-ne-panic,
}
use slt.Prelude.Lists.{length-append, length-take}
use slt.Prelude.Slices.{slice_ok}
use slt.Qsp.Boring.{Boring}
use slt.Qsp.Backend.{or_fail}
use slt.Qsp.Crypto.{QspCryptoError}
use slt.Qsp.Derivation.{
  expand_loop, hkdf_expand_sha256_vec, hkdf_expand_label_sha256, tls13_label_prefix, to_uint,
}

ltb_false→le : (a b : ℕ) → ltb a b ≡ false → b ≤ a
ltb_false→le a b h = ground arith

or_fail-ne-panic : {A : Type 0} (o : Option A) → or_fail o ≢ panic
or_fail-ne-panic none = λ h. cc h
or_fail-ne-panic (some a) = λ h. cc h

to_uint-ne-panic : (m n : ℕ) → to_uint m n ≢ panic
unfolding to_uint
to_uint-ne-panic m n = elim (Bool-cases (ltb m n)) [
  | inl over ↦ rw (to_uint, over) (λ h. cc h)
  | inr fits ↦ rw (to_uint, fits) (λ h. cc h)
]

to_uint_ok : (m n k : ℕ) → to_uint m n ≡ ok k → (k ≡ n) × (n ≤ m)
unfolding to_uint
to_uint_ok m n k h = elim (Bool-cases (ltb m n)) [
  | inl over ↦ let e = rw (to_uint, over) at h in cc e
  | inr fits ↦ let e = rw (to_uint, fits) at h in (cc e, ltb_false→le m n fits)
]

fits_ok : (m n : ℕ) → n ≤ m → to_uint m n ≡ ok n
unfolding to_uint
fits_ok m n h = rw (to_uint, le→ltb_false m n h) refl

module _ (boring : Boring) (prk info : List ℕ) (len : ℕ) where
  front_of :
      (prev' : List ℕ) (n : ℕ)
      → n ≤ length prev'
      → slice {E = QspCryptoError} prev' 0 n ≡ ok (take n prev')
  front_of prev' n h =
      slice_ok prev' 0 n (omega arith) h
      ∙ (let e : n - 0 ≡ n = omega arith in ap (λ m. ok (take m prev')) e)

  -- The fuel and the counter together stay the same, and the counter is a byte.
  expand_loop-ne-panic :
      (fuel : ℕ) (out prev : List ℕ) (counter : ℕ)
      → counter + fuel ≡ 257
      → counter ≤ 255
      → expand_loop boring fuel prk info len out prev counter ≢ panic
  unfolding expand_loop
  expand_loop-ne-panic zero out prev counter h b = absurd (omega arith)
  expand_loop-ne-panic (suc fuel) out prev counter h b = elim (Bool-cases (ltb (length out) len)) [
    | inr done ↦ rw (expand_loop, done) (λ q. cc q)
    | inl more ↦
        rw (expand_loop, more)
          (bind-ne-panic (or_fail (boring.hmac_sha256 prk (prev ++ info ++ counter ∷ []))) _
            (or_fail-ne-panic _)
            (λ prev' p. rw (front_of prev' (min (len - length out) (length prev')) (omega arith)) (
              bind-ne-panic (to_uint 255 (counter + 1)) _ (to_uint-ne-panic _ _) (λ c q.
                let (is, fits) = to_uint_ok 255 (counter + 1) c q in
                expand_loop-ne-panic fuel _ prev' c (omega (arith, is))
                  (omega (arith, is, fits))))))
  ]

  -- However the MAC behaves, a result has the length asked for.
  expand_loop-length :
      (fuel : ℕ) (out prev : List ℕ) (counter : ℕ) (result : List ℕ)
      → length out ≤ len
      → expand_loop boring fuel prk info len out prev counter ≡ ok result
      → length result ≡ len
  unfolding expand_loop
  expand_loop-length zero out prev counter result h e = cc e
  expand_loop-length (suc fuel) out prev counter result h e =
      elim (Bool-cases (ltb (length out) len)) [
        | inr done ↦
            let ends = rw (expand_loop, done) at e in
            let is : out ≡ result = cc ends in
            omega (arith, ap length is, h, ltb_false→le (length out) len done)
        | inl more ↦
            let goes = rw (expand_loop, more) at e in
            let (prev', p, goes') =
              ok-bind (or_fail (boring.hmac_sha256 prk (prev ++ info ++ counter ∷ []))) _ result
                goes in
            let (block, q, goes'') =
              ok-bind (slice prev' 0 (min (len - length out) (length prev'))) _ result goes' in
            let (c, r, rest) = ok-bind (to_uint 255 (counter + 1)) _ result goes'' in
            let is : take (min (len - length out) (length prev')) prev' ≡ block =
              (let f = front_of prev' (min (len - length out) (length prev')) (omega arith) in
                cc (f, q)) in
            expand_loop-length fuel (out ++ block) prev' c result
              (omega (
                arith,
                h,
                length-append out block,
                ap length is,
                length-take (min (len - length out) (length prev')) prev',
              ))
              rest
      ]

  -- With a MAC of 32 bytes that does not fail, `n` rounds give `32 * n` bytes.
  expand_loop_ok :
      ((key input : List ℕ)
        → (mac : List ℕ) × (boring.hmac_sha256 key input ≡ some mac) × (length mac ≡ 32))
      → (fuel : ℕ) (out prev : List ℕ) (counter : ℕ) → counter + fuel ≡ 257
      → 1 ≤ counter
      → counter ≤ 255
      → length out ≡ min len (32 * (counter - 1))
      → len ≤ 8128
      → (result : List ℕ) × (expand_loop boring fuel prk info len out prev counter ≡ ok result)
  unfolding expand_loop
  expand_loop_ok mac zero out prev counter h c b l m = absurd (omega arith)
  expand_loop_ok mac (suc fuel) out prev counter h c b l m =
      elim (Bool-cases (ltb (length out) len)) [
        | inr done ↦ (out, rw (expand_loop, done) refl)
        | inl more ↦
            let (prev', made, size) = mac prk (prev ++ info ++ counter ∷ []) in
            let less = ltb→lt (length out) len more in
            let n = min (len - length out) (length prev') in
            let block = take n prev' in
            let next : to_uint 255 (counter + 1) ≡ ok (counter + 1) =
              fits_ok 255 (counter + 1) (omega arith) in
            let (result, rest) =
              expand_loop_ok mac fuel (out ++ block) prev' (counter + 1) (omega arith) (omega arith)
                (omega arith) (omega (arith, length-append out block, length-take n prev')) m in
            (result, rw (expand_loop, more, made, front_of prev' n (omega arith), next) rest)
      ]

-- The expansion always ends: with a result or an error, however the MAC behaves and whatever length is asked for.
pub hkdf_expand_sha256_vec-ne-panic :
    (boring : Boring) (prk info : List ℕ) (len : ℕ)
    → hkdf_expand_sha256_vec boring prk info len ≢ panic
unfolding hkdf_expand_sha256_vec
hkdf_expand_sha256_vec-ne-panic boring prk info len = elim (Bool-cases (len == 0)) [
  | inl none_wanted ↦ rw none_wanted (λ h. cc h)
  | inr some_wanted ↦
      rw some_wanted
        (expand_loop-ne-panic boring prk info len 256 [] [] 1 (omega arith) (omega arith))
]

pub hkdf_expand_label_sha256-ne-panic :
    (boring : Boring) (secret label context : List ℕ) (len : ℕ)
    → hkdf_expand_label_sha256 boring secret label context len ≢ panic
unfolding hkdf_expand_label_sha256
hkdf_expand_label_sha256-ne-panic boring secret label context len =
    bind-ne-panic (to_uint 65535 len) _ (to_uint-ne-panic _ _) (λ n p.
      bind-ne-panic (to_uint 255 (length tls13_label_prefix + length label)) _
        (to_uint-ne-panic _ _)
        (λ l p'.
          bind-ne-panic (to_uint 255 (length context)) _ (to_uint-ne-panic _ _)
            (λ k p''. hkdf_expand_sha256_vec-ne-panic boring secret _ len)))

-- With a MAC of 32 bytes that does not fail, the expansion gives as many bytes as are asked for, up to 254 blocks of
-- 32 bytes.
pub hkdf_expand_sha256_vec-length :
    (boring : Boring)
    → ((key input : List ℕ)
        → (mac : List ℕ) × (boring.hmac_sha256 key input ≡ some mac) × (length mac ≡ 32))
    → (prk info : List ℕ) (len : ℕ) → len ≤ 8128
    → (result : List ℕ) × (hkdf_expand_sha256_vec boring prk info len ≡ ok result)
      × (length result ≡ len)
unfolding hkdf_expand_sha256_vec
hkdf_expand_sha256_vec-length boring mac prk info len h = elim (Bool-cases (len == 0)) [
  | inl none_wanted ↦ ([], rw none_wanted refl, ground (arith, none_wanted))
  | inr some_wanted ↦
      let (result, made) =
        expand_loop_ok boring prk info len mac 256 [] [] 1 (omega arith) (omega arith) (omega arith)
          (omega arith) h in
      (
        result,
        rw some_wanted made,
        expand_loop-length boring prk info len 256 [] [] 1 result (omega arith) made,
      )
]
