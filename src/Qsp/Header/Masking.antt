-- ===== src/Qsp/Header/Masking.antt =====
-- The loops over packet number bytes of slt-core/src/crypto/udp_qsp/packet.rs: each takes the bytes that lie at
-- its offset to their exclusive or with the mask.
use Prim.Native.Nat.{bit_xor}
use slt.Prelude.{
  ℕ, zero, suc, ◌+◌, ◌-◌, ◌≤◌, ◌≡◌, refl, sym, ap, ap₂, ◌∙◌, arith, List, [], ◌∷◌, ◌++◌, length, ok,
  index, ◌>>=◌,
}
use slt.Prelude.Lists.{length-append, All}
use slt.Prelude.Bytes.{IsByte}
use slt.Prelude.Xor.{bit_xor_twice, bit_xor-lt}
use mathlib.Core.List.{append_assoc}
use slt.Qsp.Backend.{xor_zip}
use slt.Qsp.Crypto.{QspCryptoError}
use slt.Qsp.Header.{store, mask_pn, read_pn, max_wire_pn_len}

pub index_at :
    {E : Type 0} (pre : List ℕ) (x : ℕ) (post : List ℕ) (n : ℕ)
    → length pre ≡ n
    → index {E = E} (pre ++ x ∷ post) n ≡ ok x
unfolding index
index_at [] x post zero h = refl
index_at [] x post (suc n) h = absurd (omega arith)
index_at (y ∷ pre) x post zero h = absurd (omega arith)
index_at (y ∷ pre) x post (suc n) h = index_at pre x post n (omega arith)

pub store_at :
    (pre : List ℕ) (x : ℕ) (post : List ℕ) (n b : ℕ)
    → length pre ≡ n
    → store (pre ++ x ∷ post) n b ≡ ok (pre ++ b ∷ post)
unfolding store
store_at [] x post zero b h = refl
store_at [] x post (suc n) b h = absurd (omega arith)
store_at (y ∷ pre) x post zero b h = absurd (omega arith)
store_at (y ∷ pre) x post (suc n) b h =
    ap (λ r. r >>= λ ys. ok (y ∷ ys)) (store_at pre x post n b (omega arith))

pub length-xor_zip : (xs ms : List ℕ) → length (xor_zip xs ms) ≡ length xs
unfolding xor_zip
length-xor_zip [] ms = refl
length-xor_zip (x ∷ xs) [] = refl
length-xor_zip (x ∷ xs) (m ∷ ms) = ap suc (length-xor_zip xs ms)

pub xor_zip-IsByte : (xs ms : List ℕ) → All IsByte xs → All IsByte ms → All IsByte (xor_zip xs ms)
unfolding xor_zip
xor_zip-IsByte [] ms p q = tt
xor_zip-IsByte (x ∷ xs) [] p q = p
xor_zip-IsByte (x ∷ xs) (m ∷ ms) (p, ps) (q, qs) =
    (bit_xor-lt 8 x m p q, xor_zip-IsByte xs ms ps qs)

pub xor_zip_twice :
    (xs ms : List ℕ) → All IsByte xs → All IsByte ms → xor_zip (xor_zip xs ms) ms ≡ xs
unfolding xor_zip
xor_zip_twice [] ms p q = refl
xor_zip_twice (x ∷ xs) [] p q = refl
xor_zip_twice (x ∷ xs) (m ∷ ms) (p, ps) (q, qs) =
    rw (bit_xor_twice 8 x m p q, xor_zip_twice xs ms ps qs) refl

mask_pn_step :
    (n i offset b m : ℕ) (packet mask packet' : List ℕ)
    → index {E = QspCryptoError} packet (offset + i) ≡ ok b
    → index {E = QspCryptoError} mask (1 + i) ≡ ok m
    → store packet (offset + i) (bit_xor b m) ≡ ok packet'
    → mask_pn (suc n) i offset packet mask ≡ mask_pn n (suc i) offset packet' mask
unfolding mask_pn
mask_pn_step n i offset b m packet mask packet' p q r = rw (mask_pn, p, q, r) refl

read_pn_step :
    (n i pn_len offset b m : ℕ) (packet mask bytes bytes' : List ℕ)
    → index {E = QspCryptoError} packet (offset + i) ≡ ok b
    → index {E = QspCryptoError} mask (1 + i) ≡ ok m
    → store bytes (max_wire_pn_len - pn_len + i) (bit_xor b m) ≡ ok bytes'
    → read_pn (suc n) i pn_len offset packet mask bytes
      ≡ read_pn n (suc i) pn_len offset packet mask bytes'
unfolding read_pn
read_pn_step n i pn_len offset b m packet mask bytes bytes' p q r = rw (read_pn, p, q, r) refl

-- Bytes `xs` behind `pre`, with the mask bytes `ms` behind `mpre`.
pub mask_pn-xor_zip :
    (xs ms pre post mpre : List ℕ) (i offset : ℕ)
    → length pre ≡ offset + i
    → length mpre ≡ 1 + i
    → length xs ≤ length ms
    → mask_pn (length xs) i offset (pre ++ (xs ++ post)) (mpre ++ ms)
      ≡ ok (pre ++ (xor_zip xs ms ++ post))
unfolding mask_pn xor_zip
mask_pn-xor_zip [] ms pre post mpre i offset p q h = refl
mask_pn-xor_zip (x ∷ xs) [] pre post mpre i offset p q h = absurd (omega arith)
mask_pn-xor_zip (x ∷ xs) (m ∷ ms) pre post mpre i offset p q h =
    let y = bit_xor x m in
    let rest =
      mask_pn-xor_zip xs ms (pre ++ y ∷ []) post (mpre ++ m ∷ []) (suc i) offset
        (omega (arith, length-append pre (y ∷ []), p))
        (omega (arith, length-append mpre (m ∷ []), q)) (omega arith) in
    let step =
      mask_pn_step (length xs) i offset x m _ _ _ (index_at pre x (xs ++ post) (offset + i) p)
        (index_at mpre m ms (1 + i) q) (store_at pre x (xs ++ post) (offset + i) y p) in
    step
    ∙ ap₂ (λ p q. mask_pn (length xs) (suc i) offset p q)
        (sym (append_assoc pre (y ∷ []) (xs ++ post))) (sym (append_assoc mpre (m ∷ []) ms))
    ∙ rest
    ∙ ap ok (append_assoc pre (y ∷ []) (xor_zip xs ms ++ post))

-- The bytes `xs` of a packet are read into the places `zs` behind `bpre`.
pub read_pn-xor_zip :
    (xs ms pre post mpre bpre zs : List ℕ) (i pn_len offset : ℕ)
    → length pre ≡ offset + i
    → length mpre ≡ 1 + i
    → length bpre ≡ max_wire_pn_len - pn_len + i
    → length xs ≤ length ms
    → length zs ≡ length xs
    → read_pn (length xs) i pn_len offset (pre ++ (xs ++ post)) (mpre ++ ms) (bpre ++ zs)
      ≡ ok (bpre ++ xor_zip xs ms)
unfolding read_pn xor_zip
read_pn-xor_zip [] ms pre post mpre bpre [] i pn_len offset p q r h e = refl
read_pn-xor_zip [] ms pre post mpre bpre (z ∷ zs) i pn_len offset p q r h e = absurd (omega arith)
read_pn-xor_zip (x ∷ xs) [] pre post mpre bpre zs i pn_len offset p q r h e = absurd (omega arith)
read_pn-xor_zip (x ∷ xs) (m ∷ ms) pre post mpre bpre [] i pn_len offset p q r h e =
    absurd (omega arith)
read_pn-xor_zip (x ∷ xs) (m ∷ ms) pre post mpre bpre (z ∷ zs) i pn_len offset p q r h e =
    let y = bit_xor x m in
    let rest =
      read_pn-xor_zip xs ms (pre ++ x ∷ []) post (mpre ++ m ∷ []) (bpre ++ y ∷ []) zs (suc i) pn_len
        offset (omega (arith, length-append pre (x ∷ []), p))
        (omega (arith, length-append mpre (m ∷ []), q))
        (omega (arith, length-append bpre (y ∷ []), r)) (omega arith) (omega arith) in
    let step =
      read_pn_step (length xs) i pn_len offset x m _ _ _ _
        (index_at pre x (xs ++ post) (offset + i) p) (index_at mpre m ms (1 + i) q)
        (store_at bpre z zs (max_wire_pn_len - pn_len + i) y r) in
    step
    ∙ ap₂ (λ p q. read_pn (length xs) (suc i) pn_len offset p q (bpre ++ y ∷ zs))
        (sym (append_assoc pre (x ∷ []) (xs ++ post))) (sym (append_assoc mpre (m ∷ []) ms))
    ∙ ap
        (λ b.
          read_pn (length xs) (suc i) pn_len offset ((pre ++ x ∷ []) ++ (xs ++ post))
            ((mpre ++ m ∷ []) ++ ms) b)
        (sym (append_assoc bpre (y ∷ []) zs))
    ∙ rest
    ∙ ap ok (append_assoc bpre (y ∷ []) (xor_zip xs ms))
