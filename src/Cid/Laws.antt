-- ===== src/Cid/Laws.antt =====
-- What a constructed CID holds: its bytes read back, and the padding is determined.
use slt.Prelude.{
  ℕ, ◌-◌, ◌≤◌, ◌≡◌, refl, sym, ap, arith, List, ◌++◌, ltb, length, length-take, false, take,
}
use slt.Prelude.{replicate, length-append, length-replicate, take-append_length, ok}
use slt.Cid.{Cid, new, as_slice}

-- The bytes behind the length are zero, as every constructor leaves them.
pub record IsValid (c : Cid) : Type 0 where
  pub fits : c.len ≤ 20
  pub full : length c.bytes ≡ 20
  pub padded : c.bytes ≡ take c.len c.bytes ++ replicate (20 - c.len) 0

pub length-as_slice : (c : Cid) → IsValid c → length (as_slice c) ≡ c.len
unfolding as_slice
length-as_slice c v = omega (arith, length-take c.len c.bytes, v.fits, v.full)

pub new-as_slice : (c : Cid) → IsValid c → new (as_slice c) ≡ ok c
unfolding new as_slice
new-as_slice c v =
    let n : length (take c.len c.bytes) ≡ c.len = length-as_slice c v in
    let short : ltb 20 c.len ≡ false = ground arith in
    rw (n, short) (ap ok (λ i. record { len = c.len; bytes = sym v.padded i }))

pub new_ok :
    (bytes : List ℕ)
    → length bytes ≤ 20
    → (c : Cid) × (new bytes ≡ ok c) × IsValid c × (as_slice c ≡ bytes)
unfolding new as_slice
new_ok bytes h =
    let short : ltb 20 (length bytes) ≡ false = ground arith in
    rw short (
      record { len = length bytes; bytes = bytes ++ replicate (20 - length bytes) 0 },
      refl,
      record {
        fits = h;
        full = omega (
          arith,
          length-append bytes (replicate (20 - length bytes) 0),
          length-replicate (20 - length bytes) (let z : ℕ = 0 in z),
        );
        padded = rw (take-append_length bytes (replicate (20 - length bytes) 0));
      },
      take-append_length bytes (replicate (20 - length bytes) 0),
    )
