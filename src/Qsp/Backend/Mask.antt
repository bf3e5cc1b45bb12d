-- ===== src/Qsp/Backend/Mask.antt =====
-- The mask of header protection of slt-core/src/crypto/udp_qsp/keys/backend.rs: five bytes, for every sample of 16.
use slt.Prelude.{
  ℕ, ◌≡◌, refl, arith, List, [], ◌∷◌, length, take, drop, replicate, ◌==◌, true, Result, ok,
}
use slt.Prelude.Lists.{length-take, All, All-append_split, take-append-drop}
use slt.Prelude.Slices.{slice_ok}
use slt.Prelude.Bytes.{IsByte}
use slt.Qsp.Boring.{Boring, BoringLaws}
use slt.Qsp.Crypto.{QspCryptoError}
use slt.Qsp.Backend.{HeaderProtectionKind, HeaderProtectionKey, aes128, cha_cha20, mask, mask_of}

-- A mask of five bytes.
pub record IsMask (r : Result QspCryptoError (List ℕ)) : Type 0 where
  pub m0 : ℕ
  pub ms : List ℕ
  pub rest_len : length ms ≡ 4
  pub rest_bytes : All IsByte ms
  pub is : r ≡ ok (m0 ∷ ms)

five-IsMask : (m : List ℕ) → length m ≡ 5 → All IsByte m → IsMask (ok m)
five-IsMask [] h b = absurd (omega arith)
five-IsMask (x ∷ xs) h (b, bs) = record {
  m0 = x;
  ms = xs;
  rest_len = omega arith;
  rest_bytes = bs;
  is = refl;
}

take-IsByte : (n : ℕ) (xs : List ℕ) → All IsByte xs → All IsByte (take n xs)
take-IsByte n xs b = (All-append_split IsByte (take n xs) (drop n xs) (rw take-append-drop b)).0

module _ (boring : Boring) (laws : BoringLaws boring) where
  mask_of-IsMask :
      (kind : HeaderProtectionKind) (key sample : List ℕ)
      → length sample ≡ 16
      → IsMask (mask_of boring kind key sample)
  unfolding mask_of
  mask_of-IsMask aes128 key sample h =
      let block = boring.aes_encrypt key sample in
      rw
        (slice_ok {E = QspCryptoError} block 0 5 (omega arith)
          (omega (arith, laws.aes_encrypt-block key sample)))
        (five-IsMask (take 5 block)
          (omega (arith, length-take 5 block, laws.aes_encrypt-block key sample))
          (take-IsByte 5 block (laws.aes_encrypt-IsByte key sample)))
  mask_of-IsMask cha_cha20 key sample h =
      rw
        (
          slice_ok {E = QspCryptoError} sample 0 4 (omega arith) (omega arith),
          slice_ok {E = QspCryptoError} sample 4 (length sample) (omega arith) (omega arith),
        )
        (five-IsMask _ (laws.chacha_20-length key _ _ (replicate 5 0))
          (laws.chacha_20-IsByte key _ _ (replicate 5 0)))

  pub mask-IsMask :
      (hp : HeaderProtectionKey) (sample : List ℕ)
      → length sample ≡ 16
      → IsMask (mask boring hp sample)
  unfolding mask
  mask-IsMask hp sample h =
      let whole : (length sample == 16) ≡ true = ground (arith, h) in
      rw (mask, whole) (mask_of-IsMask hp.kind hp.key sample h)
