-- ===== src/Qsp/Backend.antt =====
-- Header protection and packet protection keys: slt-core/src/crypto/udp_qsp/keys/backend.rs.
pub mod Mask
use Prim.Native.Nat.{bit_xor}
use slt.Prelude.{
  ℕ, zero, suc, ◌+◌, ◌*◌, List, [], ◌∷◌, ◌++◌, length, take, drop, replicate, ltb, ◌==◌, not, Bool,
  true, false, Option, none, some, Result, ok, err, slice, guard, ◌>>=◌, ◌>>◌,
}
use slt.Prelude.Bytes.{to_be}
use slt.Proto.Payloads.Registration
use slt.Proto.Payloads.Registration.{CipherSuite}
use slt.Qsp.Boring.{Boring, AeadKind, aes128_gcm, cha_cha20_poly1305}
use slt.Qsp.Crypto.{QspCryptoError, crypto_fail, packet_too_short}
use slt.Qsp.Header.{hp_mask_len, hp_sample_len, aead_tag_len}

pub data HeaderProtectionKind : Type 0 where
  aes128 cha_cha20 : HeaderProtectionKind

pub record CipherConfig : Type 0 where
  pub hp : HeaderProtectionKind
  pub aead : AeadKind
  pub iv_len : ℕ

-- `AEAD_IV_LEN`
abbrev pub aead_iv_len : ℕ
aead_iv_len = 12

-- `AeadKind::key_len`
unfoldable pub aead_key_len : AeadKind → ℕ
aead_key_len aes128_gcm = 16
aead_key_len cha_cha20_poly1305 = 32

-- `HeaderProtectionKind::key_len`
unfoldable pub hp_key_len : HeaderProtectionKind → ℕ
hp_key_len aes128 = 16
hp_key_len cha_cha20 = 32

unfoldable pub for_suite : CipherSuite → CipherConfig
for_suite CipherSuite.aes128_gcm = record { hp = aes128; aead = aes128_gcm; iv_len = aead_iv_len }
for_suite CipherSuite.cha_cha20_poly1305 = record {
  hp = cha_cha20;
  aead = cha_cha20_poly1305;
  iv_len = aead_iv_len;
}

-- The two variants; the key schedule of AES stands for its key.
pub record HeaderProtectionKey : Type 0 where
  pub kind : HeaderProtectionKind
  pub key : List ℕ

pub record PacketKey : Type 0 where
  pub key : List ℕ
  pub iv : List ℕ
  pub aead : AeadKind

-- `.ok_or(QspCryptoError::CryptoFail)`
abbrev pub or_fail : {A : Type 0} → Option A → Result QspCryptoError A
or_fail (some a) = ok a
or_fail none = err crypto_fail

unfoldable pub from_le : List ℕ → ℕ
from_le [] = 0
from_le (b ∷ bs) = b + 256 * from_le bs

-- `for (a, b) in xs.iter_mut().zip(ys) { *a ^= b }`
unfoldable pub xor_zip : List ℕ → List ℕ → List ℕ
xor_zip [] ys = []
xor_zip (x ∷ xs) [] = x ∷ xs
xor_zip (x ∷ xs) (y ∷ ys) = bit_xor x y ∷ xor_zip xs ys

unfoldable pub make_nonce : List ℕ → ℕ → List ℕ
make_nonce iv counter = take 4 iv ++ xor_zip (drop 4 iv) (to_be 8 counter)

module _ (boring : Boring) where
  -- The two arms of `HeaderProtectionKey::new` behind the test of the length.
  abbrev pub hp_key_ready : HeaderProtectionKind → List ℕ → Bool
  hp_key_ready aes128 key = boring.aes_set_encrypt_key key
  hp_key_ready cha_cha20 key = true

  unfoldable pub new_hp_key :
      HeaderProtectionKind → List ℕ → Result QspCryptoError HeaderProtectionKey
  new_hp_key kind key = do
    guard (length key == hp_key_len kind) crypto_fail
    guard (hp_key_ready kind key) crypto_fail
    ok (record { kind = kind; key = key })

  -- The `match` of `mask`.
  unfoldable pub mask_of : HeaderProtectionKind → List ℕ → List ℕ → Result QspCryptoError (List ℕ)
  mask_of aes128 key sample = slice (boring.aes_encrypt key sample) 0 hp_mask_len
  mask_of cha_cha20 key sample = do
    counter ← slice sample 0 4
    nonce ← slice sample 4 (length sample)
    ok (boring.chacha_20 key nonce (from_le counter) (replicate hp_mask_len 0))

  unfoldable pub mask : HeaderProtectionKey → List ℕ → Result QspCryptoError (List ℕ)
  unfolding mask_of
  mask hp sample = do
    guard (length sample == hp_sample_len) packet_too_short
    mask_of hp.kind hp.key sample

  unfoldable pub clone_hp_key : HeaderProtectionKey → Result QspCryptoError HeaderProtectionKey
  unfolding new_hp_key
  clone_hp_key hp = new_hp_key hp.kind hp.key

  -- `AeadContext::new`
  unfoldable pub new_aead_context : AeadKind → List ℕ → Result QspCryptoError (Unit {0})
  new_aead_context aead key = do
    guard (length key == aead_key_len aead) crypto_fail
    guard (boring.aead_ctx_new aead key) crypto_fail

  unfoldable pub new_packet_key : List ℕ → List ℕ → AeadKind → Result QspCryptoError PacketKey
  unfolding new_aead_context
  new_packet_key key iv aead = do
    guard (length iv == aead_iv_len) crypto_fail
    new_aead_context aead key
    ok (record { key = key; iv = iv; aead = aead })

  -- `seal_into`: the new `out`, with the ciphertext and its tag behind the old one.
  unfoldable pub seal_into : PacketKey → ℕ → ℕ → List ℕ → List ℕ → Result QspCryptoError (List ℕ)
  seal_into k pn ad_len plaintext out = do
    ad ← slice out 0 ad_len
    sealed ← or_fail (boring.aead_ctx_seal k.aead k.key (make_nonce k.iv pn) ad plaintext)
    ok (out ++ sealed)

  -- `PacketKey::open_into`
  unfoldable pub open_sealed : PacketKey → ℕ → List ℕ → List ℕ → Result QspCryptoError (List ℕ)
  open_sealed k pn ad ciphertext = do
    guard (not (ltb (length ciphertext) aead_tag_len)) packet_too_short
    or_fail (boring.aead_ctx_open k.aead k.key (make_nonce k.iv pn) ad ciphertext)

  unfoldable pub clone_packet_key : PacketKey → Result QspCryptoError PacketKey
  unfolding new_packet_key
  clone_packet_key k = new_packet_key k.key k.iv k.aead
