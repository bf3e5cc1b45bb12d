-- ===== src/Qsp/Boring.antt =====
-- What the packet keys of slt-core/src/crypto/udp_qsp/keys use of BoringSSL, as an interface: the keys are byte
-- strings, and a context stands for the key that it is made from.
use slt.Prelude.{ℕ, ◌+◌, ◌≡◌, List, Option, some, Bool, length}
use slt.Prelude.Lists.{All}
use slt.Prelude.Bytes.{IsByte}

-- `backend.rs`: the AEAD algorithms.
pub data AeadKind : Type 0 where
  aes128_gcm cha_cha20_poly1305 : AeadKind

-- Key setup says whether it succeeds; sealing, opening and the MAC may fail.
pub record Boring : Type 0 where
  pub aes_set_encrypt_key : List ℕ → Bool
  pub aes_encrypt : List ℕ → List ℕ → List ℕ
  pub chacha_20 : List ℕ → List ℕ → ℕ → List ℕ → List ℕ
  pub aead_ctx_new : AeadKind → List ℕ → Bool
  pub aead_ctx_seal : AeadKind → List ℕ → List ℕ → List ℕ → List ℕ → Option (List ℕ)
  pub aead_ctx_open : AeadKind → List ℕ → List ℕ → List ℕ → List ℕ → Option (List ℕ)
  pub hmac_sha256 : List ℕ → List ℕ → Option (List ℕ)

-- What BoringSSL documents: the sizes of outputs, and that opening undoes sealing under the same key, nonce and
-- associated data.
pub record BoringLaws (boring : Boring) : Type 0 where
  pub aes_encrypt-block : (key block : List ℕ) → length (boring.aes_encrypt key block) ≡ 16
  pub aes_encrypt-IsByte : (key block : List ℕ) → All IsByte (boring.aes_encrypt key block)
  pub chacha_20-length :
      (key nonce : List ℕ) (counter : ℕ) (plaintext : List ℕ)
      → length (boring.chacha_20 key nonce counter plaintext) ≡ length plaintext
  pub chacha_20-IsByte :
      (key nonce : List ℕ) (counter : ℕ) (plaintext : List ℕ)
      → All IsByte (boring.chacha_20 key nonce counter plaintext)
  pub seal-length :
      (kind : AeadKind) (key nonce ad plaintext sealed : List ℕ)
      → boring.aead_ctx_seal kind key nonce ad plaintext ≡ some sealed
      → length sealed ≡ length plaintext + 16
  pub open-seal :
      (kind : AeadKind) (key nonce ad plaintext sealed : List ℕ)
      → boring.aead_ctx_seal kind key nonce ad plaintext ≡ some sealed
      → boring.aead_ctx_open kind key nonce ad sealed ≡ some plaintext
  pub hmac_sha256-length :
      (key input out : List ℕ) → boring.hmac_sha256 key input ≡ some out → length out ≡ 32
