-- ===== src/Tests/Toy.antt =====
-- A stand-in for BoringSSL with which the packet keys run: sealing appends a tag of 16 bytes.
use slt.Prelude.{
  ℕ, zero, suc, sym, ◌+◌, le→ltb_false, ◌-◌, ◌≡◌, refl, ap, ◌∙◌, arith, List, ◌++◌, length, take,
  replicate, some, none, true, ltb, if◌then◌else◌,
}
use slt.Prelude.Lists.{length-append, length-replicate, take_front, All}
use slt.Prelude.Bytes.{IsByte}
use slt.Qsp.Boring.{Boring, BoringLaws}
use slt.Qsp.Boring as Kind
use slt.Proto.Payloads.Registration.{aes128_gcm}
use slt.Qsp.Backend.{aes128}
use slt.Qsp.Schedule.{DirectionKeys}
use slt.Qsp.Keys.{UdpQspKeys}

abbrev pub tag : List ℕ
tag = replicate 16 9

abbrev pub toy : Boring
toy = record {
  aes_set_encrypt_key = λ key. true;
  aes_encrypt = λ key block. replicate 16 0x5a;
  chacha_20 = λ key nonce counter plaintext. replicate (length plaintext) 0x3c;
  aead_ctx_new = λ kind key. true;
  aead_ctx_seal = λ kind key nonce ad plaintext. some (plaintext ++ tag);
  aead_ctx_open = λ kind key nonce ad sealed.
      if ltb (length sealed) 16 then none else some (take (length sealed - 16) sealed);
  hmac_sha256 = λ key input. some (replicate 32 (length input));
}

replicate-IsByte : (n : ℕ) → All IsByte (replicate n 0x3c)
replicate-IsByte zero = tt
replicate-IsByte (suc n) = (omega arith, replicate-IsByte n)

sealed_len : (p sealed : List ℕ) → some (p ++ tag) ≡ some sealed → length sealed ≡ length p + 16
sealed_len p sealed h = let is : p ++ tag ≡ sealed = cc h in rw (← is) (length-append p tag)

opens :
    (p sealed : List ℕ)
    → some (p ++ tag) ≡ some sealed
    → (if ltb (length sealed) 16 then none else some (take (length sealed - 16) sealed)) ≡ some p
opens p sealed h =
    let is : p ++ tag ≡ sealed = cc h in
    let n = sealed_len p sealed h in
    let whole : take (length sealed - 16) (p ++ tag) ≡ p =
      take_front (length sealed - 16) p tag (omega (arith, n)) in
    rw
      (
        le→ltb_false (length sealed) 16 (omega (arith, n)),
        ap (take (length sealed - 16)) (sym is),
        whole,
      )
      refl

mac_len : (n : ℕ) (out : List ℕ) → some (replicate 32 n) ≡ some out → length out ≡ 32
mac_len n out h =
    let is : replicate 32 n ≡ out = cc h in ap length (sym is) ∙ length-replicate {A = ℕ} 32 n

pub toy-BoringLaws : BoringLaws toy
toy-BoringLaws = record {
  aes_encrypt-block = λ key block. refl;
  aes_encrypt-IsByte = λ key block. omega arith;
  chacha_20-length =
      λ key nonce counter plaintext. length-replicate {A = ℕ} (length plaintext) 0x3c;
  chacha_20-IsByte = λ key nonce counter plaintext. replicate-IsByte (length plaintext);
  seal-length = λ kind key nonce ad plaintext sealed h. sealed_len plaintext sealed h;
  open-seal = λ kind key nonce ad plaintext sealed h. opens plaintext sealed h;
  hmac_sha256-length = λ key input out h. mac_len (length input) out h;
}

-- Keys of one end, and those of its peer.
abbrev side : ℕ → DirectionKeys
side n = record {
  secret = replicate 32 n;
  hp = record { kind = aes128; key = replicate 16 2 };
  aead = record { key = replicate 16 3; iv = replicate 12 4; aead = Kind.aes128_gcm };
}

abbrev pub keys : UdpQspKeys
keys = record { cipher = aes128_gcm; tx = side 7; rx = side 8 }

abbrev pub peer_keys : UdpQspKeys
peer_keys = record { cipher = aes128_gcm; tx = side 8; rx = side 7 }
