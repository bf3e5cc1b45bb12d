-- ===== src/Proto/Payloads/Registration.antt =====
-- Registration payloads: slt-core/src/proto/payloads/registration.rs.
pub mod Parse
pub mod RoundTrip
use slt.Prelude.{ℕ, ◌+◌, ◌*◌, ◌≡◌, refl, arith, List, [], ◌∷◌, ◌++◌, Option, none, some, ◌==◌, ltb}
use slt.Prelude.{
  if◌then◌else◌, Bool, true, false, length, Result, ok, err, ◌>>=◌, ◌>>◌, guard, index, slice,
}
use slt.Prelude.{map_err, leb}
use slt.Prelude.Bytes.{to_be, from_be}
use slt.Proto.Payloads.Errors.{PayloadError, length_mismatch, length_too_short, invalid_cipher}
use slt.Proto.Payloads.Errors.{invalid_client_to_server_cid_len, invalid_server_to_client_cid_len}
use slt.Proto.Payloads.Errors.{invalid_key_phase, invalid_register_fail_code}
use slt.Cid
use slt.Cid.{Cid, CidError, max_dcid_len}

abbrev pub udp_qsp_traffic_secret_len : ℕ
udp_qsp_traffic_secret_len = 32

-- The longest payload of a control frame.
abbrev pub max_control_frame_len : ℕ
max_control_frame_len =
    1 + max_dcid_len + 1 + max_dcid_len + 1 + udp_qsp_traffic_secret_len * 2 + 8 + 8 + 1

pub data CipherSuite : Type 0 where
  aes128_gcm cha_cha20_poly1305 : CipherSuite

unfoldable pub cipher_to_byte : CipherSuite → ℕ
cipher_to_byte aes128_gcm = 0x01
cipher_to_byte cha_cha20_poly1305 = 0x02

unfoldable pub cipher_try_from : ℕ → Option CipherSuite
cipher_try_from b =
    if b == 0x01 then some aes128_gcm else if b == 0x02 then some cha_cha20_poly1305 else none

pub cipher_try_from-to_byte : (c : CipherSuite) → cipher_try_from (cipher_to_byte c) ≡ some c
unfolding cipher_try_from cipher_to_byte
cipher_try_from-to_byte aes128_gcm = refl
cipher_try_from-to_byte _ = refl

pub cipher_to_byte-try_from :
    (b : ℕ) (c : CipherSuite) → cipher_try_from b ≡ some c → cipher_to_byte c ≡ b
unfolding cipher_try_from cipher_to_byte
cipher_to_byte-try_from b c h = ground arith

pub data RegisterFailCode : Type 0 where
  unknown not_authenticated invalid_cipher_code invalid_cid invalid_keys : RegisterFailCode

unfoldable pub register_fail_code_to_byte : RegisterFailCode → ℕ
register_fail_code_to_byte unknown = 0x00
register_fail_code_to_byte not_authenticated = 0x01
register_fail_code_to_byte invalid_cipher_code = 0x02
register_fail_code_to_byte invalid_cid = 0x03
register_fail_code_to_byte invalid_keys = 0x04

unfoldable pub register_fail_code_try_from : ℕ → Option RegisterFailCode
register_fail_code_try_from b =
    if b == 0x00
    then some unknown
    else if b == 0x01
    then some not_authenticated
    else if b == 0x02
    then some invalid_cipher_code
    else if b == 0x03
    then some invalid_cid
    else if b == 0x04
    then some invalid_keys
    else none

pub register_fail_code_try_from-to_byte :
    (c : RegisterFailCode) → register_fail_code_try_from (register_fail_code_to_byte c) ≡ some c
unfolding register_fail_code_try_from register_fail_code_to_byte
register_fail_code_try_from-to_byte unknown = refl
register_fail_code_try_from-to_byte _ = refl

pub register_fail_code_to_byte-try_from :
    (b : ℕ) (c : RegisterFailCode)
    → register_fail_code_try_from b ≡ some c
    → register_fail_code_to_byte c ≡ b
unfolding register_fail_code_try_from register_fail_code_to_byte
register_fail_code_to_byte-try_from b c h = ground arith

pub record RegisterCidPayload : Type 0 where
  pub client_to_server_cid : Cid
  pub server_to_client_cid : Cid
  pub cipher : CipherSuite
  pub secret_tx : List ℕ
  pub secret_rx : List ℕ
  pub pn_start : ℕ
  pub pn_start_rx : ℕ
  pub key_phase : Bool

unfoldable pub encoded_len_for : ℕ → ℕ → CipherSuite → ℕ
encoded_len_for c2s_cid_len s2c_cid_len cipher =
    1 + c2s_cid_len + 1 + s2c_cid_len + 1 + udp_qsp_traffic_secret_len * 2 + 8 + 8 + 1

-- `offset` advances by the length of what is read: the new offset is returned too.
unfoldable pub read_secret : List ℕ → ℕ → Result PayloadError (List ℕ × ℕ)
read_secret payload offset = do
  out ← slice payload offset (offset + udp_qsp_traffic_secret_len)
  ok (out, offset + udp_qsp_traffic_secret_len)

unfoldable pub read_u64 : List ℕ → ℕ → Result PayloadError (ℕ × ℕ)
read_u64 payload offset = do
  bytes ← slice payload offset (offset + 8)
  ok (from_be bytes, offset + 8)

abbrev pub read_cipher : ℕ → Result PayloadError CipherSuite
read_cipher b = elim (cipher_try_from b) [ none ↦ err (invalid_cipher b) | some c ↦ ok c ]

abbrev pub read_key_phase : ℕ → Result PayloadError Bool
read_key_phase b =
    if b == 0 then ok false else if b == 1 then ok true else err (invalid_key_phase b)

-- The fields behind the lengths and the cipher, which have been validated.
unfoldable pub read_fields : List ℕ → ℕ → ℕ → CipherSuite → Result PayloadError RegisterCidPayload
unfolding read_secret read_u64
read_fields payload c2s_cid_len s2c_cid_len cipher = do
  c2s_bytes ← slice payload 1 (1 + c2s_cid_len)
  c2s ← map_err (λ x. invalid_client_to_server_cid_len c2s_cid_len) (Cid.new c2s_bytes)
  let s2c_offset = 1 + c2s_cid_len + 1
  s2c_bytes ← slice payload s2c_offset (s2c_offset + s2c_cid_len)
  s2c ← map_err (λ x. invalid_server_to_client_cid_len s2c_cid_len) (Cid.new s2c_bytes)
  (secret_tx, o₁) ← read_secret payload (s2c_offset + s2c_cid_len + 1)
  (secret_rx, o₂) ← read_secret payload o₁
  (pn_start, o₃) ← read_u64 payload o₂
  (pn_start_rx, o₄) ← read_u64 payload o₃
  b ← index payload o₄
  key_phase ← read_key_phase b
  ok (record {
    client_to_server_cid = c2s;
    server_to_client_cid = s2c;
    cipher = cipher;
    secret_tx = secret_tx;
    secret_rx = secret_rx;
    pn_start = pn_start;
    pn_start_rx = pn_start_rx;
    key_phase = key_phase;
  })

unfoldable pub decode_register_cid : List ℕ → Result PayloadError RegisterCidPayload
unfolding read_fields
decode_register_cid payload = do
  guard (ltb 0 (length payload)) (length_too_short 1 (length payload))
  c2s_cid_len ← index payload 0
  guard (c2s_cid_len == max_dcid_len) (invalid_client_to_server_cid_len c2s_cid_len)
  let s2c_cid_len_offset = 1 + c2s_cid_len
  guard (leb (s2c_cid_len_offset + 1) (length payload))
      (length_too_short (s2c_cid_len_offset + 1) (length payload))
  s2c_cid_len ← index payload s2c_cid_len_offset
  guard (leb s2c_cid_len max_dcid_len) (invalid_server_to_client_cid_len s2c_cid_len)
  let cipher_offset = s2c_cid_len_offset + 1 + s2c_cid_len
  guard (leb (cipher_offset + 1) (length payload))
      (length_too_short (cipher_offset + 1) (length payload))
  cipher_byte ← index payload cipher_offset
  cipher ← read_cipher cipher_byte
  let expected_len = encoded_len_for c2s_cid_len s2c_cid_len cipher
  guard (length payload == expected_len) (length_mismatch expected_len (length payload))
  read_fields payload c2s_cid_len s2c_cid_len cipher

abbrev pub key_phase_byte : Bool → ℕ
key_phase_byte false = 0
key_phase_byte true = 1

-- The casts of the CID lengths to `u8` do not cut: a CID has at most 20 bytes.
unfoldable pub encode_register_cid : RegisterCidPayload → List ℕ → Result PayloadError (List ℕ)
encode_register_cid p out = do
  guard (p.client_to_server_cid.len == max_dcid_len)
      (invalid_client_to_server_cid_len p.client_to_server_cid.len)
  ok (
      out
      ++ p.client_to_server_cid.len
        ∷ (Cid.as_slice p.client_to_server_cid
            ++ p.server_to_client_cid.len
              ∷ (Cid.as_slice p.server_to_client_cid
                  ++ cipher_to_byte p.cipher
                    ∷ (p.secret_tx
                        ++ (p.secret_rx
                            ++ (to_be 8 p.pn_start
                                ++ (to_be 8 p.pn_start_rx ++ key_phase_byte p.key_phase ∷ [])))))))

unfoldable pub encoded_len : RegisterCidPayload → ℕ
unfolding encoded_len_for
encoded_len p = encoded_len_for p.client_to_server_cid.len p.server_to_client_cid.len p.cipher

pub record RegisterOkPayload : Type 0 where
  pub client_to_server_cid : Cid

unfoldable pub decode_register_ok : List ℕ → Result PayloadError RegisterOkPayload
decode_register_ok payload = do
  guard (ltb 0 (length payload)) (length_too_short 1 (length payload))
  cid_len ← index payload 0
  guard (cid_len == max_dcid_len) (invalid_client_to_server_cid_len cid_len)
  let expected_len = 1 + cid_len
  guard (length payload == expected_len) (length_mismatch expected_len (length payload))
  bytes ← slice payload 1 (1 + cid_len)
  cid ← map_err (λ x. invalid_client_to_server_cid_len cid_len) (Cid.new bytes)
  ok (record { client_to_server_cid = cid })

unfoldable pub encode_register_ok : RegisterOkPayload → List ℕ → Result PayloadError (List ℕ)
encode_register_ok p out = do
  guard (p.client_to_server_cid.len == max_dcid_len)
      (invalid_client_to_server_cid_len p.client_to_server_cid.len)
  ok ((out ++ p.client_to_server_cid.len ∷ []) ++ Cid.as_slice p.client_to_server_cid)

pub record RegisterFailPayload : Type 0 where
  pub code : RegisterFailCode

unfoldable pub decode_register_fail : List ℕ → Result PayloadError RegisterFailPayload
decode_register_fail payload = do
  guard (length payload == 1) (length_mismatch 1 (length payload))
  b ← index payload 0
  elim (register_fail_code_try_from b) [
    | none ↦ err (invalid_register_fail_code b)
    | some c ↦ ok (record { code = c })
  ]

unfoldable pub encode_register_fail : RegisterFailPayload → List ℕ → List ℕ
encode_register_fail p out = out ++ register_fail_code_to_byte p.code ∷ []
