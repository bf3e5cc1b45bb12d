-- ===== src/Proto/Payloads/Auth.antt =====
-- Authentication payloads: slt-core/src/proto/payloads/auth.rs.
use slt.Prelude.{ℕ, ◌+◌, ◌≡◌, refl, arith, List, [], ◌∷◌, ◌++◌, Option, none, some, ◌==◌}
use slt.Prelude.{if◌then◌else◌, length, Result, ok, err, ◌>>=◌, ◌>>◌, guard, index, slice}
use slt.Prelude.Bytes.{to_be, from_be}
use slt.Proto.Payloads.Errors.{PayloadError, length_mismatch, invalid_auth_fail_code}

abbrev pub auth_challenge_len : ℕ
auth_challenge_len = 32

abbrev pub auth_signature_len : ℕ
auth_signature_len = 64

abbrev pub auth_payload_len : ℕ
auth_payload_len = 16 + 4 + 2 + auth_challenge_len + auth_signature_len

pub data AuthFailCode : Type 0 where
  unknown unknown_client disabled bad_signature ip_mismatch challenge_invalid mtu_mismatch :
      AuthFailCode

unfoldable pub auth_fail_code_to_byte : AuthFailCode → ℕ
auth_fail_code_to_byte unknown = 0x00
auth_fail_code_to_byte unknown_client = 0x01
auth_fail_code_to_byte disabled = 0x02
auth_fail_code_to_byte bad_signature = 0x03
auth_fail_code_to_byte ip_mismatch = 0x04
auth_fail_code_to_byte challenge_invalid = 0x05
auth_fail_code_to_byte mtu_mismatch = 0x06

unfoldable pub auth_fail_code_try_from : ℕ → Option AuthFailCode
auth_fail_code_try_from b =
    if b == 0x00
    then some unknown
    else if b == 0x01
    then some unknown_client
    else if b == 0x02
    then some disabled
    else if b == 0x03
    then some bad_signature
    else if b == 0x04
    then some ip_mismatch
    else if b == 0x05
    then some challenge_invalid
    else if b == 0x06
    then some mtu_mismatch
    else none

pub auth_fail_code_try_from-to_byte :
    (c : AuthFailCode) → auth_fail_code_try_from (auth_fail_code_to_byte c) ≡ some c
unfolding auth_fail_code_try_from auth_fail_code_to_byte
auth_fail_code_try_from-to_byte unknown = refl
auth_fail_code_try_from-to_byte _ = refl

pub auth_fail_code_to_byte-try_from :
    (b : ℕ) (c : AuthFailCode) → auth_fail_code_try_from b ≡ some c → auth_fail_code_to_byte c ≡ b
unfolding auth_fail_code_try_from auth_fail_code_to_byte
auth_fail_code_to_byte-try_from b c h = ground arith

-- The identifier, the address, the challenge and the signature are byte arrays.
pub record AuthPayload : Type 0 where
  pub client_id : List ℕ
  pub assigned_ipv4 : List ℕ
  pub tun_mtu : ℕ
  pub challenge : List ℕ
  pub signature : List ℕ

unfoldable pub decode_auth : List ℕ → Result PayloadError AuthPayload
decode_auth payload = do
  guard (length payload == auth_payload_len) (length_mismatch auth_payload_len (length payload))
  client_id ← slice payload 0 16
  assigned_ipv4 ← slice payload 16 20
  mtu_bytes ← slice payload 20 22
  challenge ← slice payload 22 (22 + auth_challenge_len)
  signature ← slice payload (22 + auth_challenge_len) (22 + auth_challenge_len + auth_signature_len)
  ok (record {
    client_id = client_id;
    assigned_ipv4 = assigned_ipv4;
    tun_mtu = from_be mtu_bytes;
    challenge = challenge;
    signature = signature;
  })

unfoldable pub encode_auth : AuthPayload → List ℕ → List ℕ
encode_auth p out =
    ((((out ++ p.client_id) ++ p.assigned_ipv4) ++ to_be 2 p.tun_mtu) ++ p.challenge) ++ p.signature

-- `AuthOkPayload` is a unit struct.
pub data AuthOkPayload : Type 0 where
  auth_ok_payload : AuthOkPayload

unfoldable pub decode_auth_ok : List ℕ → Result PayloadError AuthOkPayload
decode_auth_ok payload = do
  guard (length payload == 0) (length_mismatch 0 (length payload))
  ok auth_ok_payload

unfoldable pub encode_auth_ok : AuthOkPayload → List ℕ → List ℕ
encode_auth_ok p out = out

pub record AuthFailPayload : Type 0 where
  pub code : AuthFailCode

unfoldable pub decode_auth_fail : List ℕ → Result PayloadError AuthFailPayload
decode_auth_fail payload = do
  guard (length payload == 1) (length_mismatch 1 (length payload))
  b ← index payload 0
  elim (auth_fail_code_try_from b) [
    | none ↦ err (invalid_auth_fail_code b)
    | some c ↦ ok (record { code = c })
  ]

unfoldable pub encode_auth_fail : AuthFailPayload → List ℕ → List ℕ
encode_auth_fail p out = out ++ auth_fail_code_to_byte p.code ∷ []
