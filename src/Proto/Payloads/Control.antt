-- ===== src/Proto/Payloads/Control.antt =====
-- Control payloads: slt-core/src/proto/payloads/control.rs. Each `decode` tests the length first, so
-- that the copies into fixed arrays behind it cannot fail.
use slt.Prelude.{ℕ, ◌≡◌, refl, arith, List, [], ◌∷◌, ◌++◌, Option, none, some, ◌==◌}
use slt.Prelude.{if◌then◌else◌, length, Result, ok, err, ◌>>=◌, ◌>>◌, guard, index, slice}
use slt.Prelude.Bytes.{to_be, from_be}
use slt.Proto.Payloads.Errors.{PayloadError, length_mismatch, invalid_close_code}

abbrev pub ping_payload_len : ℕ
ping_payload_len = 8

abbrev pub fallback_id_payload_len : ℕ
fallback_id_payload_len = 8

abbrev pub close_payload_len : ℕ
close_payload_len = 1

pub data CloseCode : Type 0 where
  normal auth_timeout idle_timeout protocol_error server_restart : CloseCode

unfoldable pub close_code_to_byte : CloseCode → ℕ
close_code_to_byte normal = 0x00
close_code_to_byte auth_timeout = 0x01
close_code_to_byte idle_timeout = 0x02
close_code_to_byte protocol_error = 0x03
close_code_to_byte server_restart = 0x04

unfoldable pub close_code_try_from : ℕ → Option CloseCode
close_code_try_from b =
    if b == 0x00
    then some normal
    else if b == 0x01
    then some auth_timeout
    else if b == 0x02
    then some idle_timeout
    else if b == 0x03
    then some protocol_error
    else if b == 0x04
    then some server_restart
    else none

pub close_code_try_from-to_byte :
    (c : CloseCode) → close_code_try_from (close_code_to_byte c) ≡ some c
unfolding close_code_try_from close_code_to_byte
close_code_try_from-to_byte normal = refl
close_code_try_from-to_byte _ = refl

pub close_code_to_byte-try_from :
    (b : ℕ) (c : CloseCode) → close_code_try_from b ≡ some c → close_code_to_byte c ≡ b
unfolding close_code_try_from close_code_to_byte
close_code_to_byte-try_from b c h = ground arith

pub record FallbackToTcpPayload : Type 0 where
  pub fallback_id : ℕ

unfoldable pub decode_fallback_to_tcp : List ℕ → Result PayloadError FallbackToTcpPayload
decode_fallback_to_tcp payload = do
  guard (length payload == fallback_id_payload_len)
      (length_mismatch fallback_id_payload_len (length payload))
  bytes ← slice payload 0 fallback_id_payload_len
  ok (record { fallback_id = from_be bytes })

unfoldable pub encode_fallback_to_tcp : FallbackToTcpPayload → List ℕ → List ℕ
encode_fallback_to_tcp p out = out ++ to_be 8 p.fallback_id

pub record FallbackOkPayload : Type 0 where
  pub fallback_id : ℕ

unfoldable pub decode_fallback_ok : List ℕ → Result PayloadError FallbackOkPayload
decode_fallback_ok payload = do
  guard (length payload == fallback_id_payload_len)
      (length_mismatch fallback_id_payload_len (length payload))
  bytes ← slice payload 0 fallback_id_payload_len
  ok (record { fallback_id = from_be bytes })

unfoldable pub encode_fallback_ok : FallbackOkPayload → List ℕ → List ℕ
encode_fallback_ok p out = out ++ to_be 8 p.fallback_id

pub record PingPayload : Type 0 where
  pub nonce : ℕ

unfoldable pub decode_ping : List ℕ → Result PayloadError PingPayload
decode_ping payload = do
  guard (length payload == ping_payload_len) (length_mismatch ping_payload_len (length payload))
  bytes ← slice payload 0 ping_payload_len
  ok (record { nonce = from_be bytes })

unfoldable pub encode_ping : PingPayload → List ℕ → List ℕ
encode_ping p out = out ++ to_be 8 p.nonce

pub record PongPayload : Type 0 where
  pub nonce : ℕ

unfoldable pub decode_pong : List ℕ → Result PayloadError PongPayload
decode_pong payload = do
  guard (length payload == ping_payload_len) (length_mismatch ping_payload_len (length payload))
  bytes ← slice payload 0 ping_payload_len
  ok (record { nonce = from_be bytes })

unfoldable pub encode_pong : PongPayload → List ℕ → List ℕ
encode_pong p out = out ++ to_be 8 p.nonce

pub record ClosePayload : Type 0 where
  pub code : CloseCode

unfoldable pub decode_close : List ℕ → Result PayloadError ClosePayload
decode_close payload = do
  guard (length payload == close_payload_len) (length_mismatch close_payload_len (length payload))
  b ← index payload 0
  elim (close_code_try_from b) [
    | none ↦ err (invalid_close_code b)
    | some c ↦ ok (record { code = c })
  ]

unfoldable pub encode_close : ClosePayload → List ℕ → List ℕ
encode_close p out = out ++ close_code_to_byte p.code ∷ []
