-- ===== src/Proto/Payloads/ControlCodecs.antt =====
-- The control payloads are inverse codecs.
use slt.Prelude.{◌<◌, refl, arith}
use slt.Prelude.Bytes.{IsU64}
use slt.Proto.Payloads.Codec.{IsCodec, number-IsCodec, code-IsCodec}
use slt.Proto.Payloads.Errors.{invalid_close_code}
use slt.Proto.Payloads.Control.{FallbackToTcpPayload, FallbackOkPayload, PingPayload, PongPayload}
use slt.Proto.Payloads.Control.{ClosePayload, CloseCode, close_code_to_byte, close_code_try_from}
use slt.Proto.Payloads.Control.{close_code_try_from-to_byte, close_code_to_byte-try_from}
use slt.Proto.Payloads.Control.{decode_fallback_to_tcp, encode_fallback_to_tcp, decode_fallback_ok}
use slt.Proto.Payloads.Control.{
  encode_fallback_ok, decode_ping, encode_ping, decode_pong, encode_pong,
}
use slt.Proto.Payloads.Control.{decode_close, encode_close}

fallback_to_tcp-IsCodec :
    IsCodec (λ p. IsU64 p.fallback_id) decode_fallback_to_tcp encode_fallback_to_tcp
unfolding decode_fallback_to_tcp encode_fallback_to_tcp
fallback_to_tcp-IsCodec =
    number-IsCodec {P = FallbackToTcpPayload} (λ n. record { fallback_id = n }) (λ p. p.fallback_id)
      (λ p. refl) (λ n. refl)

fallback_ok-IsCodec : IsCodec (λ p. IsU64 p.fallback_id) decode_fallback_ok encode_fallback_ok
unfolding decode_fallback_ok encode_fallback_ok
fallback_ok-IsCodec =
    number-IsCodec {P = FallbackOkPayload} (λ n. record { fallback_id = n }) (λ p. p.fallback_id)
      (λ p. refl) (λ n. refl)

ping-IsCodec : IsCodec (λ p. IsU64 p.nonce) decode_ping encode_ping
unfolding decode_ping encode_ping
ping-IsCodec =
    number-IsCodec {P = PingPayload} (λ n. record { nonce = n }) (λ p. p.nonce) (λ p. refl)
      (λ n. refl)

pong-IsCodec : IsCodec (λ p. IsU64 p.nonce) decode_pong encode_pong
unfolding decode_pong encode_pong
pong-IsCodec =
    number-IsCodec {P = PongPayload} (λ n. record { nonce = n }) (λ p. p.nonce) (λ p. refl)
      (λ n. refl)

close_code_small : (c : CloseCode) → close_code_to_byte c < 256
unfolding close_code_to_byte
close_code_small c = ground arith

close-IsCodec : IsCodec (λ p. Unit {0}) decode_close encode_close
unfolding decode_close encode_close
close-IsCodec =
    code-IsCodec close_code_try_from close_code_to_byte (λ c. record { code = c }) ClosePayload.code
      invalid_close_code close_code_try_from-to_byte close_code_to_byte-try_from (λ p. refl)
      (λ c. refl) close_code_small

-- For each control payload (fallback request, fallback acknowledgement, ping, pong, close): encoding
-- a value with 64-bit fields appends bytes that decode to it, a payload of bytes that decodes is
-- what its value encodes to, and no payload makes the decoder panic.
pub control_codecs :
    IsCodec (λ p. IsU64 p.fallback_id) decode_fallback_to_tcp encode_fallback_to_tcp
    × IsCodec (λ p. IsU64 p.fallback_id) decode_fallback_ok encode_fallback_ok
    × IsCodec (λ p. IsU64 p.nonce) decode_ping encode_ping
    × IsCodec (λ p. IsU64 p.nonce) decode_pong encode_pong
    × IsCodec (λ p. Unit {0}) decode_close encode_close
control_codecs =
    (fallback_to_tcp-IsCodec, fallback_ok-IsCodec, ping-IsCodec, pong-IsCodec, close-IsCodec)
