-- ===== src/Proto/Admissibility.antt =====
-- Which messages an endpoint admits: slt-core/src/proto/admissibility.rs.
pub mod Table
pub mod Total
pub mod Schema
use slt.Prelude.{
  ℕ, List, Bool, true, false, Result, ok, err, panic, ◌>>=◌, ◌>>◌, guard, map_err, map_ok,
}
use slt.Proto.Kinds.{MessageType}
use slt.Proto.Message.{Message, ty}
use slt.Proto.Payloads.Errors.{PayloadError}
use slt.Proto.Payloads.Auth.{decode_auth, decode_auth_ok, decode_auth_fail}
use slt.Proto.Payloads.Control.{decode_ping, decode_pong, decode_close, decode_fallback_to_tcp}
use slt.Proto.Payloads.Control.{decode_fallback_ok}
use slt.Proto.Payloads.Upgrade.{decode_upgrade_probe, decode_upgrade_probe_ack, decode_udp_ready}
use slt.Proto.Payloads.Upgrade.{decode_switch_to_udp, decode_switch_ack, decode_switch_ok}
use slt.Proto.Payloads.Registration.{decode_register_ok, decode_register_fail}

pub data MessageSender : Type 0 where
  client server : MessageSender

pub data ProtocolPhase : Type 0 where
  authentication established : ProtocolPhase

pub data MessageTransport : Type 0 where
  tcp udp_qsp : MessageTransport

pub record MessageContext : Type 0 where
  pub sender : MessageSender
  pub phase : ProtocolPhase
  pub transport : MessageTransport

pub data MessageValidationError : Type 0 where
  invalid_direction : MessageType → MessageSender → MessageValidationError
  invalid_phase : MessageType → ProtocolPhase → MessageValidationError
  invalid_transport : MessageType → MessageTransport → MessageValidationError
  invalid_payload : MessageType → PayloadError → MessageValidationError

-- `MessageValidationError::message_type`
unfoldable pub message_type : MessageValidationError → MessageType
message_type (invalid_direction t s) = t
message_type (invalid_phase t p) = t
message_type (invalid_transport t r) = t
message_type (invalid_payload t e) = t

unfoldable pub is_valid_direction : MessageType → MessageSender → Bool
is_valid_direction MessageType.auth client = true
is_valid_direction MessageType.register_cid client = true
is_valid_direction MessageType.ping client = true
is_valid_direction MessageType.pong client = true
is_valid_direction MessageType.close client = true
is_valid_direction MessageType.tunnel_data client = true
is_valid_direction MessageType.upgrade_probe client = true
is_valid_direction MessageType.udp_ready client = true
is_valid_direction MessageType.switch_ack client = true
is_valid_direction MessageType.fallback_to_tcp client = true
is_valid_direction MessageType.fallback_ok client = true
is_valid_direction _ client = false
is_valid_direction MessageType.auth_ok server = true
is_valid_direction MessageType.auth_fail server = true
is_valid_direction MessageType.register_ok server = true
is_valid_direction MessageType.register_fail server = true
is_valid_direction MessageType.ping server = true
is_valid_direction MessageType.pong server = true
is_valid_direction MessageType.close server = true
is_valid_direction MessageType.tunnel_data server = true
is_valid_direction MessageType.upgrade_probe_ack server = true
is_valid_direction MessageType.switch_to_udp server = true
is_valid_direction MessageType.fallback_to_tcp server = true
is_valid_direction MessageType.fallback_ok server = true
is_valid_direction MessageType.switch_ok server = true
is_valid_direction _ server = false

unfoldable pub is_valid_phase : MessageType → ProtocolPhase → Bool
is_valid_phase MessageType.auth authentication = true
is_valid_phase MessageType.auth_ok authentication = true
is_valid_phase MessageType.auth_fail authentication = true
is_valid_phase MessageType.ping authentication = true
is_valid_phase MessageType.pong authentication = true
is_valid_phase MessageType.close authentication = true
is_valid_phase _ authentication = false
is_valid_phase MessageType.auth established = false
is_valid_phase MessageType.auth_ok established = false
is_valid_phase MessageType.auth_fail established = false
is_valid_phase _ established = true

unfoldable pub is_valid_transport : MessageType → MessageTransport → Bool
is_valid_transport MessageType.upgrade_probe tcp = false
is_valid_transport MessageType.upgrade_probe_ack tcp = false
is_valid_transport _ tcp = true
is_valid_transport MessageType.ping udp_qsp = true
is_valid_transport MessageType.pong udp_qsp = true
is_valid_transport MessageType.close udp_qsp = true
is_valid_transport MessageType.tunnel_data udp_qsp = true
is_valid_transport MessageType.upgrade_probe udp_qsp = true
is_valid_transport MessageType.upgrade_probe_ack udp_qsp = true
is_valid_transport _ udp_qsp = false

abbrev pub Verdict : Type 0
Verdict = Result MessageValidationError (Unit {0})

unfoldable pub validate_message_type : MessageType → MessageContext → Verdict
unfolding is_valid_direction is_valid_phase is_valid_transport
validate_message_type t c = do
  guard (is_valid_direction t c.sender) (invalid_direction t c.sender)
  guard (is_valid_phase t c.phase) (invalid_phase t c.phase)
  guard (is_valid_transport t c.transport) (invalid_transport t c.transport)

abbrev pub check : {P : Type 0} → Result PayloadError P → Result PayloadError (Unit {0})
check r = map_ok (λ p. tt) r

-- The `match` of `validate_fixed_payload`.
unfoldable pub check_payload : Message → Result PayloadError (Unit {0})
check_payload (Message.auth bytes) = check (decode_auth bytes)
check_payload (Message.auth_ok bytes) = check (decode_auth_ok bytes)
check_payload (Message.auth_fail bytes) = check (decode_auth_fail bytes)
check_payload (Message.register_cid bytes) = ok tt
check_payload (Message.register_ok bytes) = check (decode_register_ok bytes)
check_payload (Message.register_fail bytes) = check (decode_register_fail bytes)
check_payload (Message.ping bytes) = check (decode_ping bytes)
check_payload (Message.pong bytes) = check (decode_pong bytes)
check_payload (Message.close bytes) = check (decode_close bytes)
check_payload (Message.tunnel_data bytes) = ok tt
check_payload (Message.upgrade_probe bytes) = check (decode_upgrade_probe bytes)
check_payload (Message.upgrade_probe_ack bytes) = check (decode_upgrade_probe_ack bytes)
check_payload (Message.udp_ready bytes) = check (decode_udp_ready bytes)
check_payload (Message.switch_to_udp bytes) = check (decode_switch_to_udp bytes)
check_payload (Message.switch_ack bytes) = check (decode_switch_ack bytes)
check_payload (Message.fallback_to_tcp bytes) = check (decode_fallback_to_tcp bytes)
check_payload (Message.fallback_ok bytes) = check (decode_fallback_ok bytes)
check_payload (Message.switch_ok bytes) = check (decode_switch_ok bytes)

unfoldable pub validate_fixed_payload : Message → Verdict
unfolding check_payload
validate_fixed_payload m = map_err (invalid_payload (ty m)) (check_payload m)

unfoldable pub validate_message : Message → MessageContext → Verdict
unfolding validate_message_type validate_fixed_payload
validate_message m c = do validate_message_type (ty m) c; validate_fixed_payload m
