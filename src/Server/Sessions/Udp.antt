-- ===== src/Server/Sessions/Udp.antt =====
-- The packets of the UDP transport: slt-server/src/sessions/udp.rs.
use slt.Prelude.{ℕ, List, Option, none, some}
use slt.Prelude.{Result, ok, err, panic}
use slt.Prelude.Actions.{◌>>=◌, ◌>>◌, return, modify, lift_result}
use slt.Proto.Message.{
  Message, MessageError, MessageLimits, decode_padded_message, ping, pong, close, tunnel_data,
  upgrade_probe,
}
use slt.Proto.Payloads.Control.{decode_pong, decode_close}
use slt.Proto.Admissibility.{MessageContext, client, established, validate_message}
use slt.Proto.Admissibility
use slt.Qsp.Crypto.{OpenedPacket}
use slt.Qsp.Session.{Session, QspSessionError, open_packet}
use slt.Server.Sessions.{
  ClientSession, Handler, Environment, SessionControl, continue, SessionError, SocketAddr,
  protocol_violation, from_validation, adopt_udp_peer_if_newer, note_authenticated_udp_activity,
}
use slt.Server.Sessions
use slt.Server.Sessions.Egress.{send_udp_message_and_flush, signal_tcp_fallback}
use slt.Server.Sessions.Handshake.{handle_upgrade_probe}
use slt.Server.Sessions.Forward.{forward_data, pong_payload_for_ping, same_error}
use slt.Server.Sessions.Tcp.{read_clock}

abbrev pub udp_context : MessageContext
udp_context = record { sender = client; phase = established; transport = Admissibility.udp_qsp }

-- `None` is a protocol violation.
abbrev pub require_message :
    Result MessageError (Option (Message × List ℕ)) → Result SessionError Message
require_message (ok (some (m, frame))) = ok m
require_message (ok none) = err protocol_violation
require_message (err e) = err (SessionError.message e)
require_message panic = panic

unfoldable pub decode_udp_message : List ℕ → MessageLimits → Result SessionError Message
decode_udp_message payload limits = require_message (decode_padded_message payload limits)

-- `UdpOpenOutcome`: the opened packet, or none when it is dropped.
abbrev pub open_outcome :
    Result QspSessionError OpenedPacket → Result SessionError (Option OpenedPacket)
open_outcome (ok opened) = ok (some opened)
open_outcome (err e) = ok none
open_outcome panic = panic

module _ {Keys Tx : Type 0} (env : Environment Keys) where
  abbrev pub open_on : Option (Session Keys) → List ℕ → Handler Keys Tx (Option OpenedPacket)
  open_on none payload s = (s, ok none)
  open_on (some session) payload s =
      let (session', result) = open_packet env.crypto session payload in
      (record s { udp_session = some session' }, open_outcome result)

  unfoldable pub open_udp_packet : List ℕ → Handler Keys Tx (Option OpenedPacket)
  open_udp_packet payload s = open_on s.udp_session payload s

  unfoldable pub answer_udp_ping : List ℕ → Handler Keys Tx SessionControl
  unfolding send_udp_message_and_flush pong_payload_for_ping
  answer_udp_ping payload = do
    bytes ← lift_result same_error (pong_payload_for_ping payload)
    send_udp_message_and_flush env (pong bytes) signal_tcp_fallback
    return continue

  -- The arms of the types that validation refuses are `unreachable!`.
  unfoldable pub dispatch_udp_message : Message → Handler Keys Tx SessionControl
  unfolding answer_udp_ping forward_data handle_upgrade_probe
  dispatch_udp_message (ping payload) = answer_udp_ping payload
  dispatch_udp_message (pong payload) = do
    answer ← lift_result SessionError.payload (decode_pong payload)
    return continue
  dispatch_udp_message (tunnel_data packet) = forward_data env packet
  dispatch_udp_message (upgrade_probe payload) = handle_upgrade_probe env payload
  dispatch_udp_message (close payload) = do
    closing ← lift_result SessionError.payload (decode_close payload)
    return Sessions.close
  dispatch_udp_message _ = λ s. (s, panic)

  -- A decoded message: checked, dispatched, and noted as activity.
  unfoldable pub handle_udp_message : Message → Handler Keys Tx SessionControl
  unfolding dispatch_udp_message
  handle_udp_message m = do
    lift_result from_validation (validate_message m udp_context)
    received_at ← read_clock env
    control ← dispatch_udp_message m
    modify (note_authenticated_udp_activity received_at)
    return control

  -- The packet that opened selects the reply peer, whatever it holds.
  unfoldable pub handle_opened : SocketAddr → Option OpenedPacket → Handler Keys Tx SessionControl
  unfolding handle_udp_message
  handle_opened peer none = return continue
  handle_opened peer (some opened) = do
    modify (adopt_udp_peer_if_newer peer opened.pn)
    m ← λ s. lift_result same_error (decode_udp_message opened.payload s.limits) s
    handle_udp_message m

  unfoldable pub handle_udp_claim : SocketAddr → List ℕ → Handler Keys Tx SessionControl
  unfolding open_udp_packet handle_opened
  handle_udp_claim peer payload = do opened ← open_udp_packet payload; handle_opened peer opened
