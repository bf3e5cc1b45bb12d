-- ===== src/Server/Sessions/Tcp.antt =====
-- The messages of the TCP transport: slt-server/src/sessions/tcp.rs.
use slt.Prelude.{ℕ, List, [], ◌∷◌, Option, none, some}
use slt.Prelude.{if◌then◌else◌, ok, err, panic}
use slt.Prelude.Actions.{◌>>=◌, ◌>>◌, return, fail, modify, lift_result}
use slt.Proto.Message.{
  Message, MessageError, register_cid, ping, pong, close, tunnel_data, udp_ready, switch_ack,
  fallback_to_tcp, fallback_ok,
}
use slt.Proto.Payloads.Control.{
  decode_pong, decode_close, decode_fallback_to_tcp, decode_fallback_ok, encode_fallback_ok,
}
use slt.Proto.Admissibility.{MessageContext, client, established, validate_message}
use slt.Proto.Admissibility
use slt.Server.Upgrade.{reset_udp_upgrade_state}
use slt.Server.Sessions.{
  ClientSession, Handler, Environment, SessionControl, continue, SessionError, tcp, is_udp,
  protocol_violation, from_validation, set_active_transport, is_number, note, instant_now,
}
use slt.Server.Sessions
use slt.Server.Sessions.Egress.{send_tcp_message}
use slt.Server.Sessions.Handshake.{handle_udp_ready, handle_switch_ack}
use slt.Server.Sessions.Register.{handle_register_cid}
use slt.Server.Sessions.Forward.{forward_data, pong_payload_for_ping, same_error}

abbrev pub tcp_context : MessageContext
tcp_context = record { sender = client; phase = established; transport = Admissibility.tcp }

module _ {Keys Tx : Type 0} where
  -- A new request of the peer to fall back.
  unfoldable pub fall_back : ℕ → ClientSession Keys Tx → ClientSession Keys Tx
  unfolding set_active_transport reset_udp_upgrade_state
  fall_back fallback_id s = record (set_active_transport tcp s) {
    udp_upgrade = reset_udp_upgrade_state;
    last_peer_fallback_id = some fallback_id;
  }

  unfoldable pub handle_fallback_ok : List ℕ → Handler Keys Tx SessionControl
  handle_fallback_ok payload = do
    answer ← lift_result SessionError.payload (decode_fallback_ok payload)
    modify (λ s.
        if is_number s.pending_tcp_fallback answer.fallback_id
        then record s { pending_tcp_fallback = none }
        else s)
    return continue

  module _ (env : Environment Keys) where
    unfoldable pub handle_fallback_to_tcp : List ℕ → Handler Keys Tx SessionControl
    unfolding fall_back send_tcp_message
    handle_fallback_to_tcp payload = do
      request ← lift_result SessionError.payload (decode_fallback_to_tcp payload)
      modify (λ s.
          if is_number s.last_peer_fallback_id request.fallback_id
          then s
          else fall_back request.fallback_id s)
      send_tcp_message env
          (fallback_ok (encode_fallback_ok (record { fallback_id = request.fallback_id }) []))
      return continue

    unfoldable pub answer_ping : List ℕ → Handler Keys Tx SessionControl
    unfolding send_tcp_message pong_payload_for_ping
    answer_ping payload = do
      bytes ← lift_result same_error (pong_payload_for_ping payload)
      send_tcp_message env (pong bytes)
      return continue

    -- The `match` on the message; the arms of the types that validation refuses are `unreachable!`.
    unfoldable pub dispatch_tcp_message : Message → Handler Keys Tx SessionControl
    unfolding handle_udp_ready handle_switch_ack forward_data answer_ping handle_register_cid
        handle_fallback_to_tcp handle_fallback_ok
    dispatch_tcp_message (udp_ready payload) = handle_udp_ready env payload
    dispatch_tcp_message (switch_ack payload) = handle_switch_ack env payload
    dispatch_tcp_message (tunnel_data packet) = forward_data env packet
    dispatch_tcp_message (ping payload) = answer_ping payload
    dispatch_tcp_message (pong payload) = do
      answer ← lift_result SessionError.payload (decode_pong payload)
      return continue
    dispatch_tcp_message (close payload) = do
      closing ← lift_result SessionError.payload (decode_close payload)
      return Sessions.close
    dispatch_tcp_message (register_cid payload) = λ s.
        if is_udp s.active_transport
        then (s, err protocol_violation)
        else handle_register_cid env payload s
    dispatch_tcp_message (fallback_to_tcp payload) = handle_fallback_to_tcp payload
    dispatch_tcp_message (fallback_ok payload) = handle_fallback_ok payload
    dispatch_tcp_message _ = λ s. (s, panic)

    unfoldable pub handle_tcp_message : Message → Handler Keys Tx SessionControl
    unfolding dispatch_tcp_message
    handle_tcp_message m = do
      lift_result from_validation (validate_message m tcp_context)
      dispatch_tcp_message m

    -- `Instant::now()`
    abbrev pub read_clock : Handler Keys Tx ℕ
    read_clock s = let s' = note instant_now s in (s', ok (env.now s'.calls))

    abbrev pub unless_close :
        SessionControl → Handler Keys Tx SessionControl → Handler Keys Tx SessionControl
    unless_close continue k = k
    unless_close Sessions.close k = return Sessions.close

    -- The loop over the buffered input: the messages that `try_pop_message` yields, then that it has no more or
    -- meets an error.
    unfoldable pub handle_tcp_read :
        List Message → Option MessageError → Handler Keys Tx SessionControl
    unfolding handle_tcp_message
    handle_tcp_read [] none = return continue
    handle_tcp_read [] (some e) = fail (SessionError.message e)
    handle_tcp_read (m ∷ rest) end = do
      received_at ← read_clock
      control ← handle_tcp_message m
      modify (λ s. record s { last_activity = received_at })
      unless_close control (handle_tcp_read rest end)
