-- ===== src/Server/Sessions/Forward.antt =====
-- Packets between the tunnel and the session: the rest of slt-server/src/sessions/mod.rs, and the source check of
-- slt-server/src/router.rs.
use slt.Prelude.{ℕ, List, Bool, false, ltb, length}
use slt.Prelude.{if◌then◌else◌, Result, ok, err, panic}
use slt.Prelude.Maps.{same}
use slt.Prelude.Bytes.{to_be}
use slt.Prelude.Actions.{◌>>=◌, ◌>>◌, return, lift_result}
use slt.Ipv4.{extract_src_ipv4, NoAddress}
use slt.Proto.Message.{tunnel_data}
use slt.Proto.Payloads.Control.{decode_ping}
use slt.Server.Sessions.{
  Handler, Environment, SessionControl, continue, SessionError, broken_pipe, ActiveTransport,
  TunPacketSendOutcome, accepted, dropped, closed, note, accept_packet, tcp, udp,
}
use slt.Server.Sessions.Egress.{send_tcp_message, send_udp_message, retry_message_on_tcp}

-- `is_some_and` on the address of the packet; the panic is kept.
abbrev pub matches_source : List ℕ → Result NoAddress (List ℕ) → Result SessionError Bool
matches_source assigned (ok src_ip) = ok (same assigned src_ip)
matches_source assigned (err e) = ok false
matches_source assigned panic = panic

unfoldable pub validate_packet_src : List ℕ → List ℕ → Result SessionError Bool
validate_packet_src assigned packet = matches_source assigned (extract_src_ipv4 packet)

unfoldable pub handle_tun_packet_send_outcome :
    TunPacketSendOutcome → Result SessionError (Unit {0})
handle_tun_packet_send_outcome accepted = ok tt
handle_tun_packet_send_outcome (dropped bytes) = ok tt
handle_tun_packet_send_outcome closed = err (SessionError.io broken_pipe)

-- The nonce of a ping, back as the payload of the pong.
unfoldable pub pong_payload_for_ping : List ℕ → Result SessionError (List ℕ)
pong_payload_for_ping payload = elim (decode_ping payload) [
  | ok ping ↦ ok (to_be 8 ping.nonce)
  | err e ↦ err (SessionError.payload e)
  | panic ↦ panic
]

abbrev pub same_error : SessionError → SessionError
same_error e = e

module _ {Keys Tx : Type 0} (env : Environment Keys) where
  unfoldable pub send_data : List ℕ → ActiveTransport → Handler Keys Tx SessionControl
  unfolding send_tcp_message send_udp_message
  send_data packet tcp = do send_tcp_message env (tunnel_data packet); return continue
  send_data packet udp = do
    send_udp_message env (tunnel_data packet) retry_message_on_tcp
    return continue

  unfoldable pub handle_tun_packet : List ℕ → Handler Keys Tx SessionControl
  unfolding send_data
  handle_tun_packet packet s =
      if ltb s.limits.max_data_len (length packet)
      then (s, ok continue)
      else send_data packet s.active_transport s

  -- `tun.accept_packet(packet).await?`
  abbrev pub accept : List ℕ → Handler Keys Tx TunPacketSendOutcome
  accept packet s =
      let s' = note (accept_packet packet) s in
      lift_result SessionError.io (env.tun_outcome s'.calls) s'

  unfoldable pub deliver : List ℕ → Handler Keys Tx SessionControl
  unfolding handle_tun_packet_send_outcome
  deliver packet = do
    outcome ← accept packet
    lift_result same_error (handle_tun_packet_send_outcome outcome)
    return continue

  -- The arm of a DATA message, the same for TCP and UDP.
  unfoldable pub forward_data : List ℕ → Handler Keys Tx SessionControl
  unfolding validate_packet_src deliver
  forward_data packet = do
    allowed ← λ s. lift_result same_error (validate_packet_src s.assigned_ipv4 packet) s
    if allowed then deliver packet else return continue
