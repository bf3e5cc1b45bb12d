-- ===== src/Server/Sessions/Invariant/Messages.antt =====
-- Tunnelled packets, fallback and the dispatch of messages keep the session consistent.
use slt.Prelude.{if◌then◌else◌, ℕ, List, [], ◌∷◌, Option, none, some, true, err}
use slt.Prelude.Lists.{All, All-append_split}
use slt.Prelude.Actions.{Ends, Ends-follow, Ends-lift, if_both}
use slt.Proto.Message.{Message, MessageError, pong, fallback_ok}
use slt.Proto.Payloads.Registration.{decode_register_cid}
use slt.Proto.Payloads.Control.{
  decode_pong, decode_close, decode_fallback_to_tcp, decode_fallback_ok, encode_fallback_ok,
}
use slt.Server.Upgrade.Heard.{Heard, IsIn, message_readies, all_readies}
use slt.Server.Upgrade.Attempt.{reset_udp_upgrade_state-IsAttempt}
use slt.Server.Sessions.{
  ClientSession, Handler, Environment, SessionError, IoError, SessionControl, continue,
  payload_encode, allows, note, is_number, is_udp, tcp, set_active_transport, accept_packet,
  instant_now, create_io,
}
use slt.Server.Sessions
use slt.Server.Sessions.View.{view}
use slt.Server.Sessions.Invariant.{Known, Inv, EndsInv, upgrade-Inv, set_active_transport-tcp}
use slt.Server.Sessions.Invariant.Handlers.{handle_udp_ready-Inv, handle_switch_ack-Inv}
use slt.Server.Sessions.Register.{handle_register_cid}
use slt.Server.Sessions.Forward.{
  validate_packet_src, handle_tun_packet_send_outcome, pong_payload_for_ping, same_error, deliver,
  forward_data,
}
use slt.Server.Sessions.Tcp.{
  fall_back, handle_fallback_ok, handle_fallback_to_tcp, answer_ping, dispatch_tcp_message,
  handle_tcp_message, tcp_context, handle_tcp_read, unless_close,
}
use slt.Proto.Admissibility.{validate_message}
use slt.Server.Sessions.{from_validation, protocol_violation}
use slt.Server.Sessions.Invariant.Registering.{send_last, judge_register-Inv}

module _ {Keys Tx : Type 0} (env : Environment Keys) (known : Known) where
  deliver-Inv :
      (packet : List ℕ) (s : ClientSession Keys Tx)
      → Inv known (view s)
      → Ends (EndsInv known) (deliver env packet s)
  unfolding deliver
  deliver-Inv packet s h =
      let s' = note (accept_packet packet) s in
      Ends-lift SessionError.io (env.tun_outcome s'.calls) _ (EndsInv known) s' (λ outcome.
        Ends-lift same_error (handle_tun_packet_send_outcome outcome) _ (EndsInv known) s' (λ u. h))

  pub forward_data-Inv :
      (packet : List ℕ) (s : ClientSession Keys Tx)
      → Inv known (view s)
      → Ends (EndsInv known) (forward_data env packet s)
  unfolding forward_data
  forward_data-Inv packet s h =
      Ends-lift same_error (validate_packet_src s.assigned_ipv4 packet) _ (EndsInv known) s
        (λ allowed.
          if_both (λ (m : Handler Keys Tx SessionControl). Ends (EndsInv known) (m s)) allowed _ _
            (λ t. deliver-Inv packet s h) (λ f. h))

  answer_ping-Inv :
      (payload : List ℕ) (s : ClientSession Keys Tx)
      → Inv known (view s)
      → Ends (EndsInv known) (answer_ping env payload s)
  unfolding answer_ping
  answer_ping-Inv payload s h =
      Ends-lift same_error (pong_payload_for_ping payload) _ (EndsInv known) s
        (λ bytes. send_last env known (pong bytes) s h)

  handle_fallback_ok-Inv :
      (payload : List ℕ) (s : ClientSession Keys Tx)
      → Inv known (view s)
      → Ends (EndsInv known) (handle_fallback_ok payload s)
  unfolding handle_fallback_ok
  handle_fallback_ok-Inv payload s h =
      Ends-lift SessionError.payload (decode_fallback_ok payload) _ (EndsInv known) s (λ answer.
        if_both (λ (t : ClientSession Keys Tx). Inv known (view t))
          (is_number s.pending_tcp_fallback answer.fallback_id) _ _ (λ t. h) (λ f. h))

module _ {Keys Tx : Type 0} (env : Environment Keys) (r : Heard) where
  fall_back-Inv :
      (id : ℕ) (s : ClientSession Keys Tx)
      → Inv (r, true) (view s)
      → Inv (r, true) (view (fall_back id s))
  unfolding fall_back
  fall_back-Inv id s h =
      let t = set_active_transport tcp s in
      upgrade-Inv (r, true) (view t) _ (set_active_transport-tcp r s h)
        (reset_udp_upgrade_state-IsAttempt (view t).has_udp)

  handle_fallback_to_tcp-Inv :
      (payload : List ℕ) (s : ClientSession Keys Tx)
      → Inv (r, true) (view s)
      → Ends (EndsInv (r, true)) (handle_fallback_to_tcp env payload s)
  unfolding handle_fallback_to_tcp
  handle_fallback_to_tcp-Inv payload s h =
      Ends-lift SessionError.payload (decode_fallback_to_tcp payload) _ (EndsInv (r, true)) s
        (λ request.
          send_last env (r, true)
            (fallback_ok (encode_fallback_ok (record { fallback_id = request.fallback_id }) [])) _
            (if_both (λ (t : ClientSession Keys Tx). Inv (r, true) (view t))
              (is_number s.last_peer_fallback_id request.fallback_id) s _ (λ t. h)
              (λ f. fall_back-Inv request.fallback_id s h)))

  handle_register_cid-Inv :
      (payload : List ℕ) (s : ClientSession Keys Tx)
      → Inv (r, true) (view s)
      → Ends (EndsInv (r, true)) (
          if is_udp s.active_transport
          then (s, err protocol_violation)
          else handle_register_cid env payload s)
  unfolding handle_register_cid
  handle_register_cid-Inv payload s h =
      if_both (Ends (EndsInv (r, true))) (is_udp s.active_transport) _ _ (λ t. tt)
        (λ f. judge_register-Inv env (r, true) (decode_register_cid payload) s h)

  dispatch_tcp_message-Inv :
      (m : Message) (s : ClientSession Keys Tx)
      → All (IsIn r.readies) (message_readies m)
      → Inv (r, true) (view s)
      → Ends (EndsInv (r, true)) (dispatch_tcp_message env m s)
  unfolding dispatch_tcp_message
  dispatch_tcp_message-Inv (Message.udp_ready payload) s told h =
      handle_udp_ready-Inv env (r, true) payload s told h
  dispatch_tcp_message-Inv (Message.switch_ack payload) s told h =
      handle_switch_ack-Inv env (r, true) payload s h
  dispatch_tcp_message-Inv (Message.tunnel_data packet) s told h =
      forward_data-Inv env (r, true) packet s h
  dispatch_tcp_message-Inv (Message.ping payload) s told h =
      answer_ping-Inv env (r, true) payload s h
  dispatch_tcp_message-Inv (Message.pong payload) s told h =
      Ends-lift SessionError.payload (decode_pong payload) _ (EndsInv (r, true)) s (λ a. h)
  dispatch_tcp_message-Inv (Message.close payload) s told h =
      Ends-lift SessionError.payload (decode_close payload) _ (EndsInv (r, true)) s (λ a. h)
  dispatch_tcp_message-Inv (Message.register_cid payload) s told h =
      handle_register_cid-Inv payload s h
  dispatch_tcp_message-Inv (Message.fallback_to_tcp payload) s told h =
      handle_fallback_to_tcp-Inv payload s h
  dispatch_tcp_message-Inv (Message.fallback_ok payload) s told h =
      handle_fallback_ok-Inv env (r, true) payload s h
  dispatch_tcp_message-Inv _ s told h = tt

  pub handle_tcp_message-Inv :
      (m : Message) (s : ClientSession Keys Tx)
      → All (IsIn r.readies) (message_readies m)
      → Inv (r, true) (view s)
      → Ends (EndsInv (r, true)) (handle_tcp_message env m s)
  unfolding handle_tcp_message
  handle_tcp_message-Inv m s told h =
      Ends-lift from_validation (validate_message m tcp_context) _ (EndsInv (r, true)) s
        (λ u. dispatch_tcp_message-Inv m s told h)

  unless_close-Inv :
      (control : SessionControl) (m : Handler Keys Tx SessionControl) (t : ClientSession Keys Tx)
      → Inv (r, true) (view t)
      → Ends (EndsInv (r, true)) (m t)
      → Ends (EndsInv (r, true)) (unless_close env control m t)
  unless_close-Inv continue m t k h = h
  unless_close-Inv Sessions.close m t k h = k

  pub handle_tcp_read-Inv :
      (messages : List Message) (end : Option MessageError) (s : ClientSession Keys Tx)
      → All (IsIn r.readies) (all_readies messages)
      → Inv (r, true) (view s)
      → Ends (EndsInv (r, true)) (handle_tcp_read env messages end s)
  unfolding handle_tcp_read
  handle_tcp_read-Inv [] none s told h = h
  handle_tcp_read-Inv [] (some e) s told h = tt
  handle_tcp_read-Inv (m ∷ rest) end s told h =
      let (told_m, told_rest) =
        All-append_split (IsIn r.readies) (message_readies m) (all_readies rest) told in
      let s' = note instant_now s in
      Ends-follow (handle_tcp_message env m s') _ (EndsInv (r, true)) (EndsInv (r, true))
        (handle_tcp_message-Inv m s' told_m h)
        (λ control t k.
          let t' = record t { last_activity = env.now s'.calls } in
          unless_close-Inv control _ t' k (handle_tcp_read-Inv rest end t' told_rest k))
