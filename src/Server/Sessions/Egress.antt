-- ===== src/Server/Sessions/Egress.antt =====
-- What a session sends, and what it does when sending over UDP fails: slt-server/src/sessions/egress.rs.
use slt.Prelude.{ℕ, List, [], Option, none, some, Bool, true, false, not, ◌&&◌, ◌||◌}
use slt.Prelude.{if◌then◌else◌, Result, ok, err, panic}
use slt.Prelude.Actions.{Action, ◌>>◌, return, fail, modify}
use slt.Proto.Message.{Message, encode_message, fallback_to_tcp}
use slt.Proto.Framing.{FrameError}
use slt.Proto.Payloads.Control.{CloseCode, encode_close, encode_fallback_to_tcp}
use slt.Qsp.Session.{Session, QspSessionError, send}
use slt.Server.Registry.{remove_cids_for_session}
use slt.Server.Upgrade.{reset_udp_upgrade_state}
use slt.Server.Sessions.{
  ClientSession, Handler, Environment, SessionError, UdpQspError, IoError, connection,
  connection_aborted, timed_out, not_connected, udp_qsp, WriteResult, written, elapsed,
  write_failed, note, key_update, tcp_write, udp_send, udp_flush, random_u64, set_active_transport,
  tcp, is_some, is_udp, qsp, qsp_io,
}

pub data UdpFailureRecovery : Type 0 where
  retry_message_on_tcp signal_tcp_fallback retire_only : UdpFailureRecovery

-- The outcome of writing the frame, from the environment.
abbrev pub write_outcome : WriteResult → Result SessionError (Unit {0})
write_outcome written = ok tt
write_outcome elapsed = err (connection timed_out)
write_outcome (write_failed e) = err (connection e)

abbrev pub send_outcome : Option IoError → Result UdpQspError (Unit {0})
send_outcome none = ok tt
send_outcome (some e) = err (qsp_io e)

abbrev pub flush_outcome : Option IoError → Result IoError (Unit {0})
flush_outcome none = ok tt
flush_outcome (some e) = err e

module _ {Keys Tx : Type 0} where
  unfoldable pub retire_udp_transport : ClientSession Keys Tx → ClientSession Keys Tx
  retire_udp_transport s = record s {
    registry = remove_cids_for_session s.registry s.session_id;
    udp_session = none;
    udp_peer_packet_number = none;
    last_authenticated_udp_activity = none;
    udp_upgrade = reset_udp_upgrade_state;
  }

  -- The `match` on the outcome of a UDP call, with what to do on its error.
  abbrev pub on_error :
      {E A : Type 0}
      → ClientSession Keys Tx × Result E A
      → (E → Handler Keys Tx A)
      → ClientSession Keys Tx × Result SessionError A
  on_error (s, ok a) k = (s, ok a)
  on_error (s, err e) k = k e s
  on_error (s, panic) k = (s, panic)

  module _ (env : Environment Keys) where
    -- `TcpChannel::write_message` behind the key update.
    unfoldable pub write_frame : Message → Result FrameError (List ℕ) → Handler Keys Tx (Unit {0})
    write_frame m (ok bytes) s =
        let s' = note (tcp_write m) s in (s', write_outcome (env.tcp_write_result s'.calls))
    write_frame m (err e) s = (s, err (SessionError.frame e))
    write_frame m panic s = (s, panic)

    abbrev pub with_keys_updated : Option IoError → Message → Handler Keys Tx (Unit {0})
    with_keys_updated none m = write_frame m (encode_message m [])
    with_keys_updated (some e) m = fail (connection e)

    unfoldable pub send_tcp_message_inner : Message → Handler Keys Tx (Unit {0})
    unfolding write_frame
    send_tcp_message_inner m s =
        let s' = note key_update s in with_keys_updated (env.key_update_error s'.calls) m s'

    -- The marker is set while the write runs.
    unfoldable pub send_tcp_message : Message → Handler Keys Tx (Unit {0})
    unfolding send_tcp_message_inner
    send_tcp_message m s =
        if s.tcp_write_interrupted
        then (s, err (connection connection_aborted))
        else (let (s', result) =
              send_tcp_message_inner m (record s { tcp_write_interrupted = true }) in
            (record s' { tcp_write_interrupted = false }, result))

    -- The protected packet goes to the I/O layer.
    abbrev pub send_packet :
        Result QspSessionError (List ℕ) → Action (ClientSession Keys Tx) UdpQspError (Unit {0})
    send_packet (ok packet) s =
        let s' = note (udp_send packet) s in (s', send_outcome (env.udp_send_error s'.calls))
    send_packet (err e) s = (s, err (qsp e))
    send_packet panic s = (s, panic)

    unfoldable pub queue_encoded :
        Session Keys
        → Result FrameError (List ℕ)
        → Action (ClientSession Keys Tx) UdpQspError (Unit {0})
    queue_encoded session (ok bytes) s =
        let (session', result) = send env.crypto session bytes in
        send_packet result (record s { udp_session = some session' })
    queue_encoded session (err e) s = (s, err (UdpQspError.frame e))
    queue_encoded session panic s = (s, panic)

    abbrev pub queue_on :
        Option (Session Keys)
        → Result FrameError (List ℕ)
        → Action (ClientSession Keys Tx) UdpQspError (Unit {0})
    queue_on none encoded = return tt
    queue_on (some session) encoded = queue_encoded session encoded

    unfoldable pub queue_udp_message :
        Message → Action (ClientSession Keys Tx) UdpQspError (Unit {0})
    unfolding queue_encoded
    queue_udp_message m s = queue_on s.udp_session (encode_message m []) s

    unfoldable pub send_tcp_fallback_request : Handler Keys Tx (Unit {0})
    unfolding send_tcp_message
    send_tcp_fallback_request s =
        if is_some s.pending_tcp_fallback
        then (s, ok tt)
        else (let s' = note random_u64 s in
            let fallback_id = env.random s'.calls in
            (do
              send_tcp_message (
                  fallback_to_tcp
                    (encode_fallback_to_tcp (record { fallback_id = fallback_id }) []))
              modify (λ t. record t { pending_tcp_fallback = some fallback_id }))
              s')

    unfoldable pub recover_on_tcp : Option Message → UdpFailureRecovery → Handler Keys Tx (Unit {0})
    unfolding send_tcp_fallback_request send_tcp_message
    recover_on_tcp none retry_message_on_tcp = send_tcp_fallback_request
    recover_on_tcp (some m) retry_message_on_tcp = do send_tcp_fallback_request; send_tcp_message m
    recover_on_tcp _ signal_tcp_fallback = send_tcp_fallback_request
    recover_on_tcp _ retire_only = return tt

    unfoldable pub apply_udp_failure_recovery :
        Option Message → UdpFailureRecovery → SessionError → Handler Keys Tx (Unit {0})
    unfolding recover_on_tcp set_active_transport
    apply_udp_failure_recovery m recovery fallback_error s =
        if s.tcp_alive
        then recover_on_tcp m recovery (set_active_transport tcp s)
        else (s, err fallback_error)

    unfoldable pub recover_from_udp_send_error :
        Message → UdpFailureRecovery → UdpQspError → Handler Keys Tx (Unit {0})
    unfolding apply_udp_failure_recovery retire_udp_transport
    recover_from_udp_send_error m recovery (UdpQspError.frame e) s =
        (s, err (udp_qsp (UdpQspError.frame e)))
    recover_from_udp_send_error m recovery e s =
        apply_udp_failure_recovery (some m) recovery (udp_qsp e) (retire_udp_transport s)

    unfoldable pub recover_from_udp_flush_error :
        Option Message → UdpFailureRecovery → IoError → Handler Keys Tx (Unit {0})
    unfolding apply_udp_failure_recovery retire_udp_transport
    recover_from_udp_flush_error m recovery source s =
        apply_udp_failure_recovery m recovery (udp_qsp (UdpQspError.io source))
          (retire_udp_transport s)

    unfoldable pub send_udp_message : Message → UdpFailureRecovery → Handler Keys Tx (Unit {0})
    unfolding queue_udp_message recover_from_udp_send_error
    send_udp_message m recovery s =
        on_error (queue_udp_message m s) (recover_from_udp_send_error m recovery)

    unfoldable pub flush_udp_session : Action (ClientSession Keys Tx) IoError (Unit {0})
    flush_udp_session s =
        if is_some s.udp_session
        then (let s' = note udp_flush s in (s', flush_outcome (env.udp_flush_error s'.calls)))
        else (s, ok tt)

    unfoldable pub send_udp_message_and_flush :
        Message → UdpFailureRecovery → Handler Keys Tx (Unit {0})
    unfolding send_udp_message flush_udp_session recover_from_udp_flush_error
    send_udp_message_and_flush m recovery = do
      send_udp_message m recovery
      λ s. on_error (flush_udp_session s) (recover_from_udp_flush_error (some m) recovery)

    unfoldable pub has_pending_udp_flush : ClientSession Keys Tx → Bool
    has_pending_udp_flush s =
        is_udp s.active_transport && is_some s.udp_session && env.has_pending_flush s.calls

    unfoldable pub send_close_over_tcp : CloseCode → Handler Keys Tx (Unit {0})
    unfolding send_tcp_message
    send_close_over_tcp code s =
        if not s.tcp_alive || s.tcp_write_interrupted
        then (s, err (connection not_connected))
        else send_tcp_message (Message.close (encode_close (record { code = code }) [])) s

    unfoldable pub send_close_over_udp : CloseCode → Handler Keys Tx (Unit {0})
    unfolding queue_udp_message flush_udp_session
    send_close_over_udp code s =
        if is_some s.udp_session
        then (do
          λ t.
              on_error
                (queue_udp_message (Message.close (encode_close (record { code = code }) [])) t)
                (λ e. fail (udp_qsp e))
          λ t. on_error (flush_udp_session t) (λ e. fail (udp_qsp (UdpQspError.io e))))
            s
        else (s, err (connection not_connected))

    unfoldable pub send_close : CloseCode → Handler Keys Tx (Unit {0})
    unfolding send_close_over_tcp send_close_over_udp
    send_close code s =
        if s.tcp_alive && not s.tcp_write_interrupted
        then send_close_over_tcp code s
        else send_close_over_udp code s
