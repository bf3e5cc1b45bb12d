-- ===== src/Server/Sessions/Lifecycle.antt =====
-- The steps of a session's event loop: slt-server/src/sessions/lifecycle.rs.
use slt.Prelude.{ℕ, ◌+◌, ◌-◌, ◌%◌, List, [], Option, none, some, Bool, false, not, ◌&&◌}
use slt.Prelude.{leb, ltb, ◌==◌, length, if◌then◌else◌, Result, ok, err, panic}
use slt.Prelude.Actions.{◌>>=◌, ◌>>◌, return, fail, modify}
use slt.Proto.Message.{Message, MessageError, ping}
use slt.Proto.Payloads.Control.{encode_ping, CloseCode}
use slt.Server.Sessions.{
  ClientSession, Handler, Environment, SessionControl, continue, SessionError, IoError, connection,
  ActiveTransport, tcp, udp, is_udp, SocketAddr, SessionTimeouts, note, random_u64,
  set_active_transport,
}
use slt.Server.Sessions
use slt.Server.Sessions.Egress.{
  send_tcp_message, send_udp_message_and_flush, send_tcp_fallback_request, retire_udp_transport,
  retry_message_on_tcp, signal_tcp_fallback, recover_from_udp_flush_error, send_close,
}
use slt.Server.Sessions.Forward.{handle_tun_packet}
use slt.Server.Sessions.Tcp.{handle_tcp_read, read_clock}
use slt.Server.Sessions.Udp.{handle_udp_claim}

pub data SessionTimer : Type 0 where
  ping_timer udp_liveness idle : SessionTimer

pub data SessionEvent : Type 0 where
  udp_claim : SocketAddr → List ℕ → SessionEvent
  tun_packet : List ℕ → SessionEvent

abbrev pub is_batched : SessionEvent → ℕ → Bool
is_batched (udp_claim peer payload) max_data_len = false
is_batched (tun_packet packet) max_data_len = leb (length packet) max_data_len

-- The earlier one of the two deadlines; the idle one when they are equal.
abbrev pub first_deadline : ℕ → ℕ → ℕ × SessionTimer
first_deadline idle_deadline next_ping_at =
    if leb idle_deadline next_ping_at then (idle_deadline, idle) else (next_ping_at, ping_timer)

-- The deadline of UDP liveness, when it is earlier.
abbrev pub with_liveness : Option ℕ → ℕ → ℕ × SessionTimer → ℕ × SessionTimer
with_liveness none timeout (timer_at, timer) = (timer_at, timer)
with_liveness (some last_authenticated) timeout (timer_at, timer) =
    if ltb (last_authenticated + timeout) timer_at
    then (last_authenticated + timeout, udp_liveness)
    else (timer_at, timer)

-- What is done with an error that the code drops.
abbrev pub ignore : {A B : Type 0} → Result SessionError A → B → Result SessionError B
ignore (ok a) b = ok b
ignore (err e) b = ok b
ignore panic b = panic

module _ {Keys Tx : Type 0} where
  unfoldable pub event_extends_udp_batch : ClientSession Keys Tx → SessionEvent → Bool
  event_extends_udp_batch s event =
      is_udp s.active_transport && is_batched event s.limits.max_data_len

  unfoldable pub next_session_timer : ClientSession Keys Tx → ℕ → ℕ × SessionTimer
  next_session_timer s next_ping_at =
      let earlier = first_deadline (s.last_activity + s.timeouts.idle_timeout) next_ping_at in
      if is_udp s.active_transport && s.tcp_alive
      then with_liveness s.last_authenticated_udp_activity s.timeouts.udp_liveness_timeout earlier
      else earlier

  -- The end of the stream.
  unfoldable pub handle_tcp_end : Handler Keys Tx SessionControl
  handle_tcp_end s =
      if is_udp s.active_transport
      then (record s { tcp_alive = false }, ok continue)
      else (s, ok Sessions.close)

  module _ (env : Environment Keys) where
    -- The pause up to the next ping; `fastrand` draws the jitter between 0 and the range, so the remainder
    -- stands for the draw. Configuration keeps `ping_min` at most `ping_max`.
    unfoldable pub schedule_next_ping : Handler Keys Tx ℕ
    schedule_next_ping s =
        let range = s.timeouts.ping_max - s.timeouts.ping_min in
        if ltb 0 range
        then (let s' = note random_u64 s in
            let jitter = env.random s'.calls % (range + 1) in
            (do now ← read_clock env; return (now + s.timeouts.ping_min + jitter)) s')
        else (do now ← read_clock env; return (now + s.timeouts.ping_min)) s

    unfoldable pub send_ping : List ℕ → ActiveTransport → Handler Keys Tx (Unit {0})
    unfolding send_tcp_message send_udp_message_and_flush
    send_ping bytes tcp = send_tcp_message env (ping bytes)
    send_ping bytes udp = send_udp_message_and_flush env (ping bytes) retry_message_on_tcp

    unfoldable pub handle_ping_tick : Handler Keys Tx (Unit {0})
    unfolding send_ping
    handle_ping_tick s =
        let s' = note random_u64 s in
        send_ping (encode_ping (record { nonce = env.random s'.calls }) []) s'.active_transport s'

    unfoldable pub handle_udp_liveness_timeout : Handler Keys Tx SessionControl
    unfolding set_active_transport retire_udp_transport send_tcp_fallback_request
    handle_udp_liveness_timeout s =
        if is_udp s.active_transport && s.tcp_alive
        then (do
          modify (set_active_transport tcp)
          modify retire_udp_transport
          send_tcp_fallback_request env
          return continue)
            s
        else (s, ok continue)

    -- The ping timer's next deadline is the caller's variable.
    unfoldable pub handle_session_timer : SessionTimer → ℕ → Handler Keys Tx (SessionControl × ℕ)
    unfolding handle_ping_tick schedule_next_ping handle_udp_liveness_timeout send_close
    handle_session_timer ping_timer next_ping_at = do
      handle_ping_tick
      following ← schedule_next_ping
      return (continue, following)
    handle_session_timer udp_liveness next_ping_at = do
      control ← handle_udp_liveness_timeout
      return (control, next_ping_at)
    handle_session_timer idle next_ping_at = λ s.
        let (s', result) = send_close env CloseCode.idle_timeout s in
        (s', ignore result (Sessions.close, next_ping_at))

    -- The outcome of reading `n` more bytes, with the messages that are then in the buffer.
    unfoldable pub handle_tcp_read_result :
        Result IoError ℕ → List Message → Option MessageError → Handler Keys Tx SessionControl
    unfolding handle_tcp_read handle_tcp_end
    handle_tcp_read_result (ok n) messages end =
        if not (n == 0) then handle_tcp_read env messages end else handle_tcp_end
    handle_tcp_read_result (err e) messages end = fail (connection e)
    handle_tcp_read_result panic messages end = λ s. (s, panic)

    unfoldable pub handle_event : SessionEvent → Handler Keys Tx SessionControl
    unfolding handle_tun_packet handle_udp_claim
    handle_event (tun_packet packet) = handle_tun_packet env packet
    handle_event (udp_claim peer payload) = handle_udp_claim env peer payload

    -- The flush that the loop itself awaits.
    unfoldable pub handle_udp_flush : Option IoError → Handler Keys Tx SessionControl
    unfolding recover_from_udp_flush_error
    handle_udp_flush none = return continue
    handle_udp_flush (some source) = do
      recover_from_udp_flush_error env none signal_tcp_fallback source
      return continue
