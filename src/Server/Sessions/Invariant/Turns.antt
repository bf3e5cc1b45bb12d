-- ===== src/Server/Sessions/Invariant/Turns.antt =====
-- Timers and the end of the TCP input keep the session consistent.
use slt.Prelude.{
  ℕ, ◌≡◌, ◌≢◌, refl, ap, ◌∙◌, List, [], Option, Bool, true, false, not, ◌==◌, ◌&&◌, Result, ok, err,
  panic,
}
use slt.Prelude.Lists.{All}
use slt.Prelude.Actions.{Ends, Ends-follow, Ends-map, Ends-ok, if_both, along}
use slt.Proto.Message.{Message, MessageError, ping}
use slt.Proto.Payloads.Control.{CloseCode, encode_ping}
use slt.Server.Upgrade.{reset_udp_upgrade_state}
use slt.Server.Upgrade.Heard.{Heard, IsIn, all_readies}
use slt.Server.Sessions.{
  ClientSession, Handler, Environment, SessionError, IoError, SessionControl, continue,
  SessionTimeouts, ActiveTransport, tcp, udp, is_udp, is_some, new, note, instant_now, random_u64,
  set_active_transport,
}
use slt.Server.Sessions
use slt.Server.Sessions.Egress.{
  retry_message_on_tcp, retire_udp_transport, send_tcp_fallback_request, send_close,
}
use slt.Server.Sessions.View.{
  View, view, retired, send_tcp_fallback_request-view, set_active_transport-view,
}
use slt.Server.Sessions.Invariant.{
  Inv, EndsInv, keeps, retired-Inv, send_tcp_message-keeps, send_udp_message_and_flush-Inv,
}
use slt.Server.Sessions.Invariant.Messages.{handle_tcp_read-Inv}
use slt.Server.Sessions.Tcp.{handle_tcp_read}
use slt.Server.Sessions.Lifecycle.{
  SessionTimer, ping_timer, udp_liveness, idle, handle_tcp_read_result, handle_tcp_end,
  handle_udp_liveness_timeout, send_ping, handle_ping_tick, ignore, schedule_next_ping,
  handle_session_timer,
}

and_right : (a b : Bool) → (a && b) ≡ true → b ≡ true
and_right true b h = h
and_right false b h = cc h

is_udp-udp : (a : ActiveTransport) → is_udp a ≡ true → a ≡ udp
is_udp-udp tcp e = cc e
is_udp-udp udp e = refl

-- The outcome of an idle timer is to close.
ignore-close :
    (r : Result SessionError (Unit {0})) (n m : ℕ)
    → ignore {B = SessionControl × ℕ} r (Sessions.close, n) ≢ ok (continue, m)
ignore-close (ok u) n m = λ h. cc h
ignore-close (err e) n m = λ h. cc h
ignore-close panic n m = λ h. cc h

-- What `retire_udp_transport` does to the view.
abbrev retire_view : View → View
retire_view v = record v { has_udp = false; upgrade = reset_udp_upgrade_state }

retire_udp_transport-view :
    {Keys Tx : Type 0} (s : ClientSession Keys Tx)
    → view (retire_udp_transport s) ≡ retire_view (view s)
unfolding retire_udp_transport
retire_udp_transport-view s = refl

liveness-retired :
    {Keys Tx : Type 0} (s : ClientSession Keys Tx)
    → s.tcp_alive ≡ true
    → view (retire_udp_transport (set_active_transport tcp s)) ≡ retired
liveness-retired s alive =
    retire_udp_transport-view (set_active_transport tcp s)
    ∙ ap retire_view (set_active_transport-view tcp s)
    ∙ ap (λ b. record retired { tcp_alive = b }) alive

module _ {Keys Tx : Type 0} (env : Environment Keys) (r : Heard) where
  send_ping-Inv :
      (bytes : List ℕ) (a : ActiveTransport) (s : ClientSession Keys Tx)
      → Inv (r, false) (view s)
      → Ends (EndsInv (r, false)) (send_ping env bytes a s)
  unfolding send_ping
  send_ping-Inv bytes tcp s h =
      send_tcp_message-keeps env (r, false) (Inv (r, false)) (ping bytes) s h
  send_ping-Inv bytes udp s h =
      send_udp_message_and_flush-Inv env (r, false) (ping bytes) retry_message_on_tcp s h

  schedule_next_ping-view : (s : ClientSession Keys Tx) → view (schedule_next_ping env s).0 ≡ view s
  unfolding schedule_next_ping
  schedule_next_ping-view s =
      if_both (λ (q : _ × Result SessionError ℕ). view {Keys = Keys} {Tx = Tx} q.0 ≡ view s) _ _ _
        (λ t. refl) (λ f. refl)

  handle_udp_liveness_timeout-Inv :
      (s : ClientSession Keys Tx)
      → Inv (r, false) (view s)
      → Ends (EndsInv (r, false)) (handle_udp_liveness_timeout env s)
  unfolding handle_udp_liveness_timeout
  handle_udp_liveness_timeout-Inv s h =
      if_both (Ends (EndsInv (r, false))) (is_udp s.active_transport && s.tcp_alive) _ _
        (λ t.
          let s' = retire_udp_transport (set_active_transport tcp s) in
          Ends-follow (send_tcp_fallback_request env s') _ (EndsInv (r, false)) (EndsInv (r, false))
            (keeps (Inv (r, false)) (send_tcp_fallback_request env s') s'
              (send_tcp_fallback_request-view env s')
              (along (Inv (r, false)) retired (view s') (liveness-retired s (and_right _ _ t))
                (retired-Inv (r, false))))
            (λ a t k. k))
        (λ f. h)

  pub handle_session_timer-Inv :
      (timer : SessionTimer) (next_ping_at : ℕ) (s t : ClientSession Keys Tx) (following : ℕ)
      → Inv (r, false) (view s)
      → handle_session_timer env timer next_ping_at s ≡ (t, ok (continue, following))
      → Inv (r, false) (view t)
  unfolding handle_session_timer handle_ping_tick
  handle_session_timer-Inv ping_timer next_ping_at s t following h e =
      let s' = note random_u64 s in
      let m =
        send_ping env (encode_ping (record { nonce = env.random s'.calls }) []) s'.active_transport
          s' in
      Ends-ok (EndsInv (r, false)) _ (continue, following) t e
        (Ends-follow m _ (EndsInv (r, false)) (EndsInv (r, false))
          (send_ping-Inv _ s'.active_transport s' h)
          (λ a u k.
            Ends-follow (schedule_next_ping env u) _ (EndsInv (r, false)) (EndsInv (r, false))
              (keeps (Inv (r, false)) (schedule_next_ping env u) u (schedule_next_ping-view u) k)
              (λ b v l. l)))
  handle_session_timer-Inv udp_liveness next_ping_at s t following h e =
      Ends-ok (EndsInv (r, false)) _ (continue, following) t e
        (Ends-follow (handle_udp_liveness_timeout env s) _ (EndsInv (r, false)) (EndsInv (r, false))
          (handle_udp_liveness_timeout-Inv s h) (λ a u k. k))
  handle_session_timer-Inv idle next_ping_at s t following h e = absurd (
      ignore-close (send_close env CloseCode.idle_timeout s).1 next_ping_at following
        (ap (λ r. r.1) e))

  handle_tcp_end-Inv :
      (s : ClientSession Keys Tx)
      → Inv (r, false) (view s)
      → Ends (EndsInv (r, false)) (handle_tcp_end s)
  unfolding handle_tcp_end
  handle_tcp_end-Inv s (c, h) =
      if_both (Ends (EndsInv (r, false))) (is_udp s.active_transport) _ _
        (λ t. (
          record {
            attempt = c.attempt;
            connected = c.connected;
            live = λ e. is_udp-udp s.active_transport t;
          },
          λ e. cc e,
        ))
        (λ f. (c, h))

  pub handle_tcp_read_result-Inv :
      (result : Result IoError ℕ) (messages : List Message) (end : Option MessageError)
      (s : ClientSession Keys Tx)
      → All (IsIn r.readies) (all_readies messages)
      → Inv (r, true) (view s)
      → Ends (EndsInv (r, false)) (handle_tcp_read_result env result messages end s)
  unfolding handle_tcp_read_result
  handle_tcp_read_result-Inv (ok n) messages end s told h =
      if_both (λ (m : Handler Keys Tx SessionControl). Ends (EndsInv (r, false)) (m s))
        (not (n == 0)) _ _
        (λ t.
          Ends-map (handle_tcp_read env messages end s) (EndsInv (r, true)) (EndsInv (r, false))
            (handle_tcp_read-Inv env r messages end s told h) (λ a u k. (k.0, λ e. cc e)))
        (λ f. handle_tcp_end-Inv s (h.0, λ e. cc e))
  handle_tcp_read_result-Inv (err e) messages end s told h = tt
  handle_tcp_read_result-Inv panic messages end s told h = tt
