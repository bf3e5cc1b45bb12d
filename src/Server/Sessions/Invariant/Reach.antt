-- ===== src/Server/Sessions/Invariant/Reach.antt =====
-- The steps of a session of slt-server/src/sessions, and what holds after every sequence of them.
use slt.Prelude.{ℕ, ◌≡◌, List, [], Option, true, false, Result, ok}
use slt.Prelude.Maps.{Key}
use slt.Prelude.Actions.{Ends-ok}
use slt.Proto.Message.{Message, MessageError, MessageLimits}
use slt.Proto.Payloads.Registration.{CipherSuite}
use slt.Server.Registry.{Registry}
use slt.Server.Upgrade.Heard.{Heard, silence, join, all_readies, All-IsIn_left}
use slt.Server.Upgrade.Attempt.{reset_udp_upgrade_state-IsAttempt}
use slt.Server.Sessions.{ClientSession, Environment, IoError, continue, SessionTimeouts, new}
use slt.Server.Sessions.Egress.{}
use slt.Server.Sessions.View.{view}
use slt.Server.Sessions.Invariant.{IsConsistent, join-IsConsistent, EndsInv}
use slt.Server.Sessions.Invariant.Messages.{handle_tcp_read-Inv}
use slt.Server.Sessions.Invariant.Packets.{event_probes, handle_event-Inv, handle_udp_flush-Inv}
use slt.Server.Sessions.Tcp.{handle_tcp_read}
use slt.Server.Sessions.Lifecycle.{
  SessionEvent, SessionTimer, handle_event, handle_udp_flush, handle_tcp_read_result,
  handle_session_timer,
}
use slt.Server.Sessions.Invariant.Turns.{handle_session_timer-Inv, handle_tcp_read_result-Inv}

module _ {Keys Tx : Type 0} (env : Environment Keys) where
  -- A turn of the event loop, after which the loop goes on, with the upgrade IDs that are received in it. TCP is
  -- read only while it is alive; and between the turns other sessions change the registry.
  pub data Step (s : ClientSession Keys Tx) : Heard → ClientSession Keys Tx → Type 0 where
    buffered :
        (messages : List Message) (end : Option MessageError) (t : ClientSession Keys Tx)
        → s.tcp_alive ≡ true
        → handle_tcp_read env messages end s ≡ (t, ok continue)
        → Step s (record { probes = []; readies = all_readies messages }) t
    read :
        (result : Result IoError ℕ) (messages : List Message) (end : Option MessageError)
        (t : ClientSession Keys Tx)
        → s.tcp_alive ≡ true
        → handle_tcp_read_result env result messages end s ≡ (t, ok continue)
        → Step s (record { probes = []; readies = all_readies messages }) t
    event :
        (e : SessionEvent) (t : ClientSession Keys Tx)
        → handle_event env e s ≡ (t, ok continue)
        → Step s (record { probes = event_probes env e s; readies = [] }) t
    flushed :
        (o : Option IoError) (t : ClientSession Keys Tx)
        → handle_udp_flush env o s ≡ (t, ok continue)
        → Step s silence t
    timer :
        (timer : SessionTimer) (next_ping_at following : ℕ) (t : ClientSession Keys Tx)
        → handle_session_timer env timer next_ping_at s ≡ (t, ok (continue, following))
        → Step s silence t
    elsewhere : (registry : Registry Tx) → Step s silence (record s { registry = registry })

  -- The sessions that turns lead to from the start, with all the upgrade IDs received on the way.
  pub data IsReachable : ClientSession Keys Tx → Heard → Type 0 where
    start :
        (id : ℕ) (client ip : Key) (registry : Registry Tx) (tx : Tx) (limits : MessageLimits)
        (timeouts : SessionTimeouts) (ciphers : List CipherSuite) (now : ℕ)
        → IsReachable (new id client ip registry tx limits timeouts ciphers now) silence
    next :
        (s t : ClientSession Keys Tx) (d r : Heard)
        → IsReachable s r
        → Step s d t
        → IsReachable t (join d r)

  Step-IsConsistent :
      (s t : ClientSession Keys Tx) (d r : Heard)
      → IsConsistent (join d r) (view s)
      → Step s d t
      → IsConsistent (join d r) (view t)
  Step-IsConsistent s t _ r c (buffered messages end _ alive e) =
      let d : Heard = record { probes = []; readies = all_readies messages } in
      (Ends-ok (EndsInv (join d r, true)) _ continue t e (
        handle_tcp_read-Inv env (join d r) messages end s
          (All-IsIn_left (all_readies messages) r.readies) (c, λ h. alive))).0
  Step-IsConsistent s t _ r c (read result messages end _ alive e) =
      let d : Heard = record { probes = []; readies = all_readies messages } in
      (Ends-ok (EndsInv (join d r, false)) _ continue t e (
        handle_tcp_read_result-Inv env (join d r) result messages end s
          (All-IsIn_left (all_readies messages) r.readies) (c, λ h. alive))).0
  Step-IsConsistent s t _ r c (event x _ e) =
      let d : Heard = record { probes = event_probes env x s; readies = [] } in
      (Ends-ok (EndsInv (join d r, false)) _ continue t e (
        handle_event-Inv env (join d r, false) x s (All-IsIn_left (event_probes env x s) r.probes)
          (c, λ h. cc h))).0
  Step-IsConsistent s t _ r c (flushed o _ e) =
      (Ends-ok (EndsInv (r, false)) _ continue t e
        (handle_udp_flush-Inv env (r, false) o s (c, λ h. cc h))).0
  Step-IsConsistent s t _ r c (timer x next_ping_at following _ e) =
      (handle_session_timer-Inv env r x next_ping_at s t following (c, λ h. cc h) e).0
  Step-IsConsistent s _ _ r c (elsewhere registry) = c

  -- After any turns of a session's event loop from its creation, whatever messages, packets, timers and input or
  -- output errors come, and whatever other sessions do to the registry: a switch is requested only once a probe and
  -- a ready message are noted; a probe is noted only if a probe with the ID of the current attempt was received over
  -- UDP, and while there is a UDP session; a ready message is noted only if one with the ID of the current attempt
  -- was received on TCP; at most 16 different stale IDs are kept; the session prefers UDP only while it has a UDP
  -- session, and once its TCP connection has ended it prefers UDP.
  pub reachable-IsConsistent :
      (s : ClientSession Keys Tx) (r : Heard) → IsReachable s r → IsConsistent r (view s)
  unfolding new
  reachable-IsConsistent _ _ (start id client ip registry tx limits timeouts ciphers now) = record {
    attempt = reset_udp_upgrade_state-IsAttempt false;
    connected = λ e. cc e;
    live = λ e. cc e;
  }
  reachable-IsConsistent _ _ (next s t d r reach step) =
      Step-IsConsistent s t d r (join-IsConsistent d r (view s) (reachable-IsConsistent s r reach))
        step
