-- ===== src/Server/Sessions/Invariant.antt =====
-- What the handlers of slt-server/src/sessions keep: the transport that a session sends on is there.
pub mod Handlers
pub mod Registering
pub mod Messages
pub mod Packets
pub mod Turns
pub mod Reach
use slt.Prelude.{
  ℕ, ◌≡◌, refl, sym, ap, arith, List, Option, none, some, Bool, true, false, not, ◌||◌, Result, ok,
  err, panic, inl, inr,
}
use slt.Prelude.Actions.{follow, Ends, Ends-follow, Ends-map, along}
use slt.Proto.Message.{Message, upgrade_probe_ack, switch_to_udp, switch_ok}
use slt.Proto.Payloads.Upgrade.{
  decode_upgrade_probe, encode_upgrade_probe_ack, decode_udp_ready, decode_switch_ack,
  encode_switch_to_udp, encode_switch_ok,
}
use slt.Server.Upgrade.{
  UdpUpgradeState, Source, upgrade_probe, udp_ready, remember_stale_upgrade_id,
  reset_udp_upgrade_attempt_preserving_history,
}
use slt.Server.Upgrade
use slt.Server.Upgrade.Heard.{Heard, join}
use slt.Server.Upgrade.History.{remember-IsHistory}
use slt.Server.Upgrade.Attempt.{
  IsAttempt, join-IsAttempt, reset_udp_upgrade_state-IsAttempt, reset_udp_upgrade_attempt-IsAttempt,
  note_upgrade_id-IsNoted, probe_seen-IsAttempt, ready_seen-IsAttempt, switch_to_udp_sent-IsAttempt,
}
use slt.Server.Sessions.{
  ClientSession, Handler, Environment, SessionError, ActiveTransport, tcp, udp,
  set_active_transport,
}
use slt.Server.Sessions.Egress.{
  UdpFailureRecovery, send_tcp_message, send_udp_message, send_udp_message_and_flush,
}
use slt.Server.Sessions.View.{
  View, view, with_transport, retired, KeptOrRetired, EndsKept, send_tcp_message-view,
  send_udp_message-view, send_udp_message_and_flush-view, set_active_transport-view,
}

-- The upgrade's flags stand for messages that were received; UDP is used only with a UDP session; and a session whose TCP connection is gone uses
-- UDP.
pub record IsConsistent (r : Heard) (v : View) : Type 0 where
  pub attempt : IsAttempt r v.upgrade v.has_udp
  pub connected : v.active_transport ≡ udp → v.has_udp ≡ true
  pub live : v.tcp_alive ≡ false → v.active_transport ≡ udp

-- The IDs received so far, and whether the TCP connection is known to be there.
abbrev pub Known : Type 0
Known = Heard × Bool

-- The same, with what is known of the TCP connection.
abbrev pub Inv : Known → View → Type 0
Inv known v = IsConsistent known.0 v × (known.1 ≡ true → v.tcp_alive ≡ true)

pub join-IsConsistent : (d r : Heard) (v : View) → IsConsistent r v → IsConsistent (join d r) v
join-IsConsistent d r v c = record {
  attempt = join-IsAttempt d r v.upgrade v.has_udp c.attempt;
  connected = c.connected;
  live = c.live;
}

abbrev pub EndsInv : {Keys Tx A : Type 0} → Known → A → ClientSession Keys Tx → Type 0
EndsInv known a s = Inv known (view s)

pub retired-Inv : (known : Known) → Inv known retired
retired-Inv known = (
  record {
    attempt = reset_udp_upgrade_state-IsAttempt false;
    connected = λ e. cc e;
    live = λ e. cc e;
  },
  λ h. refl,
)

pub kept-Inv : (known : Known) (v w : View) → Inv known v → KeptOrRetired v w → Inv known w
kept-Inv known v w i (inl e) = rw e i
kept-Inv known v w i (inr e) = rw e (retired-Inv known)

pub upgrade-Inv :
    (known : Known) (v : View) (u : UdpUpgradeState)
    → Inv known v
    → IsAttempt known.0 u v.has_udp
    → Inv known (record v { upgrade = u })
upgrade-Inv known v u (c, h) a = (record { attempt = a; connected = c.connected; live = c.live }, h)

pub tcp-Inv : (r : Heard) (v : View) → Inv (r, true) v → Inv (r, true) (with_transport tcp v)
tcp-Inv r v (c, h) =
    (record { attempt = c.attempt; connected = λ e. cc e; live = λ e. cc (e, h refl) }, h)

pub udp-Inv :
    (known : Known) (v : View) → v.has_udp ≡ true → Inv known v → Inv known (with_transport udp v)
udp-Inv known v u (c, h) = (record { attempt = c.attempt; connected = λ e. u; live = λ e. refl }, h)

-- What a kept view gives.
pub keeps :
    {Keys Tx E A : Type 0} (Q : View → Type 0) (r : ClientSession Keys Tx × Result E A)
    (s : ClientSession Keys Tx)
    → view r.0 ≡ view s
    → Q (view s)
    → Ends (λ a t. Q (view t)) r
keeps Q (t, ok a) s e h = rw e h
keeps Q (t, err a) s e h = tt
keeps Q (t, panic) s e h = tt

module _ {Keys Tx : Type 0} (env : Environment Keys) (known : Known) where
  pub send_tcp_message-keeps :
      (Q : View → Type 0) (m : Message) (s : ClientSession Keys Tx)
      → Q (view s)
      → Ends (λ a t. Q (view t)) (send_tcp_message env m s)
  send_tcp_message-keeps Q m s h =
      keeps Q (send_tcp_message env m s) s (send_tcp_message-view env m s) h

  pub send_udp_message-Inv :
      (m : Message) (recovery : UdpFailureRecovery) (s : ClientSession Keys Tx)
      → Inv known (view s)
      → Ends (EndsInv known) (send_udp_message env m recovery s)
  send_udp_message-Inv m recovery s h =
      Ends-map (send_udp_message env m recovery s) (EndsKept (view s)) (EndsInv known)
        (send_udp_message-view env m recovery s) (λ a t k. kept-Inv known (view s) (view t) h k)

  pub send_udp_message_and_flush-Inv :
      (m : Message) (recovery : UdpFailureRecovery) (s : ClientSession Keys Tx)
      → Inv known (view s)
      → Ends (EndsInv known) (send_udp_message_and_flush env m recovery s)
  send_udp_message_and_flush-Inv m recovery s h =
      Ends-map (send_udp_message_and_flush env m recovery s) (EndsKept (view s)) (EndsInv known)
        (send_udp_message_and_flush-view env m recovery s)
        (λ a t k. kept-Inv known (view s) (view t) h k)

pub set_active_transport-tcp :
    {Keys Tx : Type 0} (r : Heard) (s : ClientSession Keys Tx)
    → Inv (r, true) (view s)
    → Inv (r, true) (view (set_active_transport tcp s))
set_active_transport-tcp r s h =
    along (Inv (r, true)) (with_transport tcp (view s)) (view (set_active_transport tcp s))
      (set_active_transport-view tcp s) (tcp-Inv r (view s) h)

pub set_active_transport-udp :
    {Keys Tx : Type 0} (known : Known) (s : ClientSession Keys Tx)
    → (view s).has_udp ≡ true
    → Inv known (view s)
    → Inv known (view (set_active_transport udp s))
set_active_transport-udp known s u h =
    along (Inv known) (with_transport udp (view s)) (view (set_active_transport udp s))
      (set_active_transport-view udp s) (udp-Inv known (view s) u h)
