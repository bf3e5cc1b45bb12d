-- ===== src/Server/Sessions/Invariant/Packets.antt =====
-- Events and flushes keep the session consistent.
use slt.Prelude.{
  ℕ, ◌≡◌, refl, sym, ap, ◌∙◌, List, [], Option, none, some, true, Result, ok, err, panic, length,
  ltb,
}
use slt.Prelude.Actions.{Ends, Ends-follow, Ends-lift, Ends-lift_eq, if_both, along}
use slt.Prelude.Lists.{All}
use slt.Proto.Message.{Message, pong, tunnel_data}
use slt.Proto.Admissibility.{validate_message}
use slt.Proto.Payloads.Control.{decode_pong, decode_close}
use slt.Qsp.Crypto.{OpenedPacket}
use slt.Qsp.Session.{Session, open_packet}
use slt.Server.Upgrade.Heard.{IsIn, message_probes}
use slt.Server.Sessions.{
  ClientSession, Environment, SessionError, IoError, SocketAddr, ActiveTransport, tcp, udp, is_some,
  is_behind, note, instant_now, from_validation, adopt_udp_peer, adopt_udp_peer_if_newer,
  note_authenticated_udp_activity,
}
use slt.Server.Sessions.Egress.{
  send_tcp_message, send_udp_message, send_udp_message_and_flush, retry_message_on_tcp,
  signal_tcp_fallback, recover_from_udp_flush_error,
}
use slt.Server.Sessions.View.{
  View, view, EndsRetired, retired, recover_from_udp_flush_error-retired,
}
use slt.Server.Sessions.Invariant.{
  Known, Inv, EndsInv, retired-Inv, send_tcp_message-keeps, send_udp_message-Inv,
  send_udp_message_and_flush-Inv,
}
use slt.Server.Sessions.Invariant.Handlers.{handle_upgrade_probe-Inv}
use slt.Server.Sessions.Invariant.Messages.{forward_data-Inv}
use slt.Server.Sessions.Forward.{pong_payload_for_ping, same_error, handle_tun_packet, send_data}
use slt.Server.Sessions.Udp.{
  udp_context, decode_udp_message, open_outcome, open_on, open_udp_packet, answer_udp_ping,
  dispatch_udp_message, handle_udp_message, handle_opened, handle_udp_claim,
}
use slt.Server.Sessions.Lifecycle.{
  SessionEvent, udp_claim, tun_packet, handle_event, handle_udp_flush,
}

-- The IDs of the probes that the session receives: of the message in a packet that opens, and in an event.
abbrev pub decoded_probes : Result SessionError Message → List ℕ
decoded_probes (ok m) = message_probes m
decoded_probes (err e) = []
decoded_probes panic = []

abbrev pub packet_probes :
    {Keys Tx : Type 0} → ClientSession Keys Tx × Result SessionError (Option OpenedPacket) → List ℕ
packet_probes (t, ok (some opened)) = decoded_probes (decode_udp_message opened.payload t.limits)
packet_probes (t, ok none) = []
packet_probes (t, err e) = []
packet_probes (t, panic) = []

abbrev pub event_probes :
    {Keys Tx : Type 0} → Environment Keys → SessionEvent → ClientSession Keys Tx → List ℕ
event_probes env (udp_claim peer payload) s = packet_probes (open_udp_packet env payload s)
event_probes env (tun_packet packet) s = []

abbrev WithUdp : Known → View → Type 0
WithUdp known v = Inv known v × (v.has_udp ≡ true)

module _ {Keys Tx : Type 0} (env : Environment Keys) (known : Known) where
  answer_udp_ping-Inv :
      (payload : List ℕ) (s : ClientSession Keys Tx)
      → Inv known (view s)
      → Ends (EndsInv known) (answer_udp_ping env payload s)
  unfolding answer_udp_ping
  answer_udp_ping-Inv payload s h =
      Ends-lift same_error (pong_payload_for_ping payload) _ (EndsInv known) s (λ bytes.
        Ends-follow (send_udp_message_and_flush env (pong bytes) signal_tcp_fallback s) _
          (EndsInv known) (EndsInv known)
          (send_udp_message_and_flush-Inv env known (pong bytes) signal_tcp_fallback s h)
          (λ a t k. k))

  dispatch_udp_message-Inv :
      (m : Message) (s : ClientSession Keys Tx)
      → All (IsIn known.0.probes) (message_probes m)
      → Inv known (view s)
      → (view s).has_udp ≡ true
      → Ends (EndsInv known) (dispatch_udp_message env m s)
  unfolding dispatch_udp_message
  dispatch_udp_message-Inv (Message.ping payload) s told h u = answer_udp_ping-Inv payload s h
  dispatch_udp_message-Inv (Message.pong payload) s told h u =
      Ends-lift SessionError.payload (decode_pong payload) _ (EndsInv known) s (λ a. h)
  dispatch_udp_message-Inv (Message.tunnel_data packet) s told h u =
      forward_data-Inv env known packet s h
  dispatch_udp_message-Inv (Message.upgrade_probe payload) s told h u =
      handle_upgrade_probe-Inv env known payload s told h u
  dispatch_udp_message-Inv (Message.close payload) s told h u =
      Ends-lift SessionError.payload (decode_close payload) _ (EndsInv known) s (λ a. h)
  dispatch_udp_message-Inv _ s told h u = tt

  handle_udp_message-Inv :
      (m : Message) (s : ClientSession Keys Tx)
      → All (IsIn known.0.probes) (message_probes m)
      → Inv known (view s)
      → (view s).has_udp ≡ true
      → Ends (EndsInv known) (handle_udp_message env m s)
  unfolding handle_udp_message note_authenticated_udp_activity
  handle_udp_message-Inv m s told h u =
      Ends-lift from_validation (validate_message m udp_context) _ (EndsInv known) s (λ v.
        Ends-follow (dispatch_udp_message env m (note instant_now s)) _ (EndsInv known)
          (EndsInv known) (dispatch_udp_message-Inv m (note instant_now s) told h u) (λ a t k. k))

  adopt-view :
      (o : Option (Session Keys)) (peer : SocketAddr) (pn : ℕ) (s : ClientSession Keys Tx)
      → view (adopt_udp_peer o peer pn s) ≡ view s
  adopt-view none peer pn s = refl
  adopt-view (some session) peer pn s = refl

  adopt_udp_peer_if_newer-view :
      (peer : SocketAddr) (pn : ℕ) (s : ClientSession Keys Tx)
      → view (adopt_udp_peer_if_newer peer pn s) ≡ view s
  unfolding adopt_udp_peer_if_newer
  adopt_udp_peer_if_newer-view peer pn s =
      if_both (λ (t : ClientSession Keys Tx). view t ≡ view s)
        (is_behind s.udp_peer_packet_number pn) _ _ (λ t. refl)
        (λ f. adopt-view s.udp_session peer pn s)

  adopt-limits :
      (o : Option (Session Keys)) (peer : SocketAddr) (pn : ℕ) (s : ClientSession Keys Tx)
      → (adopt_udp_peer o peer pn s).limits ≡ s.limits
  adopt-limits none peer pn s = refl
  adopt-limits (some session) peer pn s = refl

  adopt_udp_peer_if_newer-limits :
      (peer : SocketAddr) (pn : ℕ) (s : ClientSession Keys Tx)
      → (adopt_udp_peer_if_newer peer pn s).limits ≡ s.limits
  unfolding adopt_udp_peer_if_newer
  adopt_udp_peer_if_newer-limits peer pn s =
      if_both (λ (t : ClientSession Keys Tx). t.limits ≡ s.limits)
        (is_behind s.udp_peer_packet_number pn) _ _ (λ t. refl)
        (λ f. adopt-limits s.udp_session peer pn s)

  -- A packet opens only in a UDP session, which stays; and its probe has been received.
  abbrev EndsOpened : Option OpenedPacket → ClientSession Keys Tx → Type 0
  EndsOpened o s =
      Inv known (view s)
      × (is_some o ≡ true → (view s).has_udp ≡ true)
      × All (IsIn known.0.probes) (packet_probes (s, ok o))

  opened-Inv :
      (r : Result _ OpenedPacket) (s : ClientSession Keys Tx)
      → All (IsIn known.0.probes) (packet_probes (s, open_outcome r))
      → Inv known (view s)
      → (view s).has_udp ≡ true
      → Ends EndsOpened (s, open_outcome r)
  opened-Inv (ok opened) s told h u = (h, λ e. u, told)
  opened-Inv (err e) s told h u = (h, λ e. u, tt)
  opened-Inv panic s told h u = tt

  open_on-Inv :
      (o : Option (Session Keys)) (payload : List ℕ) (s : ClientSession Keys Tx)
      → s.udp_session ≡ o
      → All (IsIn known.0.probes) (packet_probes (open_on env o payload s))
      → Inv known (view s)
      → Ends EndsOpened (open_on env o payload s)
  open_on-Inv none payload s e told h = (h, λ f. cc f, tt)
  open_on-Inv (some session) payload s e told h =
      let (session', result) = open_packet env.crypto session payload in
      let s' = record s { udp_session = some session' } in
      opened-Inv result s' told
        (along (Inv known) (view s) (view s')
          (ap (λ b. record (view s) { has_udp = b }) (sym (ap is_some e))) h)
        refl

  handle_opened-Inv :
      (peer : SocketAddr) (o : Option OpenedPacket) (s : ClientSession Keys Tx)
      → EndsOpened o s
      → Ends (EndsInv known) (handle_opened env peer o s)
  unfolding handle_opened
  handle_opened-Inv peer none s h = h.0
  handle_opened-Inv peer (some opened) s (h, u, told) =
      let t = adopt_udp_peer_if_newer peer opened.pn s in
      let (h', u') =
        along (WithUdp known) (view s) (view t) (adopt_udp_peer_if_newer-view peer opened.pn s)
          (h, u refl) in
      let same = adopt_udp_peer_if_newer-limits peer opened.pn s in
      Ends-lift_eq same_error (decode_udp_message opened.payload t.limits) _ (EndsInv known) t
        (λ m e.
          let decoded = sym e ∙ ap (decode_udp_message opened.payload) same in
          handle_udp_message-Inv m t
            (along (λ r. All (IsIn known.0.probes) (decoded_probes r)) _ (ok m) decoded told) h' u')

  handle_udp_claim-Inv :
      (peer : SocketAddr) (payload : List ℕ) (s : ClientSession Keys Tx)
      → All (IsIn known.0.probes) (event_probes env (udp_claim peer payload) s)
      → Inv known (view s)
      → Ends (EndsInv known) (handle_udp_claim env peer payload s)
  unfolding handle_udp_claim open_udp_packet
  handle_udp_claim-Inv peer payload s told h =
      Ends-follow (open_on env s.udp_session payload s) _ EndsOpened (EndsInv known)
        (open_on-Inv s.udp_session payload s refl told h) (λ o t k. handle_opened-Inv peer o t k)

  send_data-Inv :
      (packet : List ℕ) (a : ActiveTransport) (s : ClientSession Keys Tx)
      → Inv known (view s)
      → Ends (EndsInv known) (send_data env packet a s)
  unfolding send_data
  send_data-Inv packet tcp s h =
      Ends-follow (send_tcp_message env (tunnel_data packet) s) _ (EndsInv known) (EndsInv known)
        (send_tcp_message-keeps env known (Inv known) (tunnel_data packet) s h) (λ a t k. k)
  send_data-Inv packet udp s h =
      Ends-follow (send_udp_message env (tunnel_data packet) retry_message_on_tcp s) _
        (EndsInv known) (EndsInv known)
        (send_udp_message-Inv env known (tunnel_data packet) retry_message_on_tcp s h) (λ a t k. k)

  pub handle_event-Inv :
      (e : SessionEvent) (s : ClientSession Keys Tx)
      → All (IsIn known.0.probes) (event_probes env e s)
      → Inv known (view s)
      → Ends (EndsInv known) (handle_event env e s)
  unfolding handle_event handle_tun_packet
  handle_event-Inv (udp_claim peer payload) s told h = handle_udp_claim-Inv peer payload s told h
  handle_event-Inv (tun_packet packet) s told h =
      if_both (Ends (EndsInv known)) (ltb s.limits.max_data_len (length packet)) _ _ (λ t. h)
        (λ f. send_data-Inv packet s.active_transport s h)

  pub handle_udp_flush-Inv :
      (o : Option IoError) (s : ClientSession Keys Tx)
      → Inv known (view s)
      → Ends (EndsInv known) (handle_udp_flush env o s)
  unfolding handle_udp_flush
  handle_udp_flush-Inv none s h = h
  handle_udp_flush-Inv (some source) s h =
      Ends-follow (recover_from_udp_flush_error env none signal_tcp_fallback source s) _ EndsRetired
        (EndsInv known) (recover_from_udp_flush_error-retired env none signal_tcp_fallback source s)
        (λ a t k. along (Inv known) retired (view t) k (retired-Inv known))
