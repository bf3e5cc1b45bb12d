-- ===== src/Server/Sessions/Recovery.antt =====
-- A tunnelled packet whose UDP transport fails: `send_udp_message` of slt-server/src/sessions/egress.rs when TCP works.
use slt.Prelude.{
  ℕ, ◌≤◌, ◌≡◌, refl, ap, ◌∙◌, List, [], ◌∷◌, ◌++◌, Option, none, some, Bool, true, false, Result,
  ok, err, panic, ltb, length, le→ltb_false,
}
use slt.Prelude.Actions.{follow, if_both, along}
use slt.Proto.Framing.{FrameError, encode_frame, u32_max}
use slt.Proto.Message.{Message, encode_message, fallback_to_tcp, tunnel_data, ty, payload}
use slt.Proto.Payloads.Control.{encode_fallback_to_tcp}
use slt.Prelude.Bytes.{to_be}
use slt.Proto.Kinds.{to_byte}
use slt.Qsp.Session.{Session, QspSessionError, send}
use slt.Server.Registry.{remove_cids_for_session}
use slt.Server.Upgrade.{reset_udp_upgrade_state}
use slt.Server.Sessions.{
  ClientSession, Environment, SessionError, SessionControl, UdpQspError, qsp, qsp_io, Call, udp_qsp,
  key_update, tcp_write, udp_send, random_u64, ActiveTransport, tcp, udp, note, is_some,
  set_active_transport, switch_transport,
}
use slt.Server.Sessions.Egress.{
  retire_udp_transport, send_tcp_message_inner, send_tcp_message, send_packet, queue_encoded,
  queue_on, queue_udp_message, send_tcp_fallback_request, recover_on_tcp,
  apply_udp_failure_recovery, recover_from_udp_send_error, on_error, send_udp_message,
  retry_message_on_tcp,
}
use slt.Server.Sessions.Forward.{handle_tun_packet, send_data}
use slt.Server.Sessions.Success.{Succeeds, Succeeds-follow, frames, TcpWorks, keys-Succeeds}

-- A failure of the transport, as opposed to one of encoding.
abbrev pub is_transport_error : UdpQspError → Bool
is_transport_error (qsp e) = true
is_transport_error (qsp_io e) = true
is_transport_error (UdpQspError.io e) = true
is_transport_error (UdpQspError.frame e) = false

-- Back on TCP, with the session's CIDs unregistered, and then the request to fall back and the message written.
abbrev pub FellBack :
    {Keys Tx : Type 0} → Message → ClientSession Keys Tx → ClientSession Keys Tx → Type 0
FellBack m s t =
    (t.active_transport ≡ tcp)
    × (t.udp_session ≡ none)
    × (t.udp_upgrade ≡ reset_udp_upgrade_state)
    × (t.registry ≡ remove_cids_for_session s.registry s.session_id)
    × ((id : ℕ) × (t.pending_tcp_fallback ≡ some id)
        × (frames t.calls
            ≡ m
              ∷ fallback_to_tcp (encode_fallback_to_tcp (record { fallback_id = id }) [])
              ∷ frames s.calls))

-- The session after a frame is written.
abbrev wrote : {Keys Tx : Type 0} → Message → ClientSession Keys Tx → ClientSession Keys Tx
wrote m s = record s { calls = tcp_write m ∷ key_update ∷ s.calls; tcp_write_interrupted = false }

encodes :
    (packet : List ℕ)
    → length packet ≤ u32_max
    → encode_message (tunnel_data packet) [] ≡ ok (0x0a ∷ to_be 4 (length packet) ++ packet)
unfolding encode_message encode_frame ty payload to_byte
encodes packet h = rw (le→ltb_false _ _ h) refl

module _ {Keys Tx : Type 0} (env : Environment Keys) where
  -- Queueing a message changes the UDP session and adds a call to UDP at most.
  abbrev Queued : ClientSession Keys Tx → ClientSession Keys Tx → Type 0
  Queued s t =
      (o : Option (Session Keys)) × (calls : List Call) × (t
        ≡ record s { udp_session = o; calls = calls })
      × (frames calls ≡ frames s.calls)

  send_packet-Queued :
      (r : Result QspSessionError (List ℕ)) (session : Session Keys) (s : ClientSession Keys Tx)
      → Queued s (send_packet env r (record s { udp_session = some session })).0
  send_packet-Queued (ok packet) session s = (some session, udp_send packet ∷ s.calls, refl, refl)
  send_packet-Queued (err e) session s = (some session, s.calls, refl, refl)
  send_packet-Queued panic session s = (some session, s.calls, refl, refl)

  queue_on-Queued :
      (o : Option (Session Keys)) (r : Result FrameError (List ℕ)) (s : ClientSession Keys Tx)
      → Queued s (queue_on env o r s).0
  unfolding queue_encoded
  queue_on-Queued none r s = (s.udp_session, s.calls, refl, refl)
  queue_on-Queued (some session) (ok bytes) s =
      let (session', result) = send env.crypto session bytes in send_packet-Queued result session' s
  queue_on-Queued (some session) (err e) s = (s.udp_session, s.calls, refl, refl)
  queue_on-Queued (some session) panic s = (s.udp_session, s.calls, refl, refl)

  queue_udp_message-Queued :
      (m : Message) (s : ClientSession Keys Tx) → Queued s (queue_udp_message env m s).0
  unfolding queue_udp_message
  queue_udp_message-Queued m s = queue_on-Queued s.udp_session (encode_message m []) s

  send_tcp_message-wrote :
      (m : Message) (bytes : List ℕ) (s : ClientSession Keys Tx)
      → TcpWorks env
      → encode_message m [] ≡ ok bytes
      → s.tcp_write_interrupted ≡ false
      → send_tcp_message env m s ≡ (wrote m s, ok tt)
  unfolding send_tcp_message send_tcp_message_inner
  send_tcp_message-wrote m bytes s works e w =
      if_both
        (λ (r : ClientSession Keys Tx × Result SessionError (Unit {0})). r ≡ (wrote m s, ok tt))
        s.tcp_write_interrupted _ _ (λ t. cc (t, w))
        (λ f.
          let s' = note key_update (record s { tcp_write_interrupted = true }) in
          ap
            (λ (r : ClientSession Keys Tx × Result SessionError (Unit {0})).
              (record r.0 { tcp_write_interrupted = false }, r.1))
            (keys-Succeeds env works (env.key_update_error s'.calls) m bytes s'
              (works.key_update s'.calls) e))

  -- The request to fall back, and the session after it.
  abbrev fallback_for : ClientSession Keys Tx → Message
  fallback_for s =
      fallback_to_tcp
        (encode_fallback_to_tcp (record { fallback_id = env.random (random_u64 ∷ s.calls) }) [])

  abbrev asked : ClientSession Keys Tx → ClientSession Keys Tx
  asked s = record (wrote (fallback_for s) (note random_u64 s)) {
    pending_tcp_fallback = some (env.random (random_u64 ∷ s.calls));
  }

  send_tcp_fallback_request-asked :
      (s : ClientSession Keys Tx)
      → TcpWorks env
      → s.tcp_write_interrupted ≡ false
      → s.pending_tcp_fallback ≡ none
      → send_tcp_fallback_request env s ≡ (asked s, ok tt)
  unfolding send_tcp_fallback_request encode_message encode_frame encode_fallback_to_tcp ty payload
      to_be
  send_tcp_fallback_request-asked s works w p =
      if_both (λ (r : ClientSession Keys Tx × Result SessionError (Unit {0})). r ≡ (asked s, ok tt))
        (is_some s.pending_tcp_fallback) _ _ (λ t. cc (t, ap is_some p))
        (λ f.
          ap
            (λ r. follow r (λ _ t. (
              record t { pending_tcp_fallback = some (env.random (random_u64 ∷ s.calls)) },
              ok tt,
            )))
            (send_tcp_message-wrote (fallback_for s) _ (note random_u64 s) works refl w))

  -- On TCP, without a UDP session.
  abbrev on_tcp : ClientSession Keys Tx → ClientSession Keys Tx
  on_tcp s = record (retire_udp_transport s) { active_transport = tcp }

  set_active_transport-on_tcp :
      (a : ActiveTransport) (s : ClientSession Keys Tx)
      → s.active_transport ≡ a
      → switch_transport a tcp (retire_udp_transport s) ≡ on_tcp s
  unfolding switch_transport retire_udp_transport
  set_active_transport-on_tcp tcp s e =
      ap (λ a. record (retire_udp_transport s) { active_transport = a }) e
  set_active_transport-on_tcp udp s e = refl

  recover-eq :
      (m : Message) (bytes : List ℕ) (e : SessionError) (s : ClientSession Keys Tx)
      → TcpWorks env
      → encode_message m [] ≡ ok bytes
      → s.tcp_alive ≡ true
      → s.tcp_write_interrupted ≡ false
      → s.pending_tcp_fallback ≡ none
      → apply_udp_failure_recovery env (some m) retry_message_on_tcp e (retire_udp_transport s)
        ≡ (wrote m (asked (on_tcp s)), ok tt)
  unfolding apply_udp_failure_recovery recover_on_tcp retire_udp_transport set_active_transport
  recover-eq m bytes e s works enc alive w p =
      let P = λ (r : ClientSession Keys Tx × Result SessionError (Unit {0})).
        r ≡ (wrote m (asked (on_tcp s)), ok tt) in
      if_both P s.tcp_alive _ _
        (λ t.
          ap (λ u. follow (send_tcp_fallback_request env u) (λ _. send_tcp_message env m))
            (set_active_transport-on_tcp s.active_transport s refl)
          ∙ ap (λ r. follow r (λ _. send_tcp_message env m))
              (send_tcp_fallback_request-asked (on_tcp s) works w p)
          ∙ send_tcp_message-wrote m bytes (asked (on_tcp s)) works enc refl)
        (λ f. cc (f, alive))

  on_error-err :
      {E : Type 0} (r : ClientSession Keys Tx × Result E (Unit {0}))
      (k : E → ClientSession Keys Tx → ClientSession Keys Tx × Result SessionError (Unit {0}))
      (e : E)
      → r.1 ≡ err e
      → on_error r k ≡ k e r.0
  on_error-err (s, ok a) k e h = cc h
  on_error-err (s, err x) k e h = ap (λ y. k y s) (cc h)
  on_error-err (s, panic) k e h = cc h

  recover_from_udp_send_error-apply :
      (m : Message) (e : UdpQspError) (s : ClientSession Keys Tx)
      → is_transport_error e ≡ true
      → recover_from_udp_send_error env m retry_message_on_tcp e s
        ≡ apply_udp_failure_recovery env
            (some m)
            retry_message_on_tcp
            (udp_qsp e)
            (retire_udp_transport s)
  unfolding recover_from_udp_send_error
  recover_from_udp_send_error-apply m (qsp e) s h = refl
  recover_from_udp_send_error-apply m (qsp_io e) s h = refl
  recover_from_udp_send_error-apply m (UdpQspError.io e) s h = refl
  recover_from_udp_send_error-apply m (UdpQspError.frame e) s h = cc h

  recovered :
      (m : Message) (bytes : List ℕ) (e : UdpQspError) (s t : ClientSession Keys Tx)
      → Queued s t
      → TcpWorks env
      → encode_message m [] ≡ ok bytes
      → s.tcp_alive ≡ true
      → s.tcp_write_interrupted ≡ false
      → s.pending_tcp_fallback ≡ none
      → is_transport_error e ≡ true
      → Succeeds
          (λ _ u. FellBack m s u)
          (recover_from_udp_send_error env m retry_message_on_tcp e t)
  unfolding retire_udp_transport
  recovered m bytes e s t (o, calls, q, f) works enc alive w p h =
      let t' = record s { udp_session = o; calls = calls } in
      let Q = λ (_ : Unit {0}) (u : ClientSession Keys Tx). FellBack m s u in
      along (λ v. Succeeds Q (recover_from_udp_send_error env m retry_message_on_tcp e v)) t' t q
        (along (Succeeds Q) (wrote m (asked (on_tcp t')), ok tt)
          (recover_from_udp_send_error env m retry_message_on_tcp e t')
          (recover_from_udp_send_error-apply m e t' h
            ∙ recover-eq m bytes (udp_qsp e) t' works enc alive w p)
          (refl, refl, refl, refl, (_, refl, ap (λ l. m ∷ fallback_for (on_tcp t') ∷ l) f)))

  -- While TCP works, and with no earlier request to fall back pending: a tunnelled packet within the session's data
  -- limit, on a session that prefers UDP and whose UDP session or socket fails to take it, is not lost. The session is
  -- back on TCP, without UDP session, upgrade or registered CIDs; it has requested a fallback, and written that
  -- request and then the packet to TCP.
  pub handle_tun_packet-falls_back :
      (packet : List ℕ) (e : UdpQspError) (s : ClientSession Keys Tx)
      → TcpWorks env
      → length packet ≤ s.limits.max_data_len
      → length packet ≤ u32_max
      → s.active_transport ≡ udp
      → s.tcp_alive ≡ true
      → s.tcp_write_interrupted ≡ false
      → s.pending_tcp_fallback ≡ none
      → (queue_udp_message env (tunnel_data packet) s).1 ≡ err e
      → is_transport_error e ≡ true
      → Succeeds (λ c t. FellBack (tunnel_data packet) s t) (handle_tun_packet env packet s)
  unfolding handle_tun_packet send_data send_udp_message
  handle_tun_packet-falls_back packet e s works small short on_udp alive w p failed h =
      let m = tunnel_data packet in
      let Q = λ (c : SessionControl) (t : ClientSession Keys Tx). FellBack m s t in
      let q = queue_udp_message env m s in
      if_both (Succeeds Q) (ltb s.limits.max_data_len (length packet)) _ _
        (λ t. cc (t, le→ltb_false _ _ small))
        (λ f.
          along (λ a. Succeeds Q (send_data env packet a s)) udp s.active_transport on_udp
            (Succeeds-follow (send_udp_message env m retry_message_on_tcp s) _
              (λ _ t. FellBack m s t) Q
              (along (Succeeds (λ _ t. FellBack m s t))
                (recover_from_udp_send_error env m retry_message_on_tcp e q.0)
                (on_error q (recover_from_udp_send_error env m retry_message_on_tcp))
                (on_error-err q (recover_from_udp_send_error env m retry_message_on_tcp) e failed)
                (recovered m _ e s q.0 (queue_udp_message-Queued m s) works (encodes packet short)
                  alive w p h))
              (λ a t k. k)))
