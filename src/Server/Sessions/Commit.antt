-- ===== src/Server/Sessions/Commit.antt =====
-- The upgrade to UDP goes through when the client's three messages arrive and calls succeed: the handlers of
-- slt-server/src/sessions/upgrade.rs in sequence.
use slt.Prelude.{
  ℕ, ◌≡◌, refl, ap, List, [], ◌∷◌, Option, some, Bool, true, false, not, ◌==◌, ok, ==_refl,
}
use slt.Prelude.Actions.{follow, if_both, along, ◌>>◌}
use slt.Proto.Message.{Message, encode_message, ty, payload}
use slt.Prelude.Bytes.{to_be, IsU64}
use slt.Proto.Framing.{encode_frame}
use slt.Proto.Payloads.Upgrade.{
  encode_upgrade_probe, encode_udp_ready, encode_switch_ack, encode_switch_ok,
}
use slt.Proto.Payloads.UpgradeCodecs.{upgrade_codecs}
use slt.Qsp.Session.{Session, send}
use slt.Server.Upgrade.{UdpUpgradeState, contains, reset_udp_upgrade_attempt_preserving_history}
use slt.Server.Upgrade.History.{remember-contains}
use slt.Server.Sessions.{
  ClientSession, Handler, Environment, SessionError, SessionControl, continue, tcp, udp,
  set_active_transport, switch_transport,
}
use slt.Server.Sessions.Egress.{send_tcp_message}
use slt.Server.Sessions.Handshake.{
  handle_upgrade_probe, handle_udp_ready, commit_switch, judge_ack, handle_switch_ack,
}
use slt.Server.Sessions.Success.{
  Succeeds, Succeeds-follow, Succeeds-lift, Succeeds-map, IsWorking, WithUdp,
  send_tcp_message-Succeeds,
}
use slt.Server.Sessions.Requests.{
  decode-encode, attempt, request_for, confirm_for, ack_frame, fresh, note-probe, note-probe-again,
  note-ready, note-ready-again, Committed, Requested,
}
use slt.Server.Sessions.Answers.{handle_upgrade_probe-Succeeds, handle_udp_ready-Succeeds}

module _ {Keys Tx : Type 0} (env : Environment Keys) (works : IsWorking env) where
  set-At :
      (o : Option (Session Keys)) (u : UdpUpgradeState) (sent : List Message)
      (s : ClientSession Keys Tx)
      → WithUdp o u tcp sent s
      → WithUdp o u udp sent (set_active_transport udp s)
  unfolding set_active_transport switch_transport
  set-At o u sent s (h, k) =
      along (λ a. WithUdp o u udp sent (switch_transport a udp s)) tcp s.active_transport
        h.transport
        (
          record {
            upgrade = h.upgrade;
            transport = refl;
            sent_frames = h.sent_frames;
            writable = h.writable;
          },
          k,
        )

  commit_switch-Succeeds :
      (o : Option (Session Keys)) (id : ℕ) (ids : List ℕ) (sent : List Message)
      (s : ClientSession Keys Tx)
      → WithUdp o (attempt id ids true true true) tcp sent s
      → Succeeds (λ c t. (c ≡ continue) × Committed id sent t) (commit_switch env id s)
  unfolding commit_switch encode_message encode_frame encode_switch_ok ty payload to_be
      reset_udp_upgrade_attempt_preserving_history
  commit_switch-Succeeds o id ids sent s h =
      let u = attempt id ids true true true in
      Succeeds-follow (send_tcp_message env (confirm_for id) (set_active_transport udp s)) _
        (λ _ t. WithUdp o u udp (confirm_for id ∷ sent) t)
        (λ c t. (c ≡ continue) × Committed id sent t)
        (send_tcp_message-Succeeds env works o u udp sent (confirm_for id) _
          (set_active_transport udp s) refl (set-At o u sent s h))
        (λ b t k.
          (refl, (k.0.transport, refl, remember-contains t.udp_upgrade id, k.0.sent_frames)))

  handle_switch_ack-Succeeds :
      (o : Option (Session Keys)) (id : ℕ) (ids : List ℕ) (sent : List Message)
      (s : ClientSession Keys Tx)
      → IsU64 id
      → WithUdp o (attempt id ids true true true) tcp sent s
      → Succeeds
          (λ c t. (c ≡ continue) × Committed id sent t)
          (handle_switch_ack env (encode_switch_ack (record { upgrade_id = id }) []) s)
  unfolding handle_switch_ack judge_ack
  handle_switch_ack-Succeeds o id ids sent s i h =
      let Q =
        λ (c : SessionControl) (t : ClientSession Keys Tx). (c ≡ continue) × Committed id sent t in
      Succeeds-lift SessionError.payload _ (record { upgrade_id = id }) _ Q s
        (decode-encode upgrade_codecs.4 (record { upgrade_id = id }) i)
        (along
          (λ (u : UdpUpgradeState).
            Succeeds Q (judge_ack env u.upgrade_id u.switch_to_udp_sent id s))
          (attempt id ids true true true) s.udp_upgrade h.0.upgrade (judge s h))
    where
      judge :
          (s : ClientSession Keys Tx)
          → WithUdp o (attempt id ids true true true) tcp sent s
          → Succeeds
              (λ c t. (c ≡ continue) × Committed id sent t)
              (judge_ack env (some id) true id s)
      judge s h =
          if_both
            (λ (m : Handler Keys Tx SessionControl).
              Succeeds (λ c t. (c ≡ continue) × Committed id sent t) (m s))
            (not (id == id)) _ _ (λ t. cc (t, ap not (==_refl id)))
            (λ f. commit_switch-Succeeds o id ids sent s h)

  commit_last :
      (o : Option (Session Keys)) (id : ℕ) (ids : List ℕ) (sent : List Message)
      (s : ClientSession Keys Tx)
      → IsU64 id
      → WithUdp o (attempt id ids true true true) tcp (request_for id ∷ sent) s
      → Succeeds
          (λ c t. Committed id (request_for id ∷ sent) t)
          (handle_switch_ack env (encode_switch_ack (record { upgrade_id = id }) []) s)
  commit_last o id ids sent s i h =
      Succeeds-map (handle_switch_ack env (encode_switch_ack (record { upgrade_id = id }) []) s)
        (λ c t. (c ≡ continue) × Committed id (request_for id ∷ sent) t)
        (λ c t. Committed id (request_for id ∷ sent) t)
        (handle_switch_ack-Succeeds o id ids (request_for id ∷ sent) s i h) (λ c t k. k.1)

  -- From a session on TCP with a UDP session and no attempt, whose stale IDs do not have the ID, and while calls
  -- succeed: a probe and a ready message of one 64-bit ID, in either order, and then the acknowledgement of that ID
  -- are each handled without an error, and in the end the session prefers UDP, has no attempt, has noted the ID as
  -- stale, and has written the switch request and then the confirmation to TCP, and no other frame.
  pub handshake-commits :
      (session : Session Keys) (id nonce : ℕ) (ids packet : List ℕ) (sent : List Message)
      (s : ClientSession Keys Tx)
      → IsU64 id
      → IsU64 nonce
      → contains ids id ≡ false
      → (send env.crypto session (ack_frame id nonce)).1 ≡ ok packet
      → WithUdp (some session) (fresh ids) tcp sent s
      → let probe = encode_upgrade_probe (record { upgrade_id = id; nonce = nonce }) [] in
        let ready = encode_udp_ready (record { upgrade_id = id }) [] in
        let ack = encode_switch_ack (record { upgrade_id = id }) [] in
        Succeeds
          (λ c t. Committed id (request_for id ∷ sent) t)
          ((handle_upgrade_probe env probe
              >> handle_udp_ready env ready
              >> handle_switch_ack env ack)
            s)
        × Succeeds
            (λ c t. Committed id (request_for id ∷ sent) t)
            ((handle_udp_ready env ready
                >> handle_upgrade_probe env probe
                >> handle_switch_ack env ack)
              s)
  handshake-commits session id nonce ids packet sent s i n new f h =
      let probe = encode_upgrade_probe (record { upgrade_id = id; nonce = nonce }) [] in
      let ready = encode_udp_ready (record { upgrade_id = id }) [] in
      let o = some (send env.crypto session (ack_frame id nonce)).0 in
      let C = λ (c : SessionControl) (t : ClientSession Keys Tx).
        Committed id (request_for id ∷ sent) t in
      let R =
        λ (o : Option (Session Keys)) (p r : Bool) (c : SessionControl) (t : ClientSession Keys Tx).
          (c ≡ continue) × Requested env works o id ids p r tcp sent t in
      (
        Succeeds-follow
            (follow (handle_upgrade_probe env probe s) (λ _. handle_udp_ready env ready)) _
            (R o true true) C
            (Succeeds-follow (handle_upgrade_probe env probe s) _ (R o true false) (R o true true)
              (handle_upgrade_probe-Succeeds env works false session id nonce ids packet (fresh ids)
                tcp sent s i n (note-probe id ids new) f h)
              (λ c t k.
                handle_udp_ready-Succeeds env works true o id ids (attempt id ids true false false)
                  tcp sent t i (note-ready-again id ids) k.1))
            (λ c t k. commit_last o id ids sent t i k.1),
        Succeeds-follow
            (follow (handle_udp_ready env ready s) (λ _. handle_upgrade_probe env probe)) _
            (R o true true) C
            (Succeeds-follow (handle_udp_ready env ready s) _ (R (some session) false true)
              (R o true true)
              (handle_udp_ready-Succeeds env works false (some session) id ids (fresh ids) tcp sent
                s i (note-ready id ids) h)
              (λ c t k.
                handle_upgrade_probe-Succeeds env works true session id nonce ids packet
                  (attempt id ids false true false) tcp sent t i n (note-probe-again id ids new) f
                  k.1))
            (λ c t k. commit_last o id ids sent t i k.1),
      )
