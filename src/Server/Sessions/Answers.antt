-- ===== src/Server/Sessions/Answers.antt =====
-- The handlers of probes and ready messages in slt-server/src/sessions/upgrade.rs, when calls succeed.
use slt.Prelude.{
  ℕ, ◌≡◌, refl, ap, ◌∙◌, List, [], Option, some, Bool, true, false, ok, if◌then◌else◌,
}
use slt.Prelude.Actions.{along}
use slt.Proto.Message.{Message, encode_message, ty, payload}
use slt.Prelude.Bytes.{to_be, IsU64}
use slt.Proto.Framing.{encode_frame}
use slt.Proto.Payloads.Upgrade.{encode_upgrade_probe, encode_udp_ready, encode_upgrade_probe_ack}
use slt.Proto.Payloads.UpgradeCodecs.{upgrade_codecs}
use slt.Proto.Kinds.{to_byte}
use slt.Qsp.Session.{Session, send}
use slt.Server.Upgrade.{
  UdpUpgradeState, upgrade_probe, udp_ready, contains, match_current, remember_stale_upgrade_id,
  reset_udp_upgrade_attempt_preserving_history,
}
use slt.Server.Upgrade
use slt.Server.Sessions.{
  ClientSession, Environment, SessionError, SessionControl, continue, ActiveTransport,
}
use slt.Server.Sessions.Egress.{send_udp_message_and_flush, retire_only}
use slt.Server.Sessions.Handshake.{
  with_upgrade, note_upgrade_id, answer_probe, handle_upgrade_probe, answer_ready, handle_udp_ready,
}
use slt.Server.Sessions.Success.{
  Succeeds, Succeeds-follow, Succeeds-lift, IsWorking, WithUdp, send_udp_message_and_flush-Succeeds,
}
use slt.Server.Sessions.Requests.{
  decode-encode, attempt, ack_frame, ack_for, upgrade-At, Requested, request_last,
}

module _ {Keys Tx : Type 0} (env : Environment Keys) (works : IsWorking env) where
  pub noted-At :
      (o : Option (Session Keys)) (u v : UdpUpgradeState) (a : ActiveTransport)
      (sent : List Message) (s : ClientSession Keys Tx)
      → WithUdp o u a sent s
      → WithUdp o v a sent (record s { udp_upgrade = v })
  noted-At o u v a sent s h = upgrade-At env works o u v a sent (λ w. v) s refl h

  pub answer_probe-Succeeds :
      (r : Bool) (session : Session Keys) (id nonce : ℕ) (ids packet : List ℕ) (a : ActiveTransport)
      (sent : List Message) (s : ClientSession Keys Tx)
      → (send env.crypto session (ack_frame id nonce)).1 ≡ ok packet
      → WithUdp (some session) (attempt id ids false r false) a sent s
      → Succeeds
          (λ c t.
            (c ≡ continue)
            × Requested env works
                (some (send env.crypto session (ack_frame id nonce)).0)
                id
                ids
                true
                r
                a
                sent
                t)
          (answer_probe env id nonce s)
  unfolding answer_probe encode_message encode_frame encode_upgrade_probe_ack ty payload to_be
      to_byte
  answer_probe-Succeeds r session id nonce ids packet a sent s f h =
      let o = some (send env.crypto session (ack_frame id nonce)).0 in
      let s' = with_upgrade (λ w. record w { probe_seen = true }) s in
      Succeeds-follow (send_udp_message_and_flush env (ack_for id nonce) retire_only s') _
        (λ _ t. WithUdp o (attempt id ids true r false) a sent t)
        (λ c t. (c ≡ continue) × Requested env works o id ids true r a sent t)
        (send_udp_message_and_flush-Succeeds env works session (attempt id ids true r false) a sent
          (ack_for id nonce) retire_only (ack_frame id nonce) packet s' refl f
          (upgrade-At env works (some session) (attempt id ids false r false)
            (attempt id ids true r false) a sent (λ w. record w { probe_seen = true }) s refl h))
        (λ b t k. request_last env works true r o id ids a sent t k)

  pub handle_upgrade_probe-Succeeds :
      (r : Bool) (session : Session Keys) (id nonce : ℕ) (ids packet : List ℕ) (u : UdpUpgradeState)
      (a : ActiveTransport) (sent : List Message) (s : ClientSession Keys Tx)
      → IsU64 id
      → IsU64 nonce
      → Upgrade.note_upgrade_id u id upgrade_probe ≡ (attempt id ids false r false, true)
      → (send env.crypto session (ack_frame id nonce)).1 ≡ ok packet
      → WithUdp (some session) u a sent s
      → Succeeds
          (λ c t.
            (c ≡ continue)
            × Requested env works
                (some (send env.crypto session (ack_frame id nonce)).0)
                id
                ids
                true
                r
                a
                sent
                t)
          (handle_upgrade_probe env
            (encode_upgrade_probe (record { upgrade_id = id; nonce = nonce }) [])
            s)
  unfolding handle_upgrade_probe note_upgrade_id
  handle_upgrade_probe-Succeeds r session id nonce ids packet u a sent s i n e f h =
      let Q = λ (c : SessionControl) (t : ClientSession Keys Tx).
        (c ≡ continue)
        × Requested env works (some (send env.crypto session (ack_frame id nonce)).0) id ids true r
            a sent t in
      Succeeds-lift SessionError.payload _ (record { upgrade_id = id; nonce = nonce }) _ Q s
        (decode-encode upgrade_codecs.0 (record { upgrade_id = id; nonce = nonce }) (i, n))
        (along
          (λ (noted : UdpUpgradeState × Bool). Succeeds Q (
            (if noted.1 then answer_probe env id nonce else (λ t. (t, ok continue)))
              (record s { udp_upgrade = noted.0 })))
          (attempt id ids false r false, true)
          (Upgrade.note_upgrade_id s.udp_upgrade id upgrade_probe)
          (ap (λ w. Upgrade.note_upgrade_id w id upgrade_probe) h.0.upgrade ∙ e)
          (answer_probe-Succeeds r session id nonce ids packet a sent
            (record s { udp_upgrade = attempt id ids false r false }) f
            (noted-At (some session) u (attempt id ids false r false) a sent s h)))

  pub handle_udp_ready-Succeeds :
      (p : Bool) (o : Option (Session Keys)) (id : ℕ) (ids : List ℕ) (u : UdpUpgradeState)
      (a : ActiveTransport) (sent : List Message) (s : ClientSession Keys Tx)
      → IsU64 id
      → Upgrade.note_upgrade_id u id udp_ready ≡ (attempt id ids p false false, true)
      → WithUdp o u a sent s
      → Succeeds
          (λ c t. (c ≡ continue) × Requested env works o id ids p true a sent t)
          (handle_udp_ready env (encode_udp_ready (record { upgrade_id = id }) []) s)
  unfolding handle_udp_ready note_upgrade_id answer_ready
  handle_udp_ready-Succeeds p o id ids u a sent s i e h =
      let Q = λ (c : SessionControl) (t : ClientSession Keys Tx).
        (c ≡ continue) × Requested env works o id ids p true a sent t in
      let s' = record s { udp_upgrade = attempt id ids p false false } in
      Succeeds-lift SessionError.payload _ (record { upgrade_id = id }) _ Q s
        (decode-encode upgrade_codecs.2 (record { upgrade_id = id }) i)
        (along
          (λ (noted : UdpUpgradeState × Bool). Succeeds Q (
            (if noted.1 then answer_ready env else (λ t. (t, ok continue)))
              (record s { udp_upgrade = noted.0 })))
          (attempt id ids p false false, true) (Upgrade.note_upgrade_id s.udp_upgrade id udp_ready)
          (ap (λ w. Upgrade.note_upgrade_id w id udp_ready) h.0.upgrade ∙ e)
          (request_last env works p true o id ids a sent
            (with_upgrade (λ w. record w { ready_seen = true }) s')
            (upgrade-At env works o (attempt id ids p false false) (attempt id ids p true false) a
              sent (λ w. record w { ready_seen = true }) s' refl
              (noted-At o u (attempt id ids p false false) a sent s h))))
