-- ===== src/Server/Sessions/Requests.antt =====
-- The request to switch goes out with the second of the two messages: `maybe_send_switch_to_udp` of
-- slt-server/src/sessions/upgrade.rs on an attempt.
use slt.Prelude.{
  ℕ, ◌≡◌, refl, ap, ◌∙◌, List, [], ◌∷◌, Option, none, some, Bool, true, false, not, ◌&&◌, ◌||◌,
  Result, ok, if◌then◌else◌, ==_refl,
}
use slt.Prelude.Actions.{follow, along}
use slt.Proto.Message.{
  Message, encode_message, upgrade_probe_ack, switch_to_udp, switch_ok, ty, payload,
}
use slt.Prelude.Bytes.{to_be}
use slt.Proto.Framing.{encode_frame}
use slt.Proto.Payloads.Upgrade.{encode_upgrade_probe_ack, encode_switch_to_udp, encode_switch_ok}
use slt.Proto.Payloads.Errors.{PayloadError}
use slt.Proto.Payloads.Codec.{IsCodec}
use slt.Qsp.Session.{Session}
use slt.Server.Upgrade.{
  UdpUpgradeState, upgrade_probe, udp_ready, contains, match_current, remember_stale_upgrade_id,
  reset_udp_upgrade_attempt_preserving_history,
}
use slt.Server.Upgrade
use slt.Server.Sessions.{ClientSession, Environment, continue, ActiveTransport, udp}
use slt.Server.Sessions.Egress.{send_tcp_message}
use slt.Server.Sessions.Handshake.{with_upgrade, request_switch, maybe_send_switch_to_udp}
use slt.Server.Sessions.Success.{
  Succeeds, Succeeds-follow, frames, IsWorking, WithUdp, send_tcp_message-Succeeds,
}

pub decode-encode :
    {P : Type 0} {IsValid : P → Type 0} {decode : List ℕ → Result PayloadError P}
    {encode : P → List ℕ → List ℕ}
    → IsCodec IsValid decode encode
    → (p : P) → IsValid p
    → decode (encode p []) ≡ ok p
decode-encode {decode} c p v = let (bytes, e, valid, d) = c.round_trip p [] v in ap decode e ∙ d

-- An attempt with an ID, by its three flags.
abbrev pub attempt : ℕ → List ℕ → Bool → Bool → Bool → UdpUpgradeState
attempt id ids p r q = record {
  upgrade_id = some id;
  probe_seen = p;
  ready_seen = r;
  switch_to_udp_sent = q;
  stale_upgrade_ids = ids;
}

abbrev pub request_for : ℕ → Message
request_for id = switch_to_udp (encode_switch_to_udp (record { upgrade_id = id }) [])

abbrev pub confirm_for : ℕ → Message
confirm_for id = switch_ok (encode_switch_ok (record { upgrade_id = id }) [])

-- The frame of the acknowledgement of a probe.
abbrev pub ack_frame : ℕ → ℕ → List ℕ
ack_frame id nonce =
    0x0c ∷ 0 ∷ 0 ∷ 0 ∷ 16 ∷ encode_upgrade_probe_ack (record { upgrade_id = id; nonce = nonce }) []

abbrev pub ack_for : ℕ → ℕ → Message
ack_for id nonce =
    upgrade_probe_ack (encode_upgrade_probe_ack (record { upgrade_id = id; nonce = nonce }) [])

-- No attempt, and the stale IDs.
abbrev pub fresh : List ℕ → UdpUpgradeState
fresh ids = record {
  upgrade_id = none;
  probe_seen = false;
  ready_seen = false;
  switch_to_udp_sent = false;
  stale_upgrade_ids = ids;
}

pub note-probe :
    (id : ℕ) (ids : List ℕ)
    → contains ids id ≡ false
    → Upgrade.note_upgrade_id (fresh ids) id upgrade_probe
      ≡ (attempt id ids false false false, true)
unfolding Upgrade.note_upgrade_id match_current
note-probe id ids new = rw new refl

pub note-probe-again :
    (id : ℕ) (ids : List ℕ)
    → contains ids id ≡ false
    → Upgrade.note_upgrade_id (attempt id ids false true false) id upgrade_probe
      ≡ (attempt id ids false true false, true)
unfolding Upgrade.note_upgrade_id match_current
note-probe-again id ids new = rw (new, ==_refl id) refl

pub note-ready :
    (id : ℕ) (ids : List ℕ)
    → Upgrade.note_upgrade_id (fresh ids) id udp_ready ≡ (attempt id ids false false false, true)
unfolding Upgrade.note_upgrade_id match_current
note-ready id ids = refl

pub note-ready-again :
    (id : ℕ) (ids : List ℕ)
    → Upgrade.note_upgrade_id (attempt id ids true false false) id udp_ready
      ≡ (attempt id ids true false false, true)
unfolding Upgrade.note_upgrade_id match_current
note-ready-again id ids = rw (==_refl id) refl

-- After the acknowledgement UDP is preferred, the confirmation is sent, and the attempt is history.
abbrev pub Committed : {Keys Tx : Type 0} → ℕ → List Message → ClientSession Keys Tx → Type 0
Committed id sent t =
    (t.active_transport ≡ udp)
    × (t.udp_upgrade.upgrade_id ≡ none)
    × (contains t.udp_upgrade.stale_upgrade_ids id ≡ true)
    × (frames t.calls ≡ confirm_for id ∷ sent)

module _ {Keys Tx : Type 0} (env : Environment Keys) (works : IsWorking env) where
  pub upgrade-At :
      (o : Option (Session Keys)) (u v : UdpUpgradeState) (a : ActiveTransport)
      (sent : List Message) (f : UdpUpgradeState → UdpUpgradeState) (s : ClientSession Keys Tx)
      → f u ≡ v
      → WithUdp o u a sent s
      → WithUdp o v a sent (with_upgrade f s)
  upgrade-At o u v a sent f s e (h, k) = (
    record {
      upgrade = ap f h.upgrade ∙ e;
      transport = h.transport;
      sent_frames = h.sent_frames;
      writable = h.writable;
    },
    k,
  )

  pub request_switch-Succeeds :
      (p r : Bool) (o : Option (Session Keys)) (id : ℕ) (ids : List ℕ) (a : ActiveTransport)
      (sent : List Message) (s : ClientSession Keys Tx)
      → WithUdp o (attempt id ids p r false) a sent s
      → Succeeds
          (λ _ t. WithUdp o (attempt id ids p r true) a (request_for id ∷ sent) t)
          (request_switch env (some id) s)
  unfolding encode_message encode_frame encode_switch_to_udp ty payload to_be
  request_switch-Succeeds p r o id ids a sent s h =
      Succeeds-follow (send_tcp_message env (request_for id) s) _
        (λ _ t. WithUdp o (attempt id ids p r false) a (request_for id ∷ sent) t)
        (λ _ t. WithUdp o (attempt id ids p r true) a (request_for id ∷ sent) t)
        (send_tcp_message-Succeeds env works o (attempt id ids p r false) a sent (request_for id) _
          s refl h)
        (λ b t k.
          upgrade-At o (attempt id ids p r false) (attempt id ids p r true) a _
            (λ w. record w { switch_to_udp_sent = true }) t refl k)

  -- The request goes out with the second of the two messages.
  abbrev pub Requested :
      Option (Session Keys)
      → ℕ
      → List ℕ
      → Bool
      → Bool
      → ActiveTransport
      → List Message
      → ClientSession Keys Tx
      → Type 0
  Requested o id ids p r a sent t =
      WithUdp o (attempt id ids p r (p && r)) a (if p && r then request_for id ∷ sent else sent) t

  pub maybe_send_switch_to_udp-Succeeds :
      (p r : Bool) (o : Option (Session Keys)) (id : ℕ) (ids : List ℕ) (a : ActiveTransport)
      (sent : List Message) (s : ClientSession Keys Tx)
      → WithUdp o (attempt id ids p r false) a sent s
      → Succeeds (λ _ t. Requested o id ids p r a sent t) (maybe_send_switch_to_udp env s)
  unfolding maybe_send_switch_to_udp
  maybe_send_switch_to_udp-Succeeds p r o id ids a sent s h =
      along
        (λ (u : UdpUpgradeState).
          Succeeds (λ _ t. Requested o id ids p r a sent t)
            (if u.switch_to_udp_sent || not u.probe_seen || not u.ready_seen
              then (s, ok tt)
              else request_switch env u.upgrade_id s))
        (attempt id ids p r false) s.udp_upgrade h.0.upgrade (cases p r h)
    where
      cases :
          (p r : Bool)
          → WithUdp o (attempt id ids p r false) a sent s
          → Succeeds
              (λ _ t. Requested o id ids p r a sent t)
              (if false || not p || not r then (s, ok tt) else request_switch env (some id) s)
      cases true true h = request_switch-Succeeds true true o id ids a sent s h
      cases true false h = h
      cases false true h = h
      cases false false h = h

  -- The last two steps of the handlers of probes and ready messages.
  pub request_last :
      (p r : Bool) (o : Option (Session Keys)) (id : ℕ) (ids : List ℕ) (a : ActiveTransport)
      (sent : List Message) (s : ClientSession Keys Tx)
      → WithUdp o (attempt id ids p r false) a sent s
      → Succeeds
          (λ c t. (c ≡ continue) × Requested o id ids p r a sent t)
          (follow (maybe_send_switch_to_udp env s) (λ _ t. (t, ok continue)))
  request_last p r o id ids a sent s h =
      Succeeds-follow (maybe_send_switch_to_udp env s) _ (λ _ t. Requested o id ids p r a sent t)
        (λ c t. (c ≡ continue) × Requested o id ids p r a sent t)
        (maybe_send_switch_to_udp-Succeeds p r o id ids a sent s h) (λ b t k. (refl, k))
