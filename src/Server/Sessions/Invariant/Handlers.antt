-- ===== src/Server/Sessions/Invariant/Handlers.antt =====
-- The handlers of the upgrade messages keep the session consistent.
use slt.Prelude.{
  if◌then◌else◌, ℕ, ◌≡◌, refl, List, [], Option, none, some, Bool, true, false, not, ◌||◌, ◌==◌, ok,
  err, panic, Result,
}
use slt.Prelude.Actions.{follow, Ends, Ends-follow, Ends-lift, Ends-lift_eq, if_both}
use slt.Proto.Message.{upgrade_probe_ack, switch_to_udp, switch_ok}
use slt.Prelude.Lists.{All}
use slt.Proto.Payloads.Errors.{PayloadError}
use slt.Proto.Payloads.Upgrade.{
  UpgradeProbePayload, UdpReadyPayload, decode_upgrade_probe, encode_upgrade_probe_ack,
  decode_udp_ready, decode_switch_ack, encode_switch_to_udp, encode_switch_ok,
}
use slt.Server.Upgrade.{
  UdpUpgradeState, Source, upgrade_probe, udp_ready, remember_stale_upgrade_id,
  reset_udp_upgrade_attempt_preserving_history,
}
use slt.Server.Upgrade
use slt.Server.Upgrade.Heard.{IsIn, probe_id, ready_id}
use slt.Server.Upgrade.History.{remember-IsHistory}
use slt.Server.Upgrade.Attempt.{
  IsAttempt, HasIdIn, reset_udp_upgrade_attempt-IsAttempt, note_upgrade_id-IsNoted,
  probe_seen-IsAttempt, ready_seen-IsAttempt, switch_to_udp_sent-IsAttempt,
}
use slt.Server.Sessions.{
  ClientSession, Handler, Environment, SessionError, udp, set_active_transport, continue,
  SessionControl,
}
use slt.Server.Sessions.Egress.{send_tcp_message, send_udp_message_and_flush, retire_only}
use slt.Server.Sessions.View.{View, view}
use slt.Server.Sessions.Invariant.{
  Known, Inv, EndsInv, upgrade-Inv, send_tcp_message-keeps, send_udp_message_and_flush-Inv,
  set_active_transport-udp,
}
use slt.Server.Sessions.Handshake.{
  with_upgrade, note_upgrade_id, request_switch, maybe_send_switch_to_udp, answer_probe,
  handle_upgrade_probe, answer_ready, handle_udp_ready, commit_switch, judge_ack, handle_switch_ack,
}

-- A switch may be requested.
abbrev MayRequest : Known → View → Type 0
MayRequest known v = Inv known v × (v.upgrade.probe_seen ≡ true) × (v.upgrade.ready_seen ≡ true)

may_request : (a b c : Bool) → (a || not b || not c) ≡ false → (b ≡ true) × (c ≡ true)
may_request false true true e = (refl, refl)
may_request true b c e = cc e
may_request false false c e = cc e
may_request false true false e = cc e

told_probe :
    (ids : List ℕ) (r : Result PayloadError UpgradeProbePayload) (p : UpgradeProbePayload)
    → r ≡ ok p
    → All (IsIn ids) (probe_id r)
    → IsIn ids p.upgrade_id
told_probe ids (ok q) p e h = let same : q ≡ p = cc e in rw (← same) h.0
told_probe ids (err x) p e h = cc e
told_probe ids panic p e h = cc e

told_ready :
    (ids : List ℕ) (r : Result PayloadError UdpReadyPayload) (p : UdpReadyPayload)
    → r ≡ ok p
    → All (IsIn ids) (ready_id r)
    → IsIn ids p.upgrade_id
told_ready ids (ok q) p e h = let same : q ≡ p = cc e in rw (← same) h.0
told_ready ids (err x) p e h = cc e
told_ready ids panic p e h = cc e

module _ {Keys Tx : Type 0} (env : Environment Keys) (known : Known) where
  request_switch-Inv :
      (o : Option ℕ) (s : ClientSession Keys Tx)
      → MayRequest known (view s)
      → Ends (EndsInv known) (request_switch env o s)
  request_switch-Inv none s h = h.0
  request_switch-Inv (some id) s h =
      let m = switch_to_udp (encode_switch_to_udp (record { upgrade_id = id }) []) in
      Ends-follow (send_tcp_message env m s) _ (λ a t. MayRequest known (view t)) (EndsInv known)
        (send_tcp_message-keeps env known (MayRequest known) m s h)
        (λ a t k.
          upgrade-Inv known (view t) _ k.0
            (switch_to_udp_sent-IsAttempt _ _ _ k.1 k.2 k.0.0.attempt))

  pub maybe_send_switch_to_udp-Inv :
      (s : ClientSession Keys Tx)
      → Inv known (view s)
      → Ends (EndsInv known) (maybe_send_switch_to_udp env s)
  unfolding maybe_send_switch_to_udp
  maybe_send_switch_to_udp-Inv s h =
      let u = s.udp_upgrade in
      if_both (Ends (EndsInv known)) (u.switch_to_udp_sent || not u.probe_seen || not u.ready_seen)
        _ _ (λ t. h)
        (λ f.
          request_switch-Inv u.upgrade_id s (
            let (p, r) = may_request u.switch_to_udp_sent u.probe_seen u.ready_seen f in (h, p, r)))

  -- The last two steps of the handlers.
  request_last :
      (s : ClientSession Keys Tx)
      → Inv known (view s)
      → Ends (EndsInv known) (follow (maybe_send_switch_to_udp env s) (λ _ t. (t, ok continue)))
  request_last s h =
      Ends-follow (maybe_send_switch_to_udp env s) _ (EndsInv known) (EndsInv known)
        (maybe_send_switch_to_udp-Inv s h) (λ a t k. k)

  answer_probe-Inv :
      (id nonce : ℕ) (s : ClientSession Keys Tx)
      → Inv known (view s)
      → (view s).has_udp ≡ true
      → HasIdIn known.0.probes s.udp_upgrade
      → Ends (EndsInv known) (answer_probe env id nonce s)
  unfolding answer_probe
  answer_probe-Inv id nonce s h u i =
      let m =
        upgrade_probe_ack
          (encode_upgrade_probe_ack (record { upgrade_id = id; nonce = nonce }) []) in
      let s' = with_upgrade (λ w. record w { probe_seen = true }) s in
      Ends-follow (send_udp_message_and_flush env m retire_only s') _ (EndsInv known)
        (EndsInv known) (send_udp_message_and_flush-Inv env known m retire_only s' (probed s h u i))
        (λ a t k. request_last t k)
    where
      probed :
          (s : ClientSession Keys Tx)
          → Inv known (view s)
          → (view s).has_udp ≡ true
          → HasIdIn known.0.probes s.udp_upgrade
          → Inv known (view (with_upgrade (λ w. record w { probe_seen = true }) s))
      probed s h u i =
          let a : IsAttempt known.0 s.udp_upgrade true = rw u at h.0.attempt in
          upgrade-Inv known (view s) _ h (rw u (probe_seen-IsAttempt known.0 s.udp_upgrade i a))

  -- The ID that a message carries, noted.
  noted :
      (id : ℕ) (source : Source) (s : ClientSession Keys Tx)
      → Inv known (view s)
      → let (u, accepted) = Upgrade.note_upgrade_id s.udp_upgrade id source in
        Inv known (view (record s { udp_upgrade = u })) × (accepted ≡ true → u.upgrade_id ≡ some id)
  noted id source s h =
      let (a, i) =
        note_upgrade_id-IsNoted known.0 s.udp_upgrade (view s).has_udp id source h.0.attempt in
      (upgrade-Inv known (view s) _ h a, i)

  pub handle_upgrade_probe-Inv :
      (payload : List ℕ) (s : ClientSession Keys Tx)
      → All (IsIn known.0.probes) (probe_id (decode_upgrade_probe payload))
      → Inv known (view s)
      → (view s).has_udp ≡ true
      → Ends (EndsInv known) (handle_upgrade_probe env payload s)
  unfolding handle_upgrade_probe note_upgrade_id
  handle_upgrade_probe-Inv payload s told h u =
      Ends-lift_eq SessionError.payload (decode_upgrade_probe payload) _ (EndsInv known) s
        (λ probe e.
          let heard : IsIn known.0.probes probe.upgrade_id = told_probe _ _ probe e told in
          let (w, accepted) =
            Upgrade.note_upgrade_id s.udp_upgrade probe.upgrade_id upgrade_probe in
          let (h', i) = noted probe.upgrade_id upgrade_probe s h in
          answered probe.upgrade_id probe.nonce accepted (record s { udp_upgrade = w }) h' u
            (λ yes. (probe.upgrade_id, i yes, heard)))
    where
      answered :
          (id nonce : ℕ) (accepted : Bool) (s : ClientSession Keys Tx)
          → Inv known (view s)
          → (view s).has_udp ≡ true
          → (accepted ≡ true → HasIdIn known.0.probes s.udp_upgrade)
          → Ends
              (EndsInv known)
              ((if accepted then answer_probe env id nonce else (λ t. (t, ok continue))) s)
      answered id nonce true s h u i = answer_probe-Inv id nonce s h u (i refl)
      answered id nonce false s h u i = h

  answer_ready-Inv :
      (s : ClientSession Keys Tx)
      → Inv known (view s)
      → HasIdIn known.0.readies s.udp_upgrade
      → Ends (EndsInv known) (answer_ready env s)
  unfolding answer_ready
  answer_ready-Inv s h i = request_last (with_upgrade (λ w. record w { ready_seen = true }) s) (
      upgrade-Inv known (view s) _ h
        (ready_seen-IsAttempt known.0 s.udp_upgrade (view s).has_udp i h.0.attempt))

  pub handle_udp_ready-Inv :
      (payload : List ℕ) (s : ClientSession Keys Tx)
      → All (IsIn known.0.readies) (ready_id (decode_udp_ready payload))
      → Inv known (view s)
      → Ends (EndsInv known) (handle_udp_ready env payload s)
  unfolding handle_udp_ready note_upgrade_id
  handle_udp_ready-Inv payload s told h =
      Ends-lift_eq SessionError.payload (decode_udp_ready payload) _ (EndsInv known) s (λ ready e.
        let heard : IsIn known.0.readies ready.upgrade_id = told_ready _ _ ready e told in
        let (w, accepted) = Upgrade.note_upgrade_id s.udp_upgrade ready.upgrade_id udp_ready in
        let (h', i) = noted ready.upgrade_id udp_ready s h in
        answered accepted (record s { udp_upgrade = w }) h'
          (λ yes. (ready.upgrade_id, i yes, heard)))
    where
      answered :
          (accepted : Bool) (s : ClientSession Keys Tx)
          → Inv known (view s)
          → (accepted ≡ true → HasIdIn known.0.readies s.udp_upgrade)
          → Ends
              (EndsInv known)
              ((if accepted then answer_ready env else (λ t. (t, ok continue))) s)
      answered true s h i = answer_ready-Inv s h (i refl)
      answered false s h i = h

  commit_switch-Inv :
      (id : ℕ) (s : ClientSession Keys Tx)
      → Inv known (view s)
      → s.udp_upgrade.switch_to_udp_sent ≡ true
      → Ends (EndsInv known) (commit_switch env id s)
  unfolding commit_switch
  commit_switch-Inv id s h sent =
      let m = switch_ok (encode_switch_ok (record { upgrade_id = id }) []) in
      let s' = set_active_transport udp s in
      let has_udp = (h.0.attempt.probed (h.0.attempt.requested sent).0).1 in
      Ends-follow (send_tcp_message env m s') _ (EndsInv known) (EndsInv known)
        (send_tcp_message-keeps env known (Inv known) m s'
          (set_active_transport-udp known s has_udp h))
        (λ a t k. upgrade-Inv known (view t) _ k (
          reset_udp_upgrade_attempt-IsAttempt (remember_stale_upgrade_id t.udp_upgrade id)
            (view t).has_udp (remember-IsHistory t.udp_upgrade id k.0.attempt.history)))

  judge_ack-Inv :
      (o : Option ℕ) (sent : Bool) (id : ℕ) (s : ClientSession Keys Tx)
      → s.udp_upgrade.switch_to_udp_sent ≡ sent
      → Inv known (view s)
      → Ends (EndsInv known) (judge_ack env o sent id s)
  unfolding judge_ack
  judge_ack-Inv none sent id s e h = h
  judge_ack-Inv (some expected) false id s e h =
      if_both (λ (m : Handler Keys Tx SessionControl). Ends (EndsInv known) (m s))
        (not (expected == id)) _ _ (λ t. h) (λ f. h)
  judge_ack-Inv (some expected) true id s e h =
      if_both (λ (m : Handler Keys Tx SessionControl). Ends (EndsInv known) (m s))
        (not (expected == id)) _ _ (λ t. h) (λ f. commit_switch-Inv id s h e)

  pub handle_switch_ack-Inv :
      (payload : List ℕ) (s : ClientSession Keys Tx)
      → Inv known (view s)
      → Ends (EndsInv known) (handle_switch_ack env payload s)
  unfolding handle_switch_ack
  handle_switch_ack-Inv payload s h =
      Ends-lift SessionError.payload (decode_switch_ack payload) _ (EndsInv known) s (λ ack.
        judge_ack-Inv s.udp_upgrade.upgrade_id s.udp_upgrade.switch_to_udp_sent ack.upgrade_id s
          refl h)
