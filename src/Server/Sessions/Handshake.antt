-- ===== src/Server/Sessions/Handshake.antt =====
-- The handlers of the upgrade messages: slt-server/src/sessions/upgrade.rs.
use slt.Prelude.{ℕ, List, [], Option, none, some, Bool, true, not, ◌==◌, ◌||◌}
use slt.Prelude.{if◌then◌else◌, ok}
use slt.Prelude.Actions.{◌>>=◌, ◌>>◌, return, modify, lift_result}
use slt.Proto.Message.{upgrade_probe_ack, switch_to_udp, switch_ok}
use slt.Proto.Payloads.Upgrade.{
  decode_upgrade_probe, encode_upgrade_probe_ack, decode_udp_ready, decode_switch_ack,
  encode_switch_to_udp, encode_switch_ok,
}
use slt.Server.Upgrade.{
  UdpUpgradeState, Source, upgrade_probe, udp_ready, remember_stale_upgrade_id,
  reset_udp_upgrade_attempt_preserving_history,
}
use slt.Server.Upgrade
use slt.Server.Sessions.{
  ClientSession, Handler, Environment, SessionControl, continue, SessionError, set_active_transport,
  udp,
}
use slt.Server.Sessions.Egress.{send_tcp_message, send_udp_message_and_flush, retire_only}

module _ {Keys Tx : Type 0} where
  abbrev pub with_upgrade :
      (UdpUpgradeState → UdpUpgradeState) → ClientSession Keys Tx → ClientSession Keys Tx
  with_upgrade f s = record s { udp_upgrade = f s.udp_upgrade }

  unfoldable pub note_upgrade_id : ℕ → Source → Handler Keys Tx Bool
  note_upgrade_id upgrade_id source s =
      let (upgrade, accepted) = Upgrade.note_upgrade_id s.udp_upgrade upgrade_id source in
      (record s { udp_upgrade = upgrade }, ok accepted)

  module _ (env : Environment Keys) where
    -- The request, when none has been sent and the attempt has an ID.
    abbrev pub request_switch : Option ℕ → Handler Keys Tx (Unit {0})
    request_switch none = return tt
    request_switch (some upgrade_id) = do
      send_tcp_message env
          (switch_to_udp (encode_switch_to_udp (record { upgrade_id = upgrade_id }) []))
      modify (with_upgrade (λ u. record u { switch_to_udp_sent = true }))

    unfoldable pub maybe_send_switch_to_udp : Handler Keys Tx (Unit {0})
    unfolding send_tcp_message
    maybe_send_switch_to_udp s =
        let u = s.udp_upgrade in
        if u.switch_to_udp_sent || not u.probe_seen || not u.ready_seen
        then (s, ok tt)
        else request_switch u.upgrade_id s

    -- The handler of a probe whose ID is accepted.
    unfoldable pub answer_probe : ℕ → ℕ → Handler Keys Tx SessionControl
    unfolding maybe_send_switch_to_udp
    answer_probe upgrade_id nonce = do
      modify (with_upgrade (λ u. record u { probe_seen = true }))
      send_udp_message_and_flush env
          (upgrade_probe_ack
            (encode_upgrade_probe_ack (record { upgrade_id = upgrade_id; nonce = nonce }) []))
          retire_only
      maybe_send_switch_to_udp
      return continue

    unfoldable pub handle_upgrade_probe : List ℕ → Handler Keys Tx SessionControl
    unfolding answer_probe note_upgrade_id
    handle_upgrade_probe payload = do
      probe ← lift_result SessionError.payload (decode_upgrade_probe payload)
      accepted ← note_upgrade_id probe.upgrade_id upgrade_probe
      if accepted then answer_probe probe.upgrade_id probe.nonce else return continue

    -- The handler of a ready message whose ID is accepted.
    unfoldable pub answer_ready : Handler Keys Tx SessionControl
    unfolding maybe_send_switch_to_udp
    answer_ready = do
      modify (with_upgrade (λ u. record u { ready_seen = true }))
      maybe_send_switch_to_udp
      return continue

    unfoldable pub handle_udp_ready : List ℕ → Handler Keys Tx SessionControl
    unfolding answer_ready note_upgrade_id
    handle_udp_ready payload = do
      ready ← lift_result SessionError.payload (decode_udp_ready payload)
      accepted ← note_upgrade_id ready.upgrade_id udp_ready
      if accepted then answer_ready else return continue

    -- The acknowledgement of the request that was sent.
    unfoldable pub commit_switch : ℕ → Handler Keys Tx SessionControl
    unfolding send_tcp_message set_active_transport remember_stale_upgrade_id
        reset_udp_upgrade_attempt_preserving_history
    commit_switch upgrade_id = do
      modify (set_active_transport udp)
      send_tcp_message env (switch_ok (encode_switch_ok (record { upgrade_id = upgrade_id }) []))
      modify (with_upgrade (λ u. remember_stale_upgrade_id u upgrade_id))
      modify (with_upgrade reset_udp_upgrade_attempt_preserving_history)
      return continue

    unfoldable pub judge_ack : Option ℕ → Bool → ℕ → Handler Keys Tx SessionControl
    unfolding commit_switch
    judge_ack none sent upgrade_id = return continue
    judge_ack (some expected) sent upgrade_id =
        if not (expected == upgrade_id)
        then return continue
        else if not sent
        then return continue
        else commit_switch upgrade_id

    unfoldable pub handle_switch_ack : List ℕ → Handler Keys Tx SessionControl
    unfolding judge_ack
    handle_switch_ack payload = do
      ack ← lift_result SessionError.payload (decode_switch_ack payload)
      λ s. judge_ack s.udp_upgrade.upgrade_id s.udp_upgrade.switch_to_udp_sent ack.upgrade_id s
