-- ===== src/Proto/Payloads/Upgrade.antt =====
-- Upgrade payloads: slt-core/src/proto/payloads/upgrade.rs. The `map_err` behind each length test cannot
-- fire, since the slices have the length of the arrays.
use slt.Prelude.{ℕ, List, ◌++◌, ◌==◌}
use slt.Prelude.{length, Result, ok, ◌>>=◌, ◌>>◌, guard, slice}
use slt.Prelude.Bytes.{to_be, from_be}
use slt.Proto.Payloads.Errors.{PayloadError, length_mismatch}

abbrev pub upgrade_id_payload_len : ℕ
upgrade_id_payload_len = 8

abbrev pub upgrade_probe_payload_len : ℕ
upgrade_probe_payload_len = 16

pub record UpgradeProbePayload : Type 0 where
  pub upgrade_id : ℕ
  pub nonce : ℕ

unfoldable pub decode_upgrade_probe : List ℕ → Result PayloadError UpgradeProbePayload
decode_upgrade_probe payload = do
  guard (length payload == upgrade_probe_payload_len)
      (length_mismatch upgrade_probe_payload_len (length payload))
  id_bytes ← slice payload 0 upgrade_id_payload_len
  nonce_bytes ← slice payload upgrade_id_payload_len (length payload)
  ok (record { upgrade_id = from_be id_bytes; nonce = from_be nonce_bytes })

unfoldable pub encode_upgrade_probe : UpgradeProbePayload → List ℕ → List ℕ
encode_upgrade_probe p out = (out ++ to_be 8 p.upgrade_id) ++ to_be 8 p.nonce

pub record UpgradeProbeAckPayload : Type 0 where
  pub upgrade_id : ℕ
  pub nonce : ℕ

unfoldable pub decode_upgrade_probe_ack : List ℕ → Result PayloadError UpgradeProbeAckPayload
decode_upgrade_probe_ack payload = do
  guard (length payload == upgrade_probe_payload_len)
      (length_mismatch upgrade_probe_payload_len (length payload))
  id_bytes ← slice payload 0 upgrade_id_payload_len
  nonce_bytes ← slice payload upgrade_id_payload_len (length payload)
  ok (record { upgrade_id = from_be id_bytes; nonce = from_be nonce_bytes })

unfoldable pub encode_upgrade_probe_ack : UpgradeProbeAckPayload → List ℕ → List ℕ
encode_upgrade_probe_ack p out = (out ++ to_be 8 p.upgrade_id) ++ to_be 8 p.nonce

pub record UdpReadyPayload : Type 0 where
  pub upgrade_id : ℕ

unfoldable pub decode_udp_ready : List ℕ → Result PayloadError UdpReadyPayload
decode_udp_ready payload = do
  guard (length payload == upgrade_id_payload_len)
      (length_mismatch upgrade_id_payload_len (length payload))
  bytes ← slice payload 0 upgrade_id_payload_len
  ok (record { upgrade_id = from_be bytes })

unfoldable pub encode_udp_ready : UdpReadyPayload → List ℕ → List ℕ
encode_udp_ready p out = out ++ to_be 8 p.upgrade_id

pub record SwitchToUdpPayload : Type 0 where
  pub upgrade_id : ℕ

unfoldable pub decode_switch_to_udp : List ℕ → Result PayloadError SwitchToUdpPayload
decode_switch_to_udp payload = do
  guard (length payload == upgrade_id_payload_len)
      (length_mismatch upgrade_id_payload_len (length payload))
  bytes ← slice payload 0 upgrade_id_payload_len
  ok (record { upgrade_id = from_be bytes })

unfoldable pub encode_switch_to_udp : SwitchToUdpPayload → List ℕ → List ℕ
encode_switch_to_udp p out = out ++ to_be 8 p.upgrade_id

pub record SwitchAckPayload : Type 0 where
  pub upgrade_id : ℕ

unfoldable pub decode_switch_ack : List ℕ → Result PayloadError SwitchAckPayload
decode_switch_ack payload = do
  guard (length payload == upgrade_id_payload_len)
      (length_mismatch upgrade_id_payload_len (length payload))
  bytes ← slice payload 0 upgrade_id_payload_len
  ok (record { upgrade_id = from_be bytes })

unfoldable pub encode_switch_ack : SwitchAckPayload → List ℕ → List ℕ
encode_switch_ack p out = out ++ to_be 8 p.upgrade_id

pub record SwitchOkPayload : Type 0 where
  pub upgrade_id : ℕ

unfoldable pub decode_switch_ok : List ℕ → Result PayloadError SwitchOkPayload
decode_switch_ok payload = do
  guard (length payload == upgrade_id_payload_len)
      (length_mismatch upgrade_id_payload_len (length payload))
  bytes ← slice payload 0 upgrade_id_payload_len
  ok (record { upgrade_id = from_be bytes })

unfoldable pub encode_switch_ok : SwitchOkPayload → List ℕ → List ℕ
encode_switch_ok p out = out ++ to_be 8 p.upgrade_id
