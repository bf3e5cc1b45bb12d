-- ===== src/Tests/Upgrade.antt =====
-- The upgrade state of slt-server/src/sessions/upgrade.rs on concrete IDs.
use slt.Prelude.{◌≡◌, refl, [], some, true, false}
use slt.Server.Upgrade.{UdpUpgradeState, upgrade_probe, note_upgrade_id, reset_udp_upgrade_state}
use slt.Server.Upgrade.History.{
  IsHistory, note_upgrade_id-IsHistory, note_upgrade_id-supersedes, reset-IsHistory,
}

abbrev attempt : UdpUpgradeState
attempt = record {
  upgrade_id = some 5;
  probe_seen = true;
  ready_seen = true;
  switch_to_udp_sent = true;
  stale_upgrade_ids = [];
}

note_upgrade_id-IsHistory_example :
    IsHistory (note_upgrade_id reset_udp_upgrade_state 5 upgrade_probe).0
note_upgrade_id-IsHistory_example =
    note_upgrade_id-IsHistory reset_udp_upgrade_state 5 upgrade_probe reset-IsHistory

note_upgrade_id-supersedes_example :
    let s' = (note_upgrade_id attempt 6 upgrade_probe).0 in
    ((note_upgrade_id attempt 6 upgrade_probe).1 ≡ true)
    × (s'.upgrade_id ≡ some 6)
    × (s'.probe_seen ≡ false)
    × (s'.ready_seen ≡ false)
    × (s'.switch_to_udp_sent ≡ false)
    × (note_upgrade_id s' 5 upgrade_probe ≡ (s', false))
note_upgrade_id-supersedes_example = note_upgrade_id-supersedes attempt 5 6 refl refl refl
