-- ===== src/Server/Upgrade.antt =====
-- The state of a session's upgrade to UDP: `UdpUpgradeState` of slt-server/src/sessions/mod.rs, with the functions
-- of slt-server/src/sessions/upgrade.rs that keep it. The queue of stale IDs is a list, the oldest first.
pub mod History
pub mod Heard
pub mod Attempt
use slt.Prelude.{
  ℕ, List, [], ◌∷◌, ◌++◌, length, drop, Option, none, some, Bool, true, false, leb, ◌==◌, ◌||◌,
  if◌then◌else◌,
}

abbrev pub max_stale_upgrade_ids : ℕ
max_stale_upgrade_ids = 16

-- The source is passed as a string; these two occur.
pub data Source : Type 0 where
  upgrade_probe udp_ready : Source

pub record UdpUpgradeState : Type 0 where
  pub upgrade_id : Option ℕ
  pub probe_seen : Bool
  pub ready_seen : Bool
  pub switch_to_udp_sent : Bool
  pub stale_upgrade_ids : List ℕ

unfoldable pub reset_udp_upgrade_state : UdpUpgradeState
reset_udp_upgrade_state = record {
  upgrade_id = none;
  probe_seen = false;
  ready_seen = false;
  switch_to_udp_sent = false;
  stale_upgrade_ids = [];
}

unfoldable pub reset_udp_upgrade_attempt_preserving_history : UdpUpgradeState → UdpUpgradeState
reset_udp_upgrade_attempt_preserving_history s = record s {
  upgrade_id = none;
  probe_seen = false;
  ready_seen = false;
  switch_to_udp_sent = false;
}

abbrev pub contains : List ℕ → ℕ → Bool
contains [] a = false
contains (x ∷ xs) a = x == a || contains xs a

-- The queue with room for one more.
unfoldable pub evict : List ℕ → List ℕ
evict ids = if leb max_stale_upgrade_ids (length ids) then drop 1 ids else ids

unfoldable pub remember_stale_upgrade_id : UdpUpgradeState → ℕ → UdpUpgradeState
unfolding evict
remember_stale_upgrade_id s upgrade_id =
    if contains s.stale_upgrade_ids upgrade_id
    then s
    else record s { stale_upgrade_ids = evict s.stale_upgrade_ids ++ upgrade_id ∷ [] }

abbrev pub is_stale_probe : UdpUpgradeState → ℕ → Source → Bool
is_stale_probe s upgrade_id upgrade_probe = contains s.stale_upgrade_ids upgrade_id
is_stale_probe s upgrade_id udp_ready = false

-- A new ID while another attempt is under way.
unfoldable pub supersede : UdpUpgradeState → ℕ → ℕ → Source → UdpUpgradeState × Bool
unfolding remember_stale_upgrade_id reset_udp_upgrade_attempt_preserving_history
supersede s existing upgrade_id upgrade_probe =
    let s' = reset_udp_upgrade_attempt_preserving_history (remember_stale_upgrade_id s existing) in
    (record s' { upgrade_id = some upgrade_id }, true)
supersede s existing upgrade_id udp_ready = (s, false)

-- The `match` on the current ID.
unfoldable pub match_current : UdpUpgradeState → ℕ → Source → Option ℕ → UdpUpgradeState × Bool
unfolding supersede
match_current s upgrade_id source (some existing) =
    if existing == upgrade_id then (s, true) else supersede s existing upgrade_id source
match_current s upgrade_id source none = (record s { upgrade_id = some upgrade_id }, true)

unfoldable pub note_upgrade_id : UdpUpgradeState → ℕ → Source → UdpUpgradeState × Bool
unfolding match_current
note_upgrade_id s upgrade_id source =
    if is_stale_probe s upgrade_id source
    then (s, false)
    else match_current s upgrade_id source s.upgrade_id
