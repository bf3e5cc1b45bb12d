-- ===== src/Server/Upgrade/Attempt.antt =====
-- What the flags of an upgrade attempt in slt-server/src/sessions/upgrade.rs say of each other.
use slt.Prelude.{ℕ, ◌≡◌, refl, List, ==_iff, ap, ◌∙◌, Option, none, some, Bool, true, false, ◌==◌}
use slt.Prelude.Actions.{if_both}
use slt.Server.Upgrade.{
  UdpUpgradeState, Source, upgrade_probe, udp_ready, note_upgrade_id, match_current, supersede,
  reset_udp_upgrade_state, reset_udp_upgrade_attempt_preserving_history, is_stale_probe,
}
use slt.Server.Upgrade.Heard.{Heard, join, IsIn, IsIn-right}
use slt.Server.Upgrade.History.{IsHistory, reset-IsHistory, remember-IsHistory}

-- The current ID is one of these.
abbrev pub HasIdIn : List ℕ → UdpUpgradeState → Type 0
HasIdIn ids u = (id : ℕ) × (u.upgrade_id ≡ some id) × IsIn ids id

-- A switch is requested after a probe and a ready message; that one was seen means that a message with the current
-- ID was received; and probes come over a UDP session.
pub record IsAttempt (r : Heard) (u : UdpUpgradeState) (has_udp : Bool) : Type 0 where
  pub requested : u.switch_to_udp_sent ≡ true → (u.probe_seen ≡ true) × (u.ready_seen ≡ true)
  pub probed : u.probe_seen ≡ true → HasIdIn r.probes u × (has_udp ≡ true)
  pub readied : u.ready_seen ≡ true → HasIdIn r.readies u
  pub history : IsHistory u

-- More messages change nothing.
pub join-IsAttempt :
    (d r : Heard) (u : UdpUpgradeState) (h : Bool) → IsAttempt r u h → IsAttempt (join d r) u h
join-IsAttempt d r u h a = record {
  requested = a.requested;
  probed = λ e.
      let ((id, is, known), has) = a.probed e in
      ((id, is, IsIn-right d.probes r.probes id known), has);
  readied =
      λ e. let (id, is, known) = a.readied e in (id, is, IsIn-right d.readies r.readies id known);
  history = a.history;
}

-- With no flag set, only the history counts.
idle-IsAttempt :
    {r : Heard} (u : UdpUpgradeState) (h : Bool)
    → u.probe_seen ≡ false
    → u.ready_seen ≡ false
    → u.switch_to_udp_sent ≡ false
    → IsHistory u
    → IsAttempt r u h
idle-IsAttempt u h p q s v = record {
  requested = λ e. cc (e, s);
  probed = λ e. cc (e, p);
  readied = λ e. cc (e, q);
  history = v;
}

pub reset_udp_upgrade_state-IsAttempt :
    {r : Heard} (h : Bool) → IsAttempt r reset_udp_upgrade_state h
unfolding reset_udp_upgrade_state
reset_udp_upgrade_state-IsAttempt h = idle-IsAttempt _ h refl refl refl reset-IsHistory

pub reset_udp_upgrade_attempt-IsAttempt :
    {r : Heard} (u : UdpUpgradeState) (h : Bool)
    → IsHistory u
    → IsAttempt r (reset_udp_upgrade_attempt_preserving_history u) h
unfolding reset_udp_upgrade_attempt_preserving_history
reset_udp_upgrade_attempt-IsAttempt u h v =
    idle-IsAttempt _ h refl refl refl (record { few = v.few; different = v.different })

-- After an accepted message the attempt has its ID.
abbrev IsNoted : Heard → Bool → ℕ → UdpUpgradeState × Bool → Type 0
IsNoted r h id (u, accepted) = IsAttempt r u h × (accepted ≡ true → u.upgrade_id ≡ some id)

supersede-IsNoted :
    (r : Heard) (u : UdpUpgradeState) (h : Bool) (existing id : ℕ) (source : Source)
    → IsAttempt r u h
    → IsNoted r h id (supersede u existing id source)
unfolding supersede reset_udp_upgrade_attempt_preserving_history
supersede-IsNoted r u h existing id upgrade_probe a =
    let v = remember-IsHistory u existing a.history in
    (
      idle-IsAttempt _ h refl refl refl (record { few = v.few; different = v.different }),
      λ accepted. refl,
    )
supersede-IsNoted r u h existing id udp_ready a = (a, λ accepted. cc accepted)

-- Without an ID nothing has been seen.
no_id : (ids : List ℕ) (u : UdpUpgradeState) → u.upgrade_id ≡ none → HasIdIn ids u → ⊥
no_id ids u e (id, is, known) = cc (e, is)

match_current-IsNoted :
    (r : Heard) (u : UdpUpgradeState) (h : Bool) (id : ℕ) (source : Source) (current : Option ℕ)
    → u.upgrade_id ≡ current
    → IsAttempt r u h
    → IsNoted r h id (match_current u id source current)
unfolding match_current
match_current-IsNoted r u h id source (some existing) e a =
    if_both (IsNoted r h id) (existing == id) _ _
      (λ same. (a, λ accepted. e ∙ ap some ((==_iff existing id).0 same)))
      (λ other. supersede-IsNoted r u h existing id source a)
match_current-IsNoted r u h id source none e a = (
  record {
    requested = a.requested;
    probed = λ p. absurd (no_id r.probes u e (a.probed p).0);
    readied = λ q. absurd (no_id r.readies u e (a.readied q));
    history = record { few = a.history.few; different = a.history.different };
  },
  λ accepted. refl,
)

pub note_upgrade_id-IsNoted :
    (r : Heard) (u : UdpUpgradeState) (h : Bool) (id : ℕ) (source : Source)
    → IsAttempt r u h
    → IsNoted r h id (note_upgrade_id u id source)
unfolding note_upgrade_id
note_upgrade_id-IsNoted r u h id source a =
    if_both (IsNoted r h id) (is_stale_probe u id source) _ _
      (λ stale. (a, λ accepted. cc accepted))
      (λ fresh. match_current-IsNoted r u h id source u.upgrade_id refl a)

-- The flags that the handlers set.
pub probe_seen-IsAttempt :
    (r : Heard) (u : UdpUpgradeState)
    → HasIdIn r.probes u
    → IsAttempt r u true
    → IsAttempt r (record u { probe_seen = true }) true
probe_seen-IsAttempt r u known a = record {
  requested = λ e. (refl, (a.requested e).1);
  probed = λ e. (known, refl);
  readied = a.readied;
  history = record { few = a.history.few; different = a.history.different };
}

pub ready_seen-IsAttempt :
    (r : Heard) (u : UdpUpgradeState) (h : Bool)
    → HasIdIn r.readies u
    → IsAttempt r u h
    → IsAttempt r (record u { ready_seen = true }) h
ready_seen-IsAttempt r u h known a = record {
  requested = λ e. ((a.requested e).0, refl);
  probed = a.probed;
  readied = λ e. known;
  history = record { few = a.history.few; different = a.history.different };
}

pub switch_to_udp_sent-IsAttempt :
    (r : Heard) (u : UdpUpgradeState) (h : Bool)
    → u.probe_seen ≡ true
    → u.ready_seen ≡ true
    → IsAttempt r u h
    → IsAttempt r (record u { switch_to_udp_sent = true }) h
switch_to_udp_sent-IsAttempt r u h p q a = record {
  requested = λ e. (p, q);
  probed = a.probed;
  readied = a.readied;
  history = record { few = a.history.few; different = a.history.different };
}
