-- ===== src/Server/Upgrade/History.antt =====
-- The IDs of superseded upgrade attempts in slt-server/src/sessions/upgrade.rs: few, different, and not accepted again.
use slt.Prelude.{
  ℕ, ◌≤◌, ◌≡◌, refl, arith, List, [], ◌∷◌, ◌++◌, length, Option, none, some, true, false, leb, ◌==◌,
  ◌||◌, Bool-cases, inl, inr,
}
use slt.Prelude.Lists.{length-append, length-drop}
use slt.Server.Upgrade.{
  UdpUpgradeState, Source, upgrade_probe, udp_ready, contains, evict, remember_stale_upgrade_id,
  note_upgrade_id, match_current, supersede, reset_udp_upgrade_state,
  reset_udp_upgrade_attempt_preserving_history, is_stale_probe,
}

abbrev pub AllDifferent : List ℕ → Type 0
AllDifferent [] = Unit
AllDifferent (x ∷ xs) = (contains xs x ≡ false) × AllDifferent xs

-- At most 16 stale IDs, all different.
pub record IsHistory (s : UdpUpgradeState) : Type 0 where
  pub few : length s.stale_upgrade_ids ≤ 16
  pub different : AllDifferent s.stale_upgrade_ids

contains-snoc : (xs : List ℕ) (x a : ℕ) → contains (xs ++ x ∷ []) a ≡ (contains xs a || x == a)
contains-snoc [] x a = ground arith
contains-snoc (y ∷ xs) x a = ground (arith, contains-snoc xs x a)

snoc-AllDifferent :
    (xs : List ℕ) (x : ℕ) → AllDifferent xs → contains xs x ≡ false → AllDifferent (xs ++ x ∷ [])
snoc-AllDifferent [] x d n = (refl, tt)
snoc-AllDifferent (y ∷ xs) x (f, d) n =
    (ground (arith, contains-snoc xs x y, f, n), snoc-AllDifferent xs x d (ground (arith, n)))

evict-few : (xs : List ℕ) → length xs ≤ 16 → length (evict xs) ≤ 15
unfolding evict
evict-few xs h = ground (arith, length-drop 1 xs)

evict-AllDifferent : (xs : List ℕ) → AllDifferent xs → AllDifferent (evict xs)
unfolding evict
evict-AllDifferent [] d = tt
evict-AllDifferent (x ∷ xs) (f, d) = elim (Bool-cases (leb 16 (length (x ∷ xs)))) [
  | inl full ↦ rw full d
  | inr room ↦ rw room (f, d)
]

evict-contains : (xs : List ℕ) (a : ℕ) → contains xs a ≡ false → contains (evict xs) a ≡ false
unfolding evict
evict-contains [] a h = refl
evict-contains (x ∷ xs) a h = elim (Bool-cases (leb 16 (length (x ∷ xs)))) [
  | inl full ↦ rw full (ground (arith, h))
  | inr room ↦ rw room h
]

pub remember-IsHistory :
    (s : UdpUpgradeState) (id : ℕ) → IsHistory s → IsHistory (remember_stale_upgrade_id s id)
unfolding remember_stale_upgrade_id
remember-IsHistory s id v = elim (Bool-cases (contains s.stale_upgrade_ids id)) [
  | inl known ↦ rw (remember_stale_upgrade_id, known) v
  | inr fresh ↦
      rw (remember_stale_upgrade_id, fresh)
        (record {
          few = omega (
            arith,
            length-append (evict s.stale_upgrade_ids) (id ∷ []),
            evict-few s.stale_upgrade_ids v.few,
          );
          different =
              snoc-AllDifferent (evict s.stale_upgrade_ids) id
                (evict-AllDifferent s.stale_upgrade_ids v.different)
                (evict-contains s.stale_upgrade_ids id fresh);
        })
]

pub remember-contains :
    (s : UdpUpgradeState) (id : ℕ)
    → contains (remember_stale_upgrade_id s id).stale_upgrade_ids id ≡ true
unfolding remember_stale_upgrade_id
remember-contains s id = elim (Bool-cases (contains s.stale_upgrade_ids id)) [
  | inl known ↦ rw (remember_stale_upgrade_id, known) known
  | inr fresh ↦
      rw (remember_stale_upgrade_id, fresh)
        (ground (arith, contains-snoc (evict s.stale_upgrade_ids) id id))
]

supersede-IsHistory :
    (s : UdpUpgradeState) (existing id : ℕ) (source : Source)
    → IsHistory s
    → IsHistory (supersede s existing id source).0
unfolding supersede reset_udp_upgrade_attempt_preserving_history
supersede-IsHistory s existing id upgrade_probe v =
    let w = remember-IsHistory s existing v in record { few = w.few; different = w.different }
supersede-IsHistory s existing id udp_ready v = v

match_current-IsHistory :
    (s : UdpUpgradeState) (id : ℕ) (source : Source) (current : Option ℕ)
    → IsHistory s
    → IsHistory (match_current s id source current).0
unfolding match_current
match_current-IsHistory s id source (some existing) v = elim (Bool-cases (existing == id)) [
  | inl same ↦ rw (match_current, same) v
  | inr other ↦ rw (match_current, other) (supersede-IsHistory s existing id source v)
]
match_current-IsHistory s id source none v = record { few = v.few; different = v.different }

-- The stale upgrade IDs of a session stay at most 16 and pairwise different, whatever ID arrives from whichever
-- source.
pub note_upgrade_id-IsHistory :
    (s : UdpUpgradeState) (id : ℕ) (source : Source)
    → IsHistory s
    → IsHistory (note_upgrade_id s id source).0
unfolding note_upgrade_id
note_upgrade_id-IsHistory s id source v = elim (Bool-cases (is_stale_probe s id source)) [
  | inl stale ↦ rw (note_upgrade_id, stale) v
  | inr fresh ↦ rw (note_upgrade_id, fresh) (match_current-IsHistory s id source s.upgrade_id v)
]

pub reset-IsHistory : IsHistory reset_udp_upgrade_state
unfolding reset_udp_upgrade_state
reset-IsHistory = record { few = omega arith; different = tt }

-- A probe with a new ID that is not stale supersedes the attempt under way: it is accepted, its ID is the current
-- one, none of its messages has been seen and no switch sent, and a late probe of the superseded attempt is refused
-- and changes nothing.
pub note_upgrade_id-supersedes :
    (s : UdpUpgradeState) (existing id : ℕ)
    → s.upgrade_id ≡ some existing
    → (existing == id) ≡ false
    → contains s.stale_upgrade_ids id ≡ false
    → let s' = (note_upgrade_id s id upgrade_probe).0 in
      ((note_upgrade_id s id upgrade_probe).1 ≡ true)
      × (s'.upgrade_id ≡ some id)
      × (s'.probe_seen ≡ false)
      × (s'.ready_seen ≡ false)
      × (s'.switch_to_udp_sent ≡ false)
      × (note_upgrade_id s' existing upgrade_probe ≡ (s', false))
unfolding note_upgrade_id match_current supersede reset_udp_upgrade_attempt_preserving_history
note_upgrade_id-supersedes s existing id current other fresh =
    rw
      (
        note_upgrade_id,
        fresh,
        current,
        match_current,
        other,
        supersede,
        remember-contains s existing,
      )
      (refl, refl, refl, refl, refl, refl)
