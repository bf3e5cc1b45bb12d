-- ===== src/Qsp/Replay/Refused.antt =====
-- A number that the replay window of slt-core/src/crypto/udp_qsp/session.rs refuses leaves it as it was.
use slt.Prelude.{
  ℕ, ◌≡◌, refl, ◌⊎◌, inl, inr, Option, none, some, ltb, leb, Bool-cases, if◌then◌else◌, Result, ok,
  ◌-◌,
}
use slt.Qsp.Replay.{
  ReplayWindow, ReplayError, check_and_update, first_packet, newer_packet, older_packet, is_set,
}

abbrev Keeps : ReplayWindow → ReplayWindow × Result ReplayError (Unit {0}) → Type 0
Keeps w r = (r.1 ≡ ok tt) ⊎ (r.0 ≡ w)

first_packet-Keeps : (w : ReplayWindow) (pn : ℕ) → Keeps w (first_packet w pn)
unfolding first_packet
first_packet-Keeps w pn = elim (Bool-cases (ltb pn w.initial_expected)) [
  | inl early ↦ inr (rw early refl)
  | inr late ↦ inl (rw late refl)
]

older_packet-Keeps : (w : ReplayWindow) (largest pn : ℕ) → Keeps w (older_packet w largest pn)
unfolding older_packet
older_packet-Keeps w largest pn = elim (Bool-cases (leb 1024 (largest - pn))) [
  | inl old ↦ inr (rw old refl)
  | inr recent ↦ elim (Bool-cases (is_set w pn)) [
    | inl seen ↦ inr (rw (recent, seen) refl)
    | inr fresh ↦ inl (rw (recent, fresh) refl)
  ]
]

pub check_and_update-Keeps :
    (w : ReplayWindow) (pn : ℕ)
    → ((check_and_update w pn).1 ≡ ok tt) ⊎ ((check_and_update w pn).0 ≡ w)
unfolding check_and_update newer_packet
check_and_update-Keeps w pn = by_largest w.largest_pn
  where
    by_largest :
        (o : Option ℕ)
        → Keeps w (elim o as (λ x. ReplayWindow × Result ReplayError (Unit {0})) [
          | none ↦ first_packet w pn
          | some largest ↦
              if ltb largest pn then newer_packet w largest pn else older_packet w largest pn
        ])
    by_largest none = first_packet-Keeps w pn
    by_largest (some largest) = elim (Bool-cases (ltb largest pn)) [
      | inl newer ↦ rw newer (inl refl)
      | inr older ↦ rw older (older_packet-Keeps w largest pn)
    ]
