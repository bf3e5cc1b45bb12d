-- ===== src/Qsp/Session/Receive.antt =====
-- What receiving does to a session of slt-core/src/crypto/udp_qsp/session.rs.
use slt.Prelude.{ℕ, ◌≡◌, ◌≢◌, refl, sym, ap, ◌∙◌, List, Option, none, some, Bool, true, false, leb}
use slt.Prelude.{if◌then◌else◌, Result, ok, err, panic, Bool-cases, inl, inr}
use slt.Qsp.Crypto.{Crypto, Generations, QspCryptoError, OpenedPacket, crypto_fail}
use slt.Qsp.Replay.{ReplayError, check_and_update, expected_pn}
use slt.Qsp.Replay.Refused.{check_and_update-Keeps}
use slt.Qsp.Session.{Session, PreviousRxKeys, Outcome, try_keys, then_do, try_open, accept_opened}
use slt.Qsp.Session.{
  promote_candidate_rx_keys, open_candidate, open_previous, open_packet, same_phase,
}
use slt.Qsp.Session.{
  maybe_confirm_previous_rx_keys, should_try_candidate, is_expired, QspSessionError, crypto,
  verdict_outcome, promoted,
}
use slt.Qsp.Session.{open_derived, derive_candidate_rx_keys}

module _ {Keys : Type 0} (c : Crypto Keys) {Side : Type 0} (g : Generations c Side) where
  -- The transmit side of a session.
  pub record SameTx (s s' : Session Keys) : Type 0 where
    pub same_pn : s'.next_pn ≡ s.next_pn
    pub same_phase_bit : s'.tx_key_phase ≡ s.tx_key_phase
    pub same_threshold : s'.tx_next_rekey_pn ≡ s.tx_next_rekey_pn
    pub same_policy : s'.rekey_policy ≡ s.rekey_policy
    pub same_generation : g.tx s'.keys ≡ g.tx s.keys

  -- Receiving leaves the transmit side alone. A packet that is returned has passed the replay window, which is
  -- updated; in every other case the window is as before.
  pub record IsReceived (s : Session Keys) (r : Outcome Keys OpenedPacket) : Type 0 where
    pub same_tx : SameTx s r.0
    pub accepted :
        (o : OpenedPacket)
        → r.1 ≡ ok o
        → check_and_update s.replay_window o.pn ≡ (r.0.replay_window, ok tt)
    pub refused : ((o : OpenedPacket) → r.1 ≢ ok o) → r.0.replay_window ≡ s.replay_window

  SameTx-refl : (s : Session Keys) → SameTx s s
  SameTx-refl s = record {
    same_pn = refl;
    same_phase_bit = refl;
    same_threshold = refl;
    same_policy = refl;
    same_generation = refl;
  }

  SameTx-trans : (s t u : Session Keys) → SameTx s t → SameTx t u → SameTx s u
  SameTx-trans s t u a b = record {
    same_pn = b.same_pn ∙ a.same_pn;
    same_phase_bit = b.same_phase_bit ∙ a.same_phase_bit;
    same_threshold = b.same_threshold ∙ a.same_threshold;
    same_policy = b.same_policy ∙ a.same_policy;
    same_generation = b.same_generation ∙ a.same_generation;
  }

  -- A step that leaves the transmit side and the window alone, before a reception.
  IsReceived-after :
      (s t : Session Keys) (r : Outcome Keys OpenedPacket)
      → SameTx s t
      → t.replay_window ≡ s.replay_window
      → IsReceived t r
      → IsReceived s r
  IsReceived-after s t r a w i = record {
    same_tx = SameTx-trans s t r.0 a i.same_tx;
    accepted = λ o e. ap (λ x. check_and_update x o.pn) (sym w) ∙ i.accepted o e;
    refused = λ n. i.refused n ∙ w;
  }

  fails-IsReceived :
      (s : Session Keys) (r : Result QspSessionError OpenedPacket)
      → ((o : OpenedPacket) → r ≢ ok o)
      → IsReceived s (s, r)
  fails-IsReceived s r n = record {
    same_tx = SameTx-refl s;
    accepted = λ o e. absurd (n o e);
    refused = λ m. refl;
  }

  verdict_ok :
      (v : Result ReplayError (Unit {0})) (o o' : OpenedPacket)
      → verdict_outcome c v o ≡ ok o'
      → (v ≡ ok tt) × (o ≡ o')
  verdict_ok (ok u) o o' h = (refl, cc h)
  verdict_ok (err ReplayError.replay) o o' h = cc h
  verdict_ok (err ReplayError.too_old) o o' h = cc h
  verdict_ok panic o o' h = cc h

  accept_opened-IsReceived :
      (s : Session Keys) (o : OpenedPacket) → IsReceived s (accept_opened c s o)
  unfolding accept_opened
  accept_opened-IsReceived s o = record {
    same_tx = record {
      same_pn = refl;
      same_phase_bit = refl;
      same_threshold = refl;
      same_policy = refl;
      same_generation = refl;
    };
    accepted = λ o' e.
        let (passed, is) = verdict_ok (check_and_update s.replay_window o.pn).1 o o' e in
        rw (← is) (λ i. ((check_and_update s.replay_window o.pn).0, passed i));
    refused = λ n. elim (check_and_update-Keeps s.replay_window o.pn) [
      | inl passed ↦ absurd (n o (ap (λ v. verdict_outcome c v o) passed))
      | inr same ↦ same
    ];
  }

  -- An attempt to open the packet, given what follows when it succeeds and when it does not.
  try_open-IsReceived :
      (s : Session Keys) (made : Result QspCryptoError OpenedPacket) (test : Bool → Bool)
      (hit : OpenedPacket → Outcome Keys OpenedPacket) (miss : Outcome Keys OpenedPacket)
      → ((o : OpenedPacket) → IsReceived s (hit o))
      → IsReceived s miss
      → IsReceived s (try_open s made test hit miss)
  try_open-IsReceived s (ok o) test hit miss h m = elim (Bool-cases (test o.key_phase)) [
    | inl yes' ↦ rw yes' (h o)
    | inr no' ↦ rw no' m
  ]
  try_open-IsReceived s (err e) test hit miss h m = m
  try_open-IsReceived s panic test hit miss h m = fails-IsReceived s panic (λ o e. cc e)

  no_key-IsReceived : (s : Session Keys) → IsReceived s (s, err (crypto crypto_fail))
  no_key-IsReceived s = fails-IsReceived s (err (crypto crypto_fail)) (λ o e. cc e)

  -- Promotion replaces the receive keys by keys with the same transmit side.
  promoted-IsReceived :
      (s : Session Keys) (candidate : Keys) (cloned : Result QspCryptoError Keys) (o : OpenedPacket)
      → c.try_clone s.keys ≡ cloned
      → g.tx candidate ≡ g.tx s.keys
      → IsReceived s
          (then_do (promote_candidate_rx_keys c s candidate) (λ s' done. accept_opened c s' o))
  unfolding promote_candidate_rx_keys
  promoted-IsReceived s candidate (ok old) o e same =
      rw (e, promote_candidate_rx_keys)
        (IsReceived-after s (promoted c s candidate old)
          (accept_opened c (promoted c s candidate old) o)
          (record {
            same_pn = refl;
            same_phase_bit = refl;
            same_threshold = refl;
            same_policy = refl;
            same_generation = same;
          })
          refl (accept_opened-IsReceived (promoted c s candidate old) o))
  promoted-IsReceived s candidate (err x) o e same =
      rw (e, promote_candidate_rx_keys) (fails-IsReceived s (err (crypto x)) (λ p q. cc q))
  promoted-IsReceived s candidate panic o e same =
      rw (e, promote_candidate_rx_keys) (fails-IsReceived s panic (λ p q. cc q))

  open_derived-IsReceived :
      (s : Session Keys) (packet : List ℕ) (expected : ℕ) (derived : Option Keys)
      → ((k : Keys) → derived ≡ some k → g.tx k ≡ g.tx s.keys)
      → IsReceived s (open_derived c s packet expected derived)
  unfolding open_derived
  open_derived-IsReceived s packet expected none same = no_key-IsReceived s
  open_derived-IsReceived s packet expected (some k) same =
      try_open-IsReceived s (c.open_into k s.scid.len packet expected) _ _ _
        (λ o. promoted-IsReceived s k (c.try_clone s.keys) o refl (same k refl))
        (no_key-IsReceived s)

  derived-IsReceived :
      (s : Session Keys) (packet : List ℕ) (expected : ℕ) (threshold : Option ℕ)
      (made : Result QspCryptoError Keys)
      → c.with_next_rx_keys s.keys ≡ made
      → IsReceived s
          (try_keys s (derive_candidate_rx_keys c s threshold) (open_derived c s packet expected))
  unfolding derive_candidate_rx_keys
  derived-IsReceived s packet expected none made e =
      open_derived-IsReceived s packet expected none (λ k h. cc h)
  derived-IsReceived s packet expected (some t) (ok k) e = rw e (
      open_derived-IsReceived s packet expected (some k)
        (λ k' h. let is : k ≡ k' = cc h in rw (← is) (g.next_rx-tx s.keys k e)))
  derived-IsReceived s packet expected (some t) (err x) e =
      rw e (fails-IsReceived s (err (crypto x)) (λ o h. cc h))
  derived-IsReceived s packet expected (some t) panic e =
      rw e (fails-IsReceived s panic (λ o h. cc h))

  open_candidate-IsReceived :
      (s : Session Keys) (packet : List ℕ) (expected : ℕ)
      → IsReceived s (open_candidate c s packet expected)
  unfolding open_candidate
  open_candidate-IsReceived s packet expected =
      elim (Bool-cases (should_try_candidate c s expected)) [
        | inr no' ↦ rw no' (no_key-IsReceived s)
        | inl yes' ↦ rw yes' (
            derived-IsReceived s packet expected s.rx_next_rekey_pn (c.with_next_rx_keys s.keys)
              refl)
      ]

  open_previous-IsReceived :
      (s : Session Keys) (packet : List ℕ) (expected : ℕ) (previous : Option (PreviousRxKeys Keys))
      → IsReceived s (open_previous c s packet expected previous)
  unfolding open_previous
  open_previous-IsReceived s packet expected none = open_candidate-IsReceived s packet expected
  open_previous-IsReceived s packet expected (some prev) =
      elim (Bool-cases (leb expected prev.valid_until_pn)) [
        | inr no' ↦ rw no' (open_candidate-IsReceived s packet expected)
        | inl yes' ↦ rw yes' (
            try_open-IsReceived s (c.open_into prev.keys s.scid.len packet expected) _ _ _
              (accept_opened-IsReceived s) (open_candidate-IsReceived s packet expected))
      ]

  -- Whatever the keys do, `open_packet` leaves the transmit side as it is: next packet number, phase bit, rekey
  -- threshold and the transmit side of the keys. A packet that it returns has passed the replay window, and the
  -- new window is the one with its number; an error or a panic of the keys leaves the window as it was.
  pub open_packet-IsReceived :
      (s : Session Keys) (packet : List ℕ) → IsReceived s (open_packet c s packet)
  unfolding open_packet maybe_confirm_previous_rx_keys
  open_packet-IsReceived s packet =
      confirmed (is_expired c s.previous_rx (expected_pn s.replay_window))
    where
      attempts :
          (t : Session Keys)
          → IsReceived t (
              try_open t
                (c.open_into t.keys t.scid.len packet (expected_pn s.replay_window))
                (same_phase t.rx_key_phase)
                (accept_opened c t)
                (open_previous c t packet (expected_pn s.replay_window) t.previous_rx))
      attempts t =
          try_open-IsReceived t (c.open_into t.keys t.scid.len packet (expected_pn s.replay_window))
            _ _ _ (accept_opened-IsReceived t)
            (open_previous-IsReceived t packet (expected_pn s.replay_window) t.previous_rx)

      confirmed :
          (b : Bool)
          → IsReceived s (
              let t = if b then record s { previous_rx = none } else s in
              try_open t
                (c.open_into t.keys t.scid.len packet (expected_pn s.replay_window))
                (same_phase t.rx_key_phase)
                (accept_opened c t)
                (open_previous c t packet (expected_pn s.replay_window) t.previous_rx))
      confirmed true =
          IsReceived-after s (record s { previous_rx = none }) _
            (record {
              same_pn = refl;
              same_phase_bit = refl;
              same_threshold = refl;
              same_policy = refl;
              same_generation = refl;
            })
            refl (attempts (record s { previous_rx = none }))
      confirmed false = attempts s
