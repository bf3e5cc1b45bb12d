-- ===== src/Qsp/Session.antt =====
-- UDP-QSP sessions: `QuicQspSession` of slt-core/src/crypto/udp_qsp/session.rs, over the interface of its
-- packet keys. `send` ends with the packet that goes to the I/O layer, and `open_packet` with the opened
-- packet; both return the new state also when they fail.
pub mod Rotation
pub mod Receive
pub mod Transmit
pub mod Runs
pub mod Lives
pub mod EndToEnd
use slt.Prelude.{
  ℕ, zero, suc, ◌+◌, ◌-◌, ◌*◌, ◌%◌, ◌^◌, List, Option, none, some, ltb, leb, ◌==◌, if◌then◌else◌,
}
use slt.Prelude.{Bool, true, false, not, Result, ok, err, panic, map_ok}
use slt.Prelude.Words.{checked_add, saturating_add}
use slt.Cid
use slt.Cid.{Cid}
use slt.Qsp.Crypto.{Crypto, QspCryptoError, crypto_fail, OpenedPacket}
use slt.Qsp.Replay.{ReplayWindow, ReplayError, check_and_update, expected_pn, pn_replay_window}
use slt.Qsp.Replay

abbrev pub key_update_interval : ℕ
key_update_interval = 2097152

abbrev pub key_update_late_margin : ℕ
key_update_late_margin = pn_replay_window * 8

-- Without the I/O errors, which the session passes on unchanged.
pub data QspSessionError : Type 0 where
  crypto : QspCryptoError → QspSessionError
  replay too_old packet_number_overflow : QspSessionError

pub record RekeyPolicy : Type 0 where
  pub interval : ℕ
  pub late_margin : ℕ

unfoldable pub defaults : RekeyPolicy
defaults = record { interval = key_update_interval; late_margin = key_update_late_margin }

pub record PreviousRxKeys (Keys : Type 0) : Type 0 where
  pub keys : Keys
  pub valid_until_pn : ℕ

pub record Session (Keys : Type 0) : Type 0 where
  pub scid : Cid
  pub dcid : Cid
  pub keys : Keys
  pub tx_key_phase : Bool
  pub rx_key_phase : Bool
  pub next_pn : ℕ
  pub tx_next_rekey_pn : Option ℕ
  pub rx_next_rekey_pn : Option ℕ
  pub previous_rx : Option (PreviousRxKeys Keys)
  pub rekey_policy : RekeyPolicy
  pub replay_window : ReplayWindow

unfoldable pub pn_distance : ℕ → ℕ → ℕ
pn_distance a b = if ltb a b then b - a else a - b

unfoldable pub next_rekey_after : ℕ → ℕ → Option ℕ
next_rekey_after pn interval =
    if interval == 0
    then none
    else (let rem = pn % interval in
        let step = if rem == 0 then interval else interval - rem in checked_add pn step)

abbrev pub Outcome : Type 0 → Type 0 → Type 0
Outcome Keys A = Session Keys × Result QspSessionError A

abbrev pub same_phase : Bool → Bool → Bool
same_phase true b = b
same_phase false b = not b

module _ {Keys : Type 0} where
  unfoldable pub new : Cid → Cid → Keys → ℕ → ℕ → Bool → Session Keys
  unfolding defaults
  new scid dcid keys send_pn recv_expected_pn key_phase = record {
    scid = scid;
    dcid = dcid;
    keys = keys;
    tx_key_phase = key_phase;
    rx_key_phase = key_phase;
    next_pn = send_pn;
    tx_next_rekey_pn = next_rekey_after send_pn defaults.interval;
    rx_next_rekey_pn = next_rekey_after recv_expected_pn defaults.interval;
    previous_rx = none;
    rekey_policy = defaults;
    replay_window = Replay.new recv_expected_pn;
  }

  -- `?` on a result of the keys, with the state of the session at that point.
  abbrev pub try_keys :
      {A B : Type 0}
      → Session Keys
      → Result QspCryptoError A
      → (A → Outcome Keys B)
      → Outcome Keys B
  try_keys s (ok a) k = k a
  try_keys s (err e) k = (s, err (crypto e))
  try_keys s panic k = (s, panic)

  abbrev pub then_do :
      {A B : Type 0} → Outcome Keys A → (Session Keys → A → Outcome Keys B) → Outcome Keys B
  then_do (s, ok a) k = k s a
  then_do (s, err e) k = (s, err e)
  then_do (s, panic) k = (s, panic)

  -- `if let Some(opened) = open_into(…).ok() && test(opened.key_phase) { return hit }`, then `miss`.
  abbrev pub try_open :
      {A : Type 0}
      → Session Keys
      → Result QspCryptoError OpenedPacket
      → (Bool → Bool)
      → (OpenedPacket → Outcome Keys A)
      → Outcome Keys A
      → Outcome Keys A
  try_open s (ok opened) phase_test hit miss =
      if phase_test opened.key_phase then hit opened else miss
  try_open s (err e) phase_test hit miss = miss
  try_open s panic phase_test hit miss = (s, panic)

  module _ (c : Crypto Keys) where
    -- The body of the loop of `maybe_rotate_tx_keys`.
    unfoldable pub rotate_tx_keys : Session Keys → ℕ → Keys → Session Keys
    rotate_tx_keys s threshold keys = record s {
      keys = keys;
      tx_key_phase = not s.tx_key_phase;
      tx_next_rekey_pn = next_rekey_after threshold s.rekey_policy.interval;
    }

    -- One round at the threshold, with the rest of the loop.
    unfoldable pub rotate_round :
        (Session Keys → Outcome Keys (Unit {0}))
        → Session Keys
        → ℕ
        → Option ℕ
        → Outcome Keys (Unit {0})
    rotate_round again s pn none = (s, ok tt)
    rotate_round again s pn (some threshold) = elim (ltb pn threshold) [
      | true ↦ (s, ok tt)
      | false ↦
          try_keys s (c.with_next_tx_keys s.keys) (λ keys. again (rotate_tx_keys s threshold keys))
    ]

    -- The loop, with fuel; that it runs out is a `panic`.
    unfoldable pub rotate_loop : ℕ → Session Keys → ℕ → Outcome Keys (Unit {0})
    unfolding rotate_round
    rotate_loop zero s pn = (s, panic)
    rotate_loop (suc fuel) s pn =
        rotate_round (λ s'. rotate_loop fuel s' pn) s pn s.tx_next_rekey_pn

    -- Each round raises the threshold, so `pn` and two more rounds are enough.
    unfoldable pub maybe_rotate_tx_keys : Session Keys → ℕ → Outcome Keys (Unit {0})
    maybe_rotate_tx_keys s pn = rotate_loop (suc (suc pn)) s pn

    -- `send` behind the rotation.
    unfoldable pub protect_next : List ℕ → ℕ → Session Keys → Outcome Keys (List ℕ)
    protect_next payload pn s = elim (checked_add pn 1) [
      | none ↦ (s, err packet_number_overflow)
      | some following ↦
          let s' = record s { next_pn = following } in
          try_keys s' (c.protect_into s'.keys (Cid.as_slice s'.dcid) pn s'.tx_key_phase payload)
            (λ packet. (s', ok packet))
    ]

    unfoldable pub send : Session Keys → List ℕ → Outcome Keys (List ℕ)
    unfolding protect_next
    send s payload =
        let pn = s.next_pn in
        then_do (maybe_rotate_tx_keys s pn) (λ s' done. protect_next payload pn s')

    -- The `match` on the verdict of the replay window.
    abbrev pub verdict_outcome :
        Result ReplayError (Unit {0}) → OpenedPacket → Result QspSessionError OpenedPacket
    verdict_outcome (ok u) opened = ok opened
    verdict_outcome (err ReplayError.replay) opened = err replay
    verdict_outcome (err ReplayError.too_old) opened = err too_old
    verdict_outcome panic opened = panic

    unfoldable pub accept_opened : Session Keys → OpenedPacket → Outcome Keys OpenedPacket
    accept_opened s opened =
        let (window, verdict) = check_and_update s.replay_window opened.pn in
        (record s { replay_window = window }, verdict_outcome verdict opened)

    -- `previous_rx.is_some_and(|prev| …)`
    abbrev pub is_expired : Option (PreviousRxKeys Keys) → ℕ → Bool
    is_expired none expected = false
    is_expired (some prev) expected = ltb prev.valid_until_pn expected

    unfoldable pub maybe_confirm_previous_rx_keys : Session Keys → ℕ → Session Keys
    maybe_confirm_previous_rx_keys s expected =
        if is_expired s.previous_rx expected then record s { previous_rx = none } else s

    unfoldable pub should_try_candidate : Session Keys → ℕ → Bool
    should_try_candidate s expected = elim s.previous_rx [
      | some prev ↦ false
      | none ↦ elim s.rx_next_rekey_pn [
        | none ↦ false
        | some threshold ↦ leb (pn_distance expected threshold) s.rekey_policy.late_margin
      ]
    ]

    -- `rx_next_rekey_pn.unwrap_or_else(|| expected_pn())`
    abbrev pub promotion_threshold : Session Keys → Option ℕ → ℕ
    promotion_threshold s none = expected_pn s.replay_window
    promotion_threshold s (some threshold) = threshold

    -- The session with the candidate keys, and the old ones kept for a while.
    abbrev pub promoted : Session Keys → Keys → Keys → Session Keys
    promoted s candidate old =
        let threshold = promotion_threshold s s.rx_next_rekey_pn in
        record s {
          previous_rx =
              some
                (record { keys = old; valid_until_pn = saturating_add threshold pn_replay_window });
          keys = candidate;
          rx_key_phase = not s.rx_key_phase;
          rx_next_rekey_pn = next_rekey_after threshold s.rekey_policy.interval;
        }

    unfoldable pub promote_candidate_rx_keys : Session Keys → Keys → Outcome Keys (Unit {0})
    promote_candidate_rx_keys s candidate =
        try_keys s (c.try_clone s.keys) (λ old. (promoted s candidate old, ok tt))

    unfoldable pub derive_candidate_rx_keys :
        Session Keys → Option ℕ → Result QspCryptoError (Option Keys)
    derive_candidate_rx_keys s none = ok none
    derive_candidate_rx_keys s (some threshold) = map_ok some (c.with_next_rx_keys s.keys)

    abbrev pub other_phase : Session Keys → Bool → Bool
    other_phase s phase = not (same_phase s.rx_key_phase phase)

    abbrev pub no_key : Session Keys → Outcome Keys OpenedPacket
    no_key s = (s, err (crypto crypto_fail))

    -- The attempt under the derived keys, if there are any.
    unfoldable pub open_derived :
        Session Keys → List ℕ → ℕ → Option Keys → Outcome Keys OpenedPacket
    unfolding promote_candidate_rx_keys accept_opened
    open_derived s packet expected none = no_key s
    open_derived s packet expected (some candidate) =
        try_open s (c.open_into candidate s.scid.len packet expected) (other_phase s)
          (λ opened.
            then_do (promote_candidate_rx_keys s candidate) (λ s' done. accept_opened s' opened))
          (no_key s)

    -- The last attempt of `open_packet`, under the next receive keys.
    unfoldable pub open_candidate : Session Keys → List ℕ → ℕ → Outcome Keys OpenedPacket
    unfolding should_try_candidate derive_candidate_rx_keys open_derived
    open_candidate s packet expected =
        if should_try_candidate s expected
        then try_keys s (derive_candidate_rx_keys s s.rx_next_rekey_pn)
            (open_derived s packet expected)
        else no_key s

    -- The attempt under the previous receive keys, while `can_try_previous` holds, then the last one.
    unfoldable pub open_previous :
        Session Keys → List ℕ → ℕ → Option (PreviousRxKeys Keys) → Outcome Keys OpenedPacket
    unfolding open_candidate accept_opened
    open_previous s packet expected none = open_candidate s packet expected
    open_previous s packet expected (some prev) =
        if leb expected prev.valid_until_pn
        then try_open s (c.open_into prev.keys s.scid.len packet expected) (other_phase s)
            (accept_opened s) (open_candidate s packet expected)
        else open_candidate s packet expected

    unfoldable pub open_packet : Session Keys → List ℕ → Outcome Keys OpenedPacket
    unfolding open_previous maybe_confirm_previous_rx_keys accept_opened
    open_packet s packet =
        let expected = expected_pn s.replay_window in
        let s' = maybe_confirm_previous_rx_keys s expected in
        try_open s' (c.open_into s'.keys s'.scid.len packet expected) (same_phase s'.rx_key_phase)
          (accept_opened s') (open_previous s' packet expected s'.previous_rx)
