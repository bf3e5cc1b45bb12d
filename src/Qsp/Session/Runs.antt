-- ===== src/Qsp/Session/Runs.antt =====
-- Whole lives of a session of slt-core/src/crypto/udp_qsp/session.rs: every sequence of sends and receptions.
use slt.Prelude.{ℕ, ◌-◌, ◌/◌, ◌≤◌, ◌≡◌, refl, sym, ap, ◌∙◌, arith, List, [], ◌∷◌}
use slt.Prelude.{Bool, Result, ok, err, panic}
use slt.Prelude.Words.{u64_max}
use mathlib.Core.Path.{subst}
use slt.Cid.{Cid}
use slt.Qsp.Crypto.{Crypto, Generations, OpenedPacket}
use slt.Qsp.Replay.History.{Distinct, verdict, verdict_ok_fresh, record_if}
use slt.Qsp.Replay.Refines.{Represents, check_and_update-Agrees}
use slt.Qsp.Session.{Session, new, send, open_packet, QspSessionError, defaults, Outcome}
use slt.Qsp.Session.Rotation.{next_rekey_after-block_end, flip, times}
use slt.Qsp.Session.Receive.{SameTx, IsReceived, open_packet-IsReceived}
use slt.Qsp.Session.Transmit.{IsSending, send-IsSent}

-- The packet numbers accepted so far, last first, with those of a reception's outcome.
abbrev pub note : Result QspSessionError OpenedPacket → List ℕ → List ℕ
note (ok o) h = o.pn ∷ h
note (err e) h = h
note panic h = h

-- A session after calls of `send` and `open_packet`, whatever their outcomes, with the numbers that were accepted.
pub data Run {Keys : Type 0} (c : Crypto Keys) (s : Session Keys)
    : Session Keys → List ℕ → Type 0 where
  begin : Run c s s []
  sends :
      (t : Session Keys) (h : List ℕ) (payload : List ℕ)
      → Run c s t h
      → Run c s (send c t payload).0 h
  opens :
      (t : Session Keys) (h : List ℕ) (packet : List ℕ)
      → Run c s t h
      → Run c s (open_packet c t packet).0 (note (open_packet c t packet).1 h)

module _ {Keys : Type 0} (c : Crypto Keys) {Side : Type 0} (g : Generations c Side) where
  pub new-IsSending :
      (scid dcid : Cid) (keys : Keys) (send_pn recv_pn : ℕ) (phase : Bool)
      → send_pn ≤ u64_max
      → IsSending c g send_pn (g.tx keys) phase (new scid dcid keys send_pn recv_pn phase)
  unfolding new defaults
  new-IsSending scid dcid keys send_pn recv_pn phase fits = record {
    block = send_pn / 2097152;
    in_block = record {
      policy = refl;
      started = omega arith;
      reached = omega arith;
      threshold = next_rekey_after-block_end send_pn;
      updates =
          let none_yet : send_pn / 2097152 - send_pn / 2097152 ≡ 0 = omega arith in
          ap (λ n. times n g.next (g.tx keys)) (sym none_yet);
      flips =
          let none_yet : send_pn / 2097152 - send_pn / 2097152 ≡ 0 = omega arith in
          ap (λ n. flip n phase) (sym none_yet);
    };
    fits = fits;
  }

  module _ (start : ℕ) (first : Side) (phase : Bool) where
    SameTx-IsSending :
        (s t : Session Keys)
        → SameTx c g s t
        → IsSending c g start first phase s
        → IsSending c g start first phase t
    SameTx-IsSending s t same v = record {
      block = v.block;
      in_block = record {
        policy = same.same_policy ∙ v.in_block.policy;
        started = v.in_block.started;
        reached = omega (arith, v.in_block.reached, same.same_pn);
        threshold = same.same_threshold ∙ v.in_block.threshold;
        updates = same.same_generation ∙ v.in_block.updates;
        flips = same.same_phase_bit ∙ v.in_block.flips;
      };
      fits = omega (arith, v.fits, same.same_pn);
    }

    -- A run keeps what holds between calls, and never goes back in its numbers.
    pub Run-IsSending :
        (s t : Session Keys) (h : List ℕ)
        → IsSending c g start first phase s
        → Run c s t h
        → IsSending c g start first phase t × (s.next_pn ≤ t.next_pn)
    Run-IsSending s _ _ v begin = (v, omega arith)
    Run-IsSending s _ _ v (sends t h payload r) =
        let (w, up) = Run-IsSending s t h v r in
        let sent = send-IsSent c g start first phase t payload w in
        (sent.sending, omega (arith, up, sent.not_before))
    Run-IsSending s _ _ v (opens t h packet r) =
        let (w, up) = Run-IsSending s t h v r in
        let got = (open_packet-IsReceived c g t packet).same_tx in
        (SameTx-IsSending t (open_packet c t packet).0 got w, omega (arith, up, got.same_pn))

    note-Represents :
        (expected : ℕ) (t : Session Keys) (h : List ℕ) (r : Outcome Keys OpenedPacket)
        → Represents expected t.replay_window h
        → Distinct h
        → IsReceived c g t r
        → Represents expected r.0.replay_window (note r.1 h) × Distinct (note r.1 h)
    note-Represents expected t h (t', ok o) w d i =
        let passed = i.accepted o refl in
        let (same, next) = check_and_update-Agrees expected t.replay_window h o.pn w in
        let fresh : verdict expected h o.pn ≡ ok tt = sym same ∙ ap (λ x. x.1) passed in
        let moved : Represents expected t'.replay_window (o.pn ∷ h) =
          subst (λ r. Represents expected r.0 (record_if r.1 o.pn h)) passed next in
        (moved, (verdict_ok_fresh expected h o.pn fresh, d))
    note-Represents expected t h (t', err e) w d i =
        (let keep = i.refused (λ o q. cc q) in rw keep w, d)
    note-Represents expected t h (t', panic) w d i =
        (let keep = i.refused (λ o q. cc q) in rw keep w, d)

    pub Run-Represents :
        (expected : ℕ) (s t : Session Keys) (h : List ℕ)
        → IsSending c g start first phase s
        → Represents expected s.replay_window []
        → Run c s t h
        → Represents expected t.replay_window h × Distinct h
    Run-Represents expected s _ _ v w begin = (w, tt)
    Run-Represents expected s _ _ v w (sends t h payload r) =
        let (now, d) = Run-Represents expected s t h v w r in
        let sent = send-IsSent c g start first phase t payload (Run-IsSending s t h v r).0 in
        (rw sent.same_window now, d)
    Run-Represents expected s _ _ v w (opens t h packet r) =
        let (now, d) = Run-Represents expected s t h v w r in
        note-Represents expected t h (open_packet c t packet) now d
          (open_packet-IsReceived c g t packet)
