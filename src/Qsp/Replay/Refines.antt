-- ===== src/Qsp/Replay/Refines.antt =====
-- `check_and_update` implements the specification by histories.
-- A first packet may be too old, where docs/protocol/udp-qsp.md, section 7, has it always accepted.
use mathlib.Core.List.{List, [], ◌∷◌}
use native.Mathlib.Decide.{dec_lt, dec_le}
use slt.Prelude.{le→leb, lt→ltb}
use slt.Prelude.{ℕ, ◌+◌, ◌-◌, ◌%◌, ◌≤◌, ◌<◌, max, ◌≡◌, refl, sym, ap, ap₂, ◌∙◌, arith}
use slt.Prelude.{false, none, some, ◌==◌, ltb, leb}
use slt.Prelude.{replicate, Result, ok, Bool-cases, inl, inr}
use slt.Qsp.Replay.{ReplayError, ReplayWindow, new, is_set, set_bit}
use slt.Qsp.Replay.{fill_zero, slide, first_packet, newer_packet, older_packet}
use slt.Qsp.Replay.{check_and_update}
use slt.Qsp.Replay.Bitmap.{bit_at-replicate}
use slt.Qsp.Replay.Bitmap.{is_set-bit_at}
use slt.Qsp.Replay.History.{mem, top, verdict, verdicts, outcomes, record_if}
use slt.Qsp.Replay.History.{mem→le-top}
use slt.Qsp.Replay.Slide.{Tracks, bool_digit_one, set_bit-Tracks, slide-Tracks}

-- The state of the code after the numbers `h` were accepted.
abbrev pub Represents : ℕ → ReplayWindow → List ℕ → Type 0
Represents expected w [] = (w.initial_expected ≡ expected) × (w.largest_pn ≡ none)
Represents expected w (q ∷ h) =
    (w.largest_pn ≡ some (top (q ∷ h))) × Tracks w.bits (top (q ∷ h)) (q ∷ h)

empty-Tracks : (pn : ℕ) → Tracks (replicate 16 0) pn []
empty-Tracks pn = record {
  full = refl;
  inside = λ p a b. bit_at-replicate (p % 1024);
  above = λ p a b. bit_at-replicate p;
}

-- One call: the outcome is the specification's, and the new state represents the new history.
abbrev pub Agrees : ℕ → List ℕ → ℕ → ReplayWindow × Result ReplayError (Unit {0}) → Type 0
Agrees expected h pn out =
    (out.1 ≡ verdict expected h pn) × Represents expected out.0 (record_if out.1 pn h)

first_packet-Agrees :
    (expected : ℕ) (w : ReplayWindow) (pn : ℕ)
    → Represents expected w []
    → Agrees expected [] pn (first_packet w pn)
unfolding first_packet
first_packet-Agrees expected w pn (e, n) = elim (Bool-cases (ltb pn expected)) [
  | inl early ↦ rw (same, early) (refl, (e, n))
  | inr fine ↦ rw (same, fine) (refl, (kept, tracks))
]
  where
    same : ltb pn w.initial_expected ≡ ltb pn expected
    same = ap (ltb pn) e

    start : ReplayWindow
    start = record (fill_zero w) { largest_pn = some pn }

    kept : (set_bit start pn).largest_pn ≡ some (max pn 0)
    kept = unfold set_bit in ap some (omega arith)

    tracks : Tracks (set_bit start pn).bits (max pn 0) (pn ∷ [])
    tracks =
        let e : max pn 0 ≡ pn = omega arith in
        rw e (
          set_bit-Tracks start pn pn [] (unfold fill_zero in empty-Tracks pn) (omega arith)
            (omega arith))

newer_packet-Agrees :
    (expected : ℕ) (w : ReplayWindow) (q pn : ℕ) (h : List ℕ)
    → Tracks w.bits (top (q ∷ h)) (q ∷ h)
    → top (q ∷ h) < pn
    → Agrees expected (q ∷ h) pn (newer_packet w (top (q ∷ h)) pn)
unfolding newer_packet
newer_packet-Agrees expected w q pn h t newer = (sym accepts, (largest, tracks))
  where
    moved : ReplayWindow
    moved = record (slide w (top (q ∷ h)) pn) { largest_pn = some pn }

    accepts : verdict expected (q ∷ h) pn ≡ ok tt
    accepts = ground (arith, mem→le-top pn (q ∷ h))

    grown : top (pn ∷ q ∷ h) ≡ pn
    grown = omega arith

    largest : (set_bit moved pn).largest_pn ≡ some (top (pn ∷ q ∷ h))
    largest = unfold set_bit in ap some (sym grown)

    tracks : Tracks (set_bit moved pn).bits (top (pn ∷ q ∷ h)) (pn ∷ q ∷ h)
    tracks = rw grown (
        set_bit-Tracks moved pn pn (q ∷ h)
          (slide-Tracks w (top (q ∷ h)) pn (q ∷ h) t (omega arith) newer) (omega arith)
          (omega arith))

older_packet-Agrees :
    (expected : ℕ) (w : ReplayWindow) (q pn : ℕ) (h : List ℕ)
    → w.largest_pn ≡ some (top (q ∷ h))
    → Tracks w.bits (top (q ∷ h)) (q ∷ h)
    → pn ≤ top (q ∷ h)
    → Agrees expected (q ∷ h) pn (older_packet w (top (q ∷ h)) pn)
unfolding older_packet
older_packet-Agrees expected w q pn h e t older = elim (dec_le (pn + 1024) (top (q ∷ h))) [
  | yes far ↦
      rw (le→leb 1024 (top (q ∷ h) - pn) (omega arith), le→leb (pn + 1024) (top (q ∷ h)) far)
        (refl, (e, t))
  | no near ↦
      let reach : top (q ∷ h) < pn + 1024 = omega arith in
      let n : leb 1024 (top (q ∷ h) - pn) ≡ false = ground arith in
      let n' : leb (pn + 1024) (top (q ∷ h)) ≡ false = ground arith in
      elim (Bool-cases (mem pn (q ∷ h))) [
        | inl seen ↦ rw (n, n', tested reach, seen) (refl, (e, t))
        | inr fresh ↦ rw (n, n', tested reach, fresh) (refl, (largest, tracks reach))
      ]
]
  where
    tested : top (q ∷ h) < pn + 1024 → is_set w pn ≡ mem pn (q ∷ h)
    tested r =
        is_set-bit_at w pn
        ∙ ap (λ n. n == 1) (t.inside pn older r)
        ∙ bool_digit_one (mem pn (q ∷ h))

    grown : top (pn ∷ q ∷ h) ≡ top (q ∷ h)
    grown = omega arith

    largest : (set_bit w pn).largest_pn ≡ some (top (pn ∷ q ∷ h))
    largest = unfold set_bit in e ∙ ap some (sym grown)

    tracks : top (q ∷ h) < pn + 1024 → Tracks (set_bit w pn).bits (top (pn ∷ q ∷ h)) (pn ∷ q ∷ h)
    tracks r = rw grown (set_bit-Tracks w (top (q ∷ h)) pn (q ∷ h) t older r)

-- From any state that represents a history, one call does what the specification says.
pub check_and_update-Agrees :
    (expected : ℕ) (w : ReplayWindow) (h : List ℕ) (pn : ℕ)
    → Represents expected w h
    → Agrees expected h pn (check_and_update w pn)
unfolding check_and_update
check_and_update-Agrees expected w [] pn r =
    rw (r.1, check_and_update) (first_packet-Agrees expected w pn r)
check_and_update-Agrees expected w (q ∷ h) pn (e, t) = elim (dec_lt (top (q ∷ h)) pn) [
  | yes a ↦
      rw (e, lt→ltb (top (q ∷ h)) pn a, check_and_update)
        (newer_packet-Agrees expected w q pn h t a)
  | no a ↦
      let n : ltb (top (q ∷ h)) pn ≡ false = ground arith in
      rw (e, n, check_and_update) (older_packet-Agrees expected w q pn h e t (omega arith))
]

outcomes-eq-verdicts_from :
    (expected : ℕ) (w : ReplayWindow) (h pns : List ℕ)
    → Represents expected w h
    → outcomes w pns ≡ verdicts expected h pns
outcomes-eq-verdicts_from expected w h [] r = refl
outcomes-eq-verdicts_from expected w h (pn ∷ pns) r =
    let (same, next) = check_and_update-Agrees expected w h pn r in
    ap₂ ◌∷◌ same (
      outcomes-eq-verdicts_from expected (check_and_update w pn).0 _ pns next
      ∙ ap (λ v. verdicts expected (record_if v pn h) pns) same)

pub new-Represents : (expected : ℕ) → Represents expected (new expected) []
unfolding new
new-Represents expected = (refl, refl)

-- On every sequence of packet numbers, the replay window gives exactly the outcomes of the
-- specification that remembers all accepted numbers: before the first packet, numbers below the
-- expected one are too old; afterwards a number is too old when it is 1024 or more below the
-- largest, a replay when it is in the history, and accepted otherwise.
pub outcomes-eq-verdicts :
    (expected : ℕ) (pns : List ℕ) → outcomes (new expected) pns ≡ verdicts expected [] pns
outcomes-eq-verdicts expected pns =
    outcomes-eq-verdicts_from expected (new expected) [] pns (new-Represents expected)
