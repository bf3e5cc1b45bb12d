-- ===== src/Qsp/Replay/NoReplay.antt =====
-- What the refinement gives for a whole session: no packet number is accepted twice, and a fresh
-- one that is not too old is never turned away.
use mathlib.Core.List.{List, [], ◌∷◌}
use slt.Prelude.{ℕ, ◌+◌, ◌<◌, ◌≡◌, ◌∙◌, sym, arith, true, false, Result, ok, Bool-cases}
use slt.Prelude.{inl, inr}
use slt.Qsp.Replay.{ReplayError, ReplayWindow, new, check_and_update}
use slt.Qsp.Replay.History.{
  mem, top, verdict, accepted, is_ok, record_if, Distinct, verdict_ok_fresh,
}
use slt.Qsp.Replay.Refines.{Represents, new-Represents, check_and_update-Agrees}

is_ok→ok : (r : Result ReplayError (Unit {0})) → is_ok r ≡ true → r ≡ ok tt
is_ok→ok r e = ground arith

record_if-Distinct :
    (r : Result ReplayError (Unit {0})) (pn : ℕ) (h : List ℕ)
    → Distinct h
    → (r ≡ ok tt → mem pn h ≡ false)
    → Distinct (record_if r pn h)
record_if-Distinct r pn h d fresh = elim (Bool-cases (is_ok r)) [
  | inl yes' ↦ rw yes' (fresh (is_ok→ok r yes'), d)
  | inr no' ↦ rw no' d
]

accepted-Distinct_from :
    (expected : ℕ) (w : ReplayWindow) (h pns : List ℕ)
    → Represents expected w h
    → Distinct h
    → Distinct (accepted w h pns)
accepted-Distinct_from expected w h [] r d = d
accepted-Distinct_from expected w h (pn ∷ pns) r d =
    let (same, next) = check_and_update-Agrees expected w h pn r in
    accepted-Distinct_from expected (check_and_update w pn).0 _ pns next (
      record_if-Distinct (check_and_update w pn).1 pn h d
        (λ e. verdict_ok_fresh expected h pn (sym same ∙ e)))

-- However packet numbers arrive, the replay window accepts each of them at most once: the numbers
-- that it accepts out of any sequence are pairwise distinct.
pub accepted-Distinct : (expected : ℕ) (pns : List ℕ) → Distinct (accepted (new expected) [] pns)
accepted-Distinct expected pns =
    accepted-Distinct_from expected (new expected) [] pns (new-Represents expected) tt

fresh_verdict :
    (expected q : ℕ) (h : List ℕ) (pn : ℕ)
    → mem pn (q ∷ h) ≡ false
    → top (q ∷ h) < pn + 1024
    → verdict expected (q ∷ h) pn ≡ ok tt
fresh_verdict expected q h pn f a = ground arith

-- In a window that represents a history with at least one packet, a number that is not in the
-- history and less than 1024 below the largest accepted one is accepted.
pub check_and_update_fresh :
    (expected : ℕ) (w : ReplayWindow) (q : ℕ) (h : List ℕ) (pn : ℕ)
    → Represents expected w (q ∷ h)
    → mem pn (q ∷ h) ≡ false
    → top (q ∷ h) < pn + 1024
    → (check_and_update w pn).1 ≡ ok tt
check_and_update_fresh expected w q h pn r f a =
    (check_and_update-Agrees expected w (q ∷ h) pn r).0 ∙ fresh_verdict expected q h pn f a
