-- ===== src/Qsp/Replay/History.antt =====
-- The replay window as a specification: the list of all packet numbers accepted so far.
use mathlib.Core.List.{List, [], ◌∷◌}
use slt.Prelude.{ℕ, ◌+◌, ◌≤◌, max, ◌≡◌, refl, arith, Bool, true, false, ◌||◌}
use slt.Prelude.{ltb, leb, ◌==◌, if◌then◌else◌, Result, ok, err}
use slt.Qsp.Replay.{ReplayError, replay, too_old, ReplayWindow, check_and_update}

abbrev pub mem : ℕ → List ℕ → Bool
mem pn [] = false
mem pn (q ∷ h) = q == pn || mem pn h

abbrev pub top : List ℕ → ℕ
top [] = 0
top (q ∷ h) = max q (top h)

-- What the window promises for `pn` after the accepted numbers `h`.
abbrev pub verdict : ℕ → List ℕ → ℕ → Result ReplayError (Unit {0})
verdict expected [] pn = if ltb pn expected then err too_old else ok tt
verdict expected (q ∷ h) pn =
    if leb (pn + 1024) (top (q ∷ h))
    then err too_old
    else if mem pn (q ∷ h)
    then err replay
    else ok tt

abbrev pub is_ok : Result ReplayError (Unit {0}) → Bool
is_ok (ok x) = true
is_ok _ = false

abbrev pub record_if : Result ReplayError (Unit {0}) → ℕ → List ℕ → List ℕ
record_if r pn h = if is_ok r then pn ∷ h else h

-- The outcomes for a sequence of arriving numbers, by the specification and by the code.
abbrev pub verdicts : ℕ → List ℕ → List ℕ → List (Result ReplayError (Unit {0}))
verdicts expected h [] = []
verdicts expected h (pn ∷ pns) =
    let r = verdict expected h pn in r ∷ verdicts expected (record_if r pn h) pns

abbrev pub outcomes : ReplayWindow → List ℕ → List (Result ReplayError (Unit {0}))
outcomes w [] = []
outcomes w (pn ∷ pns) = let (w', r) = check_and_update w pn in r ∷ outcomes w' pns

-- The numbers that the code accepts out of a sequence, last first.
abbrev pub accepted : ReplayWindow → List ℕ → List ℕ → List ℕ
accepted w h [] = h
accepted w h (pn ∷ pns) = let (w', r) = check_and_update w pn in accepted w' (record_if r pn h) pns

abbrev pub Distinct : List ℕ → Type 0
Distinct [] = Unit
Distinct (q ∷ h) = (mem q h ≡ false) × Distinct h

pub mem→le-top : (pn : ℕ) (h : List ℕ) → mem pn h ≡ true → pn ≤ top h
mem→le-top pn [] e = ground arith
mem→le-top pn (q ∷ h) e = ground (arith, mem→le-top pn h)

-- The specification never accepts a number twice.
pub verdict_ok_fresh :
    (expected : ℕ) (h : List ℕ) (pn : ℕ) → verdict expected h pn ≡ ok tt → mem pn h ≡ false
verdict_ok_fresh expected [] pn e = refl
verdict_ok_fresh expected (q ∷ h) pn e = ground arith
