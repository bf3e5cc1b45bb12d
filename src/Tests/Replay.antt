-- ===== src/Tests/Replay.antt =====
-- The replay window of slt-core/src/crypto/udp_qsp/session.rs on concrete packet numbers.
use slt.Prelude.{ℕ, ◌≡◌, List, [], ◌∷◌}
use slt.Qsp.Replay.{new}
use slt.Qsp.Replay.History.{outcomes, verdicts, accepted, Distinct}
use slt.Qsp.Replay.Refines.{outcomes-eq-verdicts}
use slt.Qsp.Replay.NoReplay.{accepted-Distinct}

abbrev arrivals : List ℕ
arrivals = 5 ∷ 10 ∷ 10 ∷ 7 ∷ 7 ∷ 2000 ∷ 976 ∷ 977 ∷ []

outcomes-eq-verdicts_example : outcomes (new 6) arrivals ≡ verdicts 6 [] arrivals
outcomes-eq-verdicts_example = outcomes-eq-verdicts 6 arrivals

accepted-Distinct_example : Distinct (accepted (new 6) [] arrivals)
accepted-Distinct_example = accepted-Distinct 6 arrivals
