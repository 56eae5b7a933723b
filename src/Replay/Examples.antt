-- ===== src/Replay/Examples.antt =====
-- The theorems of the replay window at concrete packets.
use iot_yk.Base.{◌≡◌, refl, List, [], ◌∷◌, ℕ, true, false}
use iot_yk.Replay.{ReplayCtx, init, run, passed, check}
use iot_yk.Replay.History.{spec_run, Distinct}
use iot_yk.Replay.Refine.{run_refines, passed-Distinct}

abbrev stale : ReplayCtx
stale = record { highest_id = 9; window_bits = 5; initialised = false }

-- A jump, a late packet, both again, one too old, and the reserved id.
abbrev traffic : List ℕ
traffic = 5 ∷ 70 ∷ 69 ∷ 70 ∷ 69 ∷ 5 ∷ 0 ∷ []

run-traffic : run (init stale) traffic ≡ true ∷ true ∷ true ∷ false ∷ false ∷ false ∷ false ∷ []
unfolding run init check
run-traffic = refl

run_refines_example : run (init stale) traffic ≡ spec_run [] traffic
run_refines_example = run_refines stale traffic

passed-Distinct_example : Distinct (passed (init stale) traffic)
passed-Distinct_example = passed-Distinct stale traffic
