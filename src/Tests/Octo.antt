-- ===== src/Tests/Octo.antt =====
-- A threshold that is raised past its cap and lowered again.
use asap_sketchlib.Prelude.{◌≤◌, ◌≡◌, List, [], ◌∷◌}
use asap_sketchlib.CountMin.{max_promask}
use asap_sketchlib.Octo.{Call, new_threshold, run_calls, saturated, run_calls-eq-saturated}

abbrev adjustments : List Call
adjustments = Call.raising 200 ∷ Call.lowering 3 ∷ Call.setting 0 ∷ Call.raising 5 ∷ []

run_calls-eq-saturated_example :
    (run_calls adjustments (new_threshold 9) ≡ saturated (Call.setting 9 ∷ adjustments) 1)
    × (1 ≤ run_calls adjustments (new_threshold 9))
    × (run_calls adjustments (new_threshold 9) ≤ max_promask)
run_calls-eq-saturated_example = run_calls-eq-saturated 9 adjustments
