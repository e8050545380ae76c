-- ===== src/Tests/EngineState.antt =====
-- The theorems on the clock, the time windows and the node records at concrete inputs.
use bramka_setup.Base.{◌+◌, ◌*◌, ◌≤◌, ◌≡◌, refl, ◌↔◌, arith, true, some, [], ◌∷◌}
use bramka_setup.Engine.Clock.{TimeOfDay, wall_now, wall_now_rounded}
use bramka_setup.Engine.Conditions.{evaluate_time_condition}
use bramka_setup.Engine.Conditions.Window.{evaluate_time_condition_lem}
use bramka_setup.Tests.Data.{at_half_past}

abbrev late : TimeOfDay
late = record { hour = 23; minute = 59; second = 57 }

reads : wall_now_rounded at_half_past 0 ≡ some (12, 30)
unfolding wall_now_rounded wall_now
reads = refl

evaluate_time_condition_lem_example :
    (evaluate_time_condition at_half_past 0 (12 ∷ 0 ∷ 13 ∷ 15 ∷ []) ≡ true)
    ↔ ((720 ≤ 12 * 60 + 30) × (12 * 60 + 30 ≤ 795))
evaluate_time_condition_lem_example =
    evaluate_time_condition_lem at_half_past 0 (12 ∷ 0 ∷ 13 ∷ 15 ∷ []) 12 30 reads
      (record { min_start_lt = omega arith; min_end_lt = omega arith }) (omega arith)
