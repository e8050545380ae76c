-- ===== src/Engine/Conditions/Window.antt =====
-- The time condition of engine.c as an interval of minutes of the day.
use bramka_setup.Base.{ℕ, ◌+◌, ◌*◌, ◌≤◌, ◌<◌, ◌≡◌, ◌↔◌, true, false, some, arith}
use bramka_setup.Shared.Automation.{TimeCondition, hour_start, min_start, hour_end, min_end}
use bramka_setup.Engine.State.{Engine}
use bramka_setup.Engine.Clock.{wall_now_rounded}
use bramka_setup.Engine.Conditions.{in_window, evaluate_time_condition}

pub record IsWindow (tc : TimeCondition) : Type 0 where
  pub min_start_lt : min_start tc < 60
  pub min_end_lt : min_end tc < 60

abbrev pub start_of : TimeCondition → ℕ
start_of tc = hour_start tc * 60 + min_start tc

abbrev pub end_of : TimeCondition → ℕ
end_of tc = hour_end tc * 60 + min_end tc

pub in_window_lem :
    (tc : TimeCondition) (h m : ℕ)
    → IsWindow tc
    → m < 60
    → (in_window tc h m ≡ true) ↔ ((start_of tc ≤ h * 60 + m) × (h * 60 + m ≤ end_of tc))
in_window_lem tc h m w hm = ground arith

-- With a clock that reads tick minute (h, m), m below 60, a time condition whose minute fields are
-- below 60 is met exactly from its start to its end, both included.
pub evaluate_time_condition_lem :
    (e : Engine) (now : ℕ) (tc : TimeCondition) (h m : ℕ)
    → wall_now_rounded e now ≡ some (h, m)
    → IsWindow tc
    → m < 60
    → (evaluate_time_condition e now tc ≡ true)
      ↔ ((start_of tc ≤ h * 60 + m) × (h * 60 + m ≤ end_of tc))
unfolding evaluate_time_condition
evaluate_time_condition_lem e now tc h m r w hm = ground (arith, in_window_lem tc h m w hm)

-- A window that crosses midnight is never met.
pub in_window_crossing :
    (tc : TimeCondition) (h m : ℕ)
    → IsWindow tc
    → m < 60
    → end_of tc < start_of tc
    → in_window tc h m ≡ false
in_window_crossing tc h m w hm c = ground arith
