-- ===== src/Tests/EngineRules.antt =====
-- The rule engine's theorems at concrete inputs.
use bramka_setup.Base.{ℕ, ◌<◌, ◌≡◌, refl, ◌↔◌, arith, true, false, some, [], ◌∷◌, get_or}
use bramka_setup.Shared.Automation.{condition_count, condition, action}
use bramka_setup.Shared.NodeProtocol.{message}
use bramka_setup.Engine.State.{Engine, Fired}
use bramka_setup.Engine.Clock.{wall_now, wall_now_rounded}
use bramka_setup.Engine.Evaluate.{
  eval_time, evaluate, evaluate_rule, run_rules, evaluate_from, rule_matches_scope, any_condition,
  conditions_met, build_action,
}
use bramka_setup.Engine.Evaluate.Firing.{In, Due, run_rules-In}
use bramka_setup.Engine.Evaluate.Dedup.{evaluate_same_minute}
use bramka_setup.Engine.Ruleset.{rules_active_count, active_rule}
use bramka_setup.Engine.Ruleset.Atomic.{UploadCall, run_calls, run_calls-SameLive, SameLive}
use bramka_setup.Engine.Ruleset.Upload.{upload, upload_lem}
use bramka_setup.Rpmsg.Push.{push_lem, dispatch_all, push_of, acks}
use bramka_setup.Comms.Session.{glue}
use bramka_setup.Tests.Data.{
  whole, fresh, fresh-IsConsistent, relay_on, on_t1, with_rule, at_half_past, at_start,
}
use UploadCall.{begin, item}

-- the call of the action sink for the rule
abbrev fired : Fired
fired = record { msg = message 0x10 0 2 5 (1 ∷ []); rule_index = 0; action = action relay_on }

run_rules-In_example :
    In fired (run_rules whole with_rule eval_time at_start)
    ↔ ((i : ℕ) × (i < 1) × Due whole with_rule eval_time at_start fired i)
run_rules-In_example = run_rules-In whole with_rule eval_time at_start fired

fires : run_rules whole with_rule eval_time at_start ≡ fired ∷ []
unfolding evaluate_from evaluate_rule rule_matches_scope any_condition conditions_met build_action
    condition_count condition action
fires = refl

no_swap : (run_calls fresh (begin 2 ∷ item 0 relay_on ∷ begin 1 ∷ [])).1 ≡ false
unfolding run_calls
no_swap = refl

run_calls-SameLive_example :
    SameLive fresh (run_calls fresh (begin 2 ∷ item 0 relay_on ∷ begin 1 ∷ [])).0
run_calls-SameLive_example =
    run_calls-SameLive fresh (begin 2 ∷ item 0 relay_on ∷ begin 1 ∷ []) fresh-IsConsistent no_swap

upload_lem_example :
    ((upload fresh (relay_on ∷ on_t1 ∷ [])).1 ≡ true)
    × (rules_active_count (upload fresh (relay_on ∷ on_t1 ∷ [])).0 ≡ 2)
    × ((upload fresh (relay_on ∷ on_t1 ∷ [])).0.building ≡ false)
    × ((i : ℕ)
        → i < 2
        → active_rule (upload fresh (relay_on ∷ on_t1 ∷ [])).0 i
          ≡ get_or (relay_on ∷ on_t1 ∷ []) i [])
upload_lem_example = upload_lem fresh (relay_on ∷ on_t1 ∷ []) (omega arith)

push_lem_example :
    ((dispatch_all glue (λ s. s) fresh 7 (push_of (relay_on ∷ []))).1 ≡ acks 7 3)
    × (rules_active_count (dispatch_all glue (λ s. s) fresh 7 (push_of (relay_on ∷ []))).0 ≡ 1)
    × ((i : ℕ)
        → i < 1
        → active_rule (dispatch_all glue (λ s. s) fresh 7 (push_of (relay_on ∷ []))).0 i
          ≡ get_or (relay_on ∷ []) i [])
push_lem_example = push_lem glue (λ s. s) fresh 7 (relay_on ∷ []) refl (refl, tt) (omega arith)

reads : wall_now_rounded at_half_past 0 ≡ some (12, 30)
unfolding wall_now_rounded wall_now
reads = refl

evaluate_same_minute_example :
    evaluate whole (evaluate whole at_half_past eval_time at_start).0 eval_time at_start
    ≡ ((evaluate whole at_half_past eval_time at_start).0, [])
evaluate_same_minute_example =
    evaluate_same_minute whole at_half_past at_start at_start (12, 30) reads reads

-- an upload of no rules, before its commit
abbrev building : Engine
building = record fresh { building = true; shadow = 1 }
