-- ===== src/Engine/Evaluate/Dedup.antt =====
-- What keeps `engine_evaluate` from firing twice: the minute dedup and the node feedback.
use bramka_setup.Base.{ℕ, ◌+◌, ◌*◌, ◌≡◌, none, some, [], arith}
use bramka_setup.Shared.Automation.{
  AutomationRule, action, action_type, action_addr, action_set_relay,
}
use bramka_setup.Shared.NodeProtocol.{
  MessageStruct, node_solar_controller, cmd_send_pump_status, msg_id, msg_type, msg_cmd, pump_state,
}
use bramka_setup.Engine.State.{Engine}
use bramka_setup.Engine.Nodes.{Float32, update_node}
use bramka_setup.Engine.Clock.{wall_now, wall_now_rounded}
use bramka_setup.Engine.Evaluate.{
  EvalScope, eval_time, Readings, evaluate, evaluate_rule, wanted_state, run_rules,
}

-- When the clock with the tick's bias gives the same minute at two time passes, the second one, right
-- after the first, fires nothing and changes nothing.
pub evaluate_same_minute :
    (fl : Float32) (e : Engine) (rd rd' : Readings) (hm : ℕ × ℕ)
    → wall_now_rounded e rd.tick ≡ some hm
    → wall_now_rounded e rd'.tick ≡ some hm
    → let e' = (evaluate fl e eval_time rd).0 in evaluate fl e' eval_time rd' ≡ (e', [])
unfolding evaluate wall_now_rounded wall_now
evaluate_same_minute fl e rd rd' (h, m) p q = ground arith

-- A time pass in another minute than the last one runs the rules and remembers its minute.
pub evaluate_new_minute :
    (fl : Float32) (e : Engine) (rd : Readings) (h m l : ℕ)
    → wall_now_rounded e rd.tick ≡ some (h, m)
    → e.last_time_min ≡ some l
    → (l ≡ h * 60 + m → ⊥)
    → let e' = record e { last_time_min = some (h * 60 + m) } in
      evaluate fl e eval_time rd ≡ (e', run_rules fl e' eval_time rd)
unfolding evaluate
evaluate_new_minute fl e rd h m l p q ne = ground arith

-- A relay rule does not fire right after a pump status from its target node that reports the state
-- the rule wants.
pub evaluate_rule-update_node :
    (fl : Float32) (e : Engine) (scope : EvalScope) (now : ℕ → ℕ) (i : ℕ) (r : AutomationRule)
    (m : MessageStruct)
    → action_type (action r) ≡ action_set_relay
    → msg_id m ≡ action_addr (action r)
    → msg_type m ≡ node_solar_controller
    → msg_cmd m ≡ cmd_send_pump_status
    → pump_state m ≡ wanted_state fl (action r)
    → evaluate_rule fl (update_node e m).0 scope now i r ≡ none
unfolding evaluate_rule update_node
evaluate_rule-update_node fl e scope now i r m t a ty c p = ground arith
