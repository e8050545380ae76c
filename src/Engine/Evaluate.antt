-- ===== src/Engine/Evaluate.antt =====
-- engine.c, `rule_matches_scope` and `engine_evaluate`.
pub mod Firing
pub mod Dedup
use bramka_setup.Base.{
  ℕ, zero, suc, ◌+◌, ◌*◌, Bool, true, false, not, ◌&&◌, ◌||◌, Option, none, some, List, [], ◌∷◌,
  ◌++◌, if◌then◌else◌, ◌==◌, Bytes, u8,
}
use bramka_setup.Shared.Automation.{
  AutomationRule, RuleAction, condition_count, condition, action, condition_type, action_type,
  action_addr, action_value, action_message, cond_time, action_set_relay, action_send_message,
}
use bramka_setup.Shared.NodeProtocol.{
  MessageStruct, message, node_solar_controller, cmd_turn_pump_on_off, cmd_send_text_msg,
}
use bramka_setup.Engine.State.{NodeRec, Engine, Fired}
use bramka_setup.Engine.Nodes.{Float32, float_half}
use bramka_setup.Engine.Clock.{wall_now_rounded}
use bramka_setup.Engine.Conditions.{condition_ok}

pub data EvalScope : Type 0 where
  eval_time eval_node : EvalScope

-- the first loop of `rule_matches_scope`: whether one of the conditions `c`, `c + 1`, ... (`k` of
-- them) is or is not a COND_TIME
unfoldable pub any_condition : (ℕ → Bool) → AutomationRule → ℕ → ℕ → Bool
any_condition p r c zero = false
any_condition p r c (suc k) = p (condition_type (condition r c)) || any_condition p r (suc c) k

abbrev pub is_time : ℕ → Bool
is_time t = t == cond_time

abbrev pub is_data : ℕ → Bool
is_data t = not (t == cond_time)

unfoldable pub rule_matches_scope : AutomationRule → EvalScope → Bool
rule_matches_scope r eval_time =
    any_condition is_time r 0 (condition_count r) || condition_count r == 0
rule_matches_scope r eval_node = any_condition is_data r 0 (condition_count r)

-- `(value >= 0.5f) ? 1u : 0u`
abbrev pub wanted_state : Float32 → RuleAction → ℕ
wanted_state fl ra = if fl.le float_half (action_value ra) then 1 else 0

-- the relay dedup: the target already reports the wanted state
abbrev pub relay_satisfied : Float32 → (ℕ → NodeRec) → RuleAction → Bool
relay_satisfied fl node ra =
    action_type ra == action_set_relay
    && (tgt.type == node_solar_controller && u8 tgt.d.w7 == wanted_state fl ra)
  where
    tgt : NodeRec
    tgt = node (action_addr ra)

-- When the platform's clock is read during one pass: at the dedup, and at condition `c` of
-- rule `i`.
pub record Readings : Type 0 where
  pub tick : ℕ
  pub at : ℕ → ℕ → ℕ

-- the AND loop over the conditions `c`, `c + 1`, ... (`k` of them)
unfoldable pub conditions_met : Float32 → Engine → (ℕ → ℕ) → AutomationRule → ℕ → ℕ → Bool
conditions_met fl e now r c zero = true
conditions_met fl e now r c (suc k) =
    condition_ok fl e (now c) (condition r c) && conditions_met fl e now r (suc c) k

-- C `strncpy` of `n` bytes, and `strlen`
unfoldable pub strncpy : ℕ → Bytes → Bytes
strncpy zero src = []
strncpy (suc n) [] = 0 ∷ strncpy n []
strncpy (suc n) (b ∷ src) = b ∷ strncpy n (if b == 0 then [] else src)

unfoldable pub strlen : Bytes → ℕ
strlen [] = 0
strlen (b ∷ bs) = if b == 0 then 0 else suc (strlen bs)

-- the text of the message: 29 bytes of `strncpy` and the terminator
abbrev pub text_of : RuleAction → Bytes
text_of ra = strncpy 29 (action_message ra) ++ 0 ∷ []

-- the message for a rule whose conditions are met; none for an unknown action type
unfoldable pub build_action : Float32 → (ℕ → NodeRec) → RuleAction → Option MessageStruct
unfolding strncpy strlen
build_action fl node ra =
    if action_type ra == action_set_relay
    then some (message addr (node addr).type cmd_turn_pump_on_off 5 (wanted_state fl ra ∷ []))
    else if action_type ra == action_send_message
    then some (
        message addr (node addr).type cmd_send_text_msg (u8 (4 + strlen (text_of ra) + 1))
          (text_of ra))
    else none
  where
    addr : ℕ
    addr = action_addr ra

-- one round of the rule loop: a `continue` is none
unfoldable pub evaluate_rule :
    Float32 → Engine → EvalScope → (ℕ → ℕ) → ℕ → AutomationRule → Option Fired
evaluate_rule fl e scope now i r =
    if not (rule_matches_scope r scope)
    then none
    else if relay_satisfied fl e.node (action r)
    then none
    else if not (conditions_met fl e now r 0 (condition_count r))
    then none
    else elim (build_action fl e.node (action r)) [
      | none ↦ none
      | some m ↦
          if e.sink then some (record { msg = m; rule_index = i; action = action r }) else none
    ]

abbrev pub cons_some {ℓ} : {A : Type ℓ} → Option A → List A → List A
cons_some none xs = xs
cons_some (some x) xs = x ∷ xs

-- the rule loop from index `i`, `k` rules to go
unfoldable pub evaluate_from : Float32 → Engine → EvalScope → Readings → ℕ → ℕ → List Fired
evaluate_from fl e scope rd i zero = []
evaluate_from fl e scope rd i (suc k) =
    cons_some (evaluate_rule fl e scope (rd.at i) i (e.rules e.active i))
      (evaluate_from fl e scope rd (suc i) k)

abbrev pub run_rules : Float32 → Engine → EvalScope → Readings → List Fired
run_rules fl e scope rd = evaluate_from fl e scope rd 0 (e.count e.active)

-- the dedup on the wall minute, after which the rules run unless the minute repeats
abbrev pub same_minute : Option ℕ → ℕ → Bool
same_minute none m = false
same_minute (some l) m = l == m

abbrev pub time_pass : Float32 → Engine → Readings → Option (ℕ × ℕ) → Engine × List Fired
time_pass fl e rd none = (e, run_rules fl e eval_time rd)
time_pass fl e rd (some (h, m)) =
    let cur_min = h * 60 + m in
    let e' = record e { last_time_min = some cur_min } in
    if same_minute e.last_time_min cur_min then (e, []) else (e', run_rules fl e' eval_time rd)

-- `engine_evaluate`: the new state and the calls of the action callback, in order
unfoldable pub evaluate : Float32 → Engine → EvalScope → Readings → Engine × List Fired
evaluate fl e eval_time rd = time_pass fl e rd (wall_now_rounded e rd.tick)
evaluate fl e eval_node rd = (e, run_rules fl e eval_node rd)
