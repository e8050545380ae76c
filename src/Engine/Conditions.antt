-- ===== src/Engine/Conditions.antt =====
-- engine.c, the tests of one condition.
pub mod Window
use bramka_setup.Base.{ℕ, Bool, true, false, ◌&&◌, ◌||◌, none, some, if◌then◌else◌, ◌==◌, ltb, leb}
use bramka_setup.Shared.Automation.{
  TimeCondition, hour_start, min_start, hour_end, min_end, ParameterCondition, node_addr, parameter,
  op, threshold_min, threshold_max, ParameterDeltaCondition, node_addr1, parameter1, node_addr2,
  parameter2, delta_op, delta_min, delta_max, RuleCondition, condition_type, union_u, cond_time,
  cond_parameter, cond_parameter_delta, op_less_than, op_more_than, op_between,
}
use bramka_setup.Engine.State.{NodeRec, Engine}
use bramka_setup.Engine.Nodes.{Float32, get_node_param}
use bramka_setup.Engine.Clock.{wall_now_rounded}

-- the comparison of a time of day with the window of a condition
abbrev pub in_window : TimeCondition → ℕ → ℕ → Bool
in_window tc h m =
    (ltb (hour_start tc) h || (h == hour_start tc && leb (min_start tc) m))
    && (ltb h (hour_end tc) || (h == hour_end tc && leb m (min_end tc)))

-- `evaluateTimeCondition`, with the clock's reading at the call
unfoldable pub evaluate_time_condition : Engine → ℕ → TimeCondition → Bool
evaluate_time_condition e now tc = elim (wall_now_rounded e now) [
  | none ↦ false
  | some (h, m) ↦ in_window tc h m
]

-- the `switch` on an operator that both value conditions share: `x > y` is `lt y x`
abbrev pub compare_op : Float32 → ℕ → ℕ → ℕ → ℕ → Bool
compare_op fl o lo hi v =
    if o == op_less_than
    then fl.lt v hi
    else if o == op_more_than
    then fl.lt lo v
    else if o == op_between
    then fl.le lo v && fl.le v hi
    else false

-- `evaluateParameterCondition`
unfoldable pub evaluate_parameter_condition : Float32 → ParameterCondition → ℕ → Bool
evaluate_parameter_condition fl pc value =
    compare_op fl (op pc) (threshold_min pc) (threshold_max pc) value

-- `evaluateParameterDeltaCondition`
unfoldable pub evaluate_parameter_delta_condition : Float32 → ParameterDeltaCondition → ℕ → ℕ → Bool
evaluate_parameter_delta_condition fl pdc v1 v2 =
    compare_op fl (delta_op pdc) (delta_min pdc) (delta_max pdc) (fl.sub v1 v2)

-- `g_node[addr].inUse`
abbrev pub reported : (ℕ → NodeRec) → ℕ → Bool
reported node addr = if (node addr).in_use == 0 then false else true

-- COND_PARAMETER and COND_PARAMETER_DELTA: not met while a node has not reported.
unfoldable pub parameter_ok : Float32 → (ℕ → NodeRec) → ParameterCondition → Bool
parameter_ok fl node pc =
    if reported node (node_addr pc)
    then evaluate_parameter_condition fl pc (get_node_param fl node (node_addr pc) (parameter pc))
    else false

unfoldable pub parameter_delta_ok : Float32 → (ℕ → NodeRec) → ParameterDeltaCondition → Bool
parameter_delta_ok fl node pdc =
    if reported node (node_addr1 pdc) && reported node (node_addr2 pdc)
    then evaluate_parameter_delta_condition fl pdc
        (get_node_param fl node (node_addr1 pdc) (parameter1 pdc))
        (get_node_param fl node (node_addr2 pdc) (parameter2 pdc))
    else false

-- the `switch (rc->conditionType)` of `engine_evaluate`
unfoldable pub condition_ok : Float32 → Engine → ℕ → RuleCondition → Bool
condition_ok fl e now rc =
    if condition_type rc == cond_time
    then evaluate_time_condition e now (union_u rc)
    else if condition_type rc == cond_parameter
    then parameter_ok fl e.node (union_u rc)
    else if condition_type rc == cond_parameter_delta
    then parameter_delta_ok fl e.node (union_u rc)
    else false
