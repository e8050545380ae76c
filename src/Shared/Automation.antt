-- ===== src/Shared/Automation.antt =====
-- Shared/Protocol/automation.h: the rule structs as the bytes that cross RPMsg, with their fields
-- at the offsets of the 4-aligned little-endian layout (TimeCondition 4 B, ParameterCondition
-- 12 B, ParameterDeltaCondition 16 B, RuleCondition 20 B, RuleAction 68 B, AutomationRule 196 B).
use bramka_setup.Base.{ℕ, ◌+◌, ◌*◌, Bytes, byte, slice, le32}

abbrev pub max_rules : ℕ
max_rules = 100

abbrev pub max_conditions : ℕ
max_conditions = 3

-- PARAM_*
abbrev pub param_t1 : ℕ
param_t1 = 0

abbrev pub param_t2 : ℕ
param_t2 = 1

abbrev pub param_t3 : ℕ
param_t3 = 2

abbrev pub param_t4 : ℕ
param_t4 = 3

abbrev pub param_sbuf_temp : ℕ
param_sbuf_temp = 4

abbrev pub param_tcol : ℕ
param_tcol = 5

abbrev pub param_energy_gain : ℕ
param_energy_gain = 6

abbrev pub param_flow_rate : ℕ
param_flow_rate = 7

abbrev pub param_pump_state : ℕ
param_pump_state = 8

abbrev pub param_temperature : ℕ
param_temperature = 9

abbrev pub param_humidity : ℕ
param_humidity = 10

abbrev pub param_batt_mv : ℕ
param_batt_mv = 11

-- COND_*
abbrev pub cond_time : ℕ
cond_time = 0

abbrev pub cond_parameter : ℕ
cond_parameter = 1

abbrev pub cond_parameter_delta : ℕ
cond_parameter_delta = 2

-- OP_*
abbrev pub op_less_than : ℕ
op_less_than = 0

abbrev pub op_more_than : ℕ
op_more_than = 1

abbrev pub op_between : ℕ
op_between = 2

-- ACTION_*
abbrev pub action_set_relay : ℕ
action_set_relay = 0

abbrev pub action_send_message : ℕ
action_send_message = 1

-- TimeCondition
abbrev pub TimeCondition : Type 0
TimeCondition = Bytes

abbrev pub hour_start : TimeCondition → ℕ
hour_start tc = byte tc 0

abbrev pub min_start : TimeCondition → ℕ
min_start tc = byte tc 1

abbrev pub hour_end : TimeCondition → ℕ
hour_end tc = byte tc 2

abbrev pub min_end : TimeCondition → ℕ
min_end tc = byte tc 3

-- ParameterCondition; a float is its bit pattern
abbrev pub ParameterCondition : Type 0
ParameterCondition = Bytes

abbrev pub node_addr : ParameterCondition → ℕ
node_addr pc = byte pc 0

abbrev pub parameter : ParameterCondition → ℕ
parameter pc = byte pc 1

abbrev pub op : ParameterCondition → ℕ
op pc = byte pc 2

abbrev pub threshold_min : ParameterCondition → ℕ
threshold_min pc = le32 pc 4

abbrev pub threshold_max : ParameterCondition → ℕ
threshold_max pc = le32 pc 8

-- ParameterDeltaCondition
abbrev pub ParameterDeltaCondition : Type 0
ParameterDeltaCondition = Bytes

abbrev pub node_addr1 : ParameterDeltaCondition → ℕ
node_addr1 pdc = byte pdc 0

abbrev pub parameter1 : ParameterDeltaCondition → ℕ
parameter1 pdc = byte pdc 1

abbrev pub node_addr2 : ParameterDeltaCondition → ℕ
node_addr2 pdc = byte pdc 2

abbrev pub parameter2 : ParameterDeltaCondition → ℕ
parameter2 pdc = byte pdc 3

abbrev pub delta_op : ParameterDeltaCondition → ℕ
delta_op pdc = byte pdc 4

abbrev pub delta_min : ParameterDeltaCondition → ℕ
delta_min pdc = le32 pdc 8

abbrev pub delta_max : ParameterDeltaCondition → ℕ
delta_max pdc = le32 pdc 12

-- RuleCondition: the type, then the union of the three
abbrev pub RuleCondition : Type 0
RuleCondition = Bytes

abbrev pub condition_type : RuleCondition → ℕ
condition_type rc = byte rc 0

abbrev pub union_u : RuleCondition → Bytes
union_u rc = slice 4 16 rc

-- RuleAction
abbrev pub RuleAction : Type 0
RuleAction = Bytes

abbrev pub action_type : RuleAction → ℕ
action_type ra = byte ra 0

abbrev pub action_addr : RuleAction → ℕ
action_addr ra = byte ra 1

abbrev pub action_value : RuleAction → ℕ
action_value ra = le32 ra 4

abbrev pub action_message : RuleAction → Bytes
action_message ra = slice 4 64 ra

-- AutomationRule
abbrev pub AutomationRule : Type 0
AutomationRule = Bytes

abbrev pub sizeof_rule : ℕ
sizeof_rule = 196

unfoldable pub condition_count : AutomationRule → ℕ
condition_count r = byte r 64

-- `conditions[c]`; a `c` past the third would read on into the action, as the C array does
unfoldable pub condition : AutomationRule → ℕ → RuleCondition
condition r c = slice (68 + 20 * c) 20 r

unfoldable pub action : AutomationRule → RuleAction
action r = slice 128 68 r
