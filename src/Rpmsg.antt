-- ===== src/Rpmsg.antt =====
-- Gateway/Firmware/M4F/engine_rpmsg.c: the messages from Linux that drive the engine, and the
-- engine's reports to Linux. A callback's calls are the effects, in order.
pub mod Replies
pub mod Push
use bramka_setup.Base.{
  ℕ, ◌+◌, ◌*◌, Bool, true, false, not, List, [], ◌∷◌, ◌++◌, if◌then◌else◌, ◌==◌, ltb, leb, Bytes,
  byte, slice, length, replicate,
}
use bramka_setup.Shared.Protocol.{
  msg_ack, msg_error, msg_rule_begin, msg_rule_item, msg_rule_commit, msg_node_cmd, msg_time_sync,
  msg_arm_pending, msg_node_telemetry, msg_node_state, msg_rule_fired, get_u16_be, put_u16_be,
}
use bramka_setup.Shared.Automation.{RuleAction, sizeof_rule}
use bramka_setup.Shared.NodeProtocol.{
  NodeFrame, PendingCtrl, sizeof_message, sizeof_node_frame, sizeof_pending_ctrl,
}
use bramka_setup.Engine.State.{Engine}
use bramka_setup.Engine.Clock.{set_time}
use bramka_setup.Engine.Ruleset.{rules_begin, rules_item, rules_commit}

-- The calls of the four callbacks.
pub data Effect : Type 0 where
  reply : ℕ → ℕ → Effect
  tx_node : NodeFrame → Effect
  tx_ctrl : PendingCtrl → Effect
  tx_event : ℕ → Bytes → Effect

-- `engine_rpmsg_init`: which callbacks are installed
pub record Glue : Type 0 where
  pub has_tx_event : Bool
  pub has_reply : Bool
  pub has_tx_node : Bool
  pub has_tx_ctrl : Bool

abbrev pub when : Bool → Effect → List Effect
when b x = if b then x ∷ [] else []

abbrev pub ack_if : Glue → ℕ → List Effect
ack_if g seq = when g.has_reply (reply msg_ack seq)

abbrev pub send_error : Glue → ℕ → List Effect
send_error g seq = when g.has_reply (reply msg_error seq)

-- an engine call's result, answered by MSG_ACK or MSG_ERROR
abbrev pub answer : Glue → ℕ → Engine × Bool → Engine × List Effect
answer g seq r = (r.0, if r.1 then ack_if g seq else send_error g seq)

-- The cases of `engine_rpmsg_dispatch`. `payload_len` is the length of the payload, as
-- `protocol_decode` hands them over.
abbrev pub on_rule_begin : Glue → Engine → ℕ → Bytes → Engine × List Effect
on_rule_begin g e seq p =
    if ltb (length p) 2
    then (e, send_error g seq)
    else answer g seq (rules_begin e (get_u16_be p 0))

abbrev pub on_rule_item : Glue → Engine → ℕ → Bytes → Engine × List Effect
on_rule_item g e seq p =
    if not (length p == 2 + sizeof_rule)
    then (e, send_error g seq)
    else answer g seq (rules_item e (get_u16_be p 0) (slice 2 sizeof_rule p))

-- `p[2] << 24 | p[3] << 16 | p[4] << 8 | p[5]`; the operands share no bit
abbrev pub get_u32_be : Bytes → ℕ → ℕ
get_u32_be p i =
    byte p i * 0x100_0000 + byte p (i + 1) * 0x1_0000 + byte p (i + 2) * 0x100 + byte p (i + 3)

abbrev pub on_rule_commit : Glue → Engine → ℕ → Bytes → Engine × List Effect
on_rule_commit g e seq p =
    if not (length p == 6)
    then (e, send_error g seq)
    else answer g seq (rules_commit e (get_u16_be p 0) (get_u32_be p 2))

abbrev pub relay_node : Glue → Engine → ℕ → NodeFrame → Engine × List Effect
relay_node g e seq frame = (e, when g.has_tx_node (tx_node frame) ++ ack_if g seq)

abbrev pub on_node_cmd : Glue → Engine → ℕ → Bytes → Engine × List Effect
on_node_cmd g e seq p =
    if length p == sizeof_node_frame
    then relay_node g e seq p
    else if length p == sizeof_message
    then relay_node g e seq (replicate 8 0 ++ p)
    else (e, send_error g seq)

-- `now` is the reading of the engine's clock.
abbrev pub on_time_sync : Glue → Engine → ℕ → ℕ → Bytes → Engine × List Effect
on_time_sync g e now seq p = if ltb (length p) 2 then (e, send_error g seq) else (
  set_time e now (byte p 0) (byte p 1) (if leb 3 (length p) then byte p 2 else 0),
  ack_if g seq,
)

abbrev pub on_arm_pending : Glue → Engine → ℕ → Bytes → Engine × List Effect
on_arm_pending g e seq p =
    if not (length p == sizeof_pending_ctrl)
    then (e, send_error g seq)
    else (e, when g.has_tx_ctrl (tx_ctrl p) ++ ack_if g seq)

abbrev pub handled : Engine × List Effect → Bool × Engine × List Effect
handled (e, fx) = (true, e, fx)

-- `engine_rpmsg_dispatch`: whether the message was ours, the new engine, the callbacks' calls
unfoldable pub dispatch : Glue → Engine → ℕ → ℕ → ℕ → Bytes → Bool × Engine × List Effect
dispatch g e now type seq p =
    if type == msg_rule_begin
    then handled (on_rule_begin g e seq p)
    else if type == msg_rule_item
    then handled (on_rule_item g e seq p)
    else if type == msg_rule_commit
    then handled (on_rule_commit g e seq p)
    else if type == msg_node_cmd
    then handled (on_node_cmd g e seq p)
    else if type == msg_time_sync
    then handled (on_time_sync g e now seq p)
    else if type == msg_arm_pending
    then handled (on_arm_pending g e seq p)
    else (false, e, [])

-- `engine_rpmsg_report_telemetry`, `engine_rpmsg_report_state`, `engine_rpmsg_report_rule_fired`
unfoldable pub report_telemetry : Glue → NodeFrame → List Effect
report_telemetry g frame = when g.has_tx_event (tx_event msg_node_telemetry frame)

-- the zeroed NodesData stub of 44 bytes
unfoldable pub report_state : Glue → List Effect
report_state g = when g.has_tx_event (tx_event msg_node_state (replicate 44 0))

unfoldable pub report_rule_fired : Glue → ℕ → RuleAction → List Effect
report_rule_fired g index action =
    when g.has_tx_event (tx_event msg_rule_fired (put_u16_be index ++ action))
