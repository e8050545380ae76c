-- ===== src/Comms/System/Rules.antt =====
-- The engine under what the tasks call.
use bramka_setup.Base.{ℕ, ◌+◌, slice, of_branches, arith, Bool, List, Bytes, length, ◌==◌, not, ltb}
use bramka_setup.Shared.NodeProtocol.{
  MessageStruct, sizeof_node_frame, sizeof_message, sizeof_pending_ctrl,
}
use bramka_setup.Engine.State.{Engine}
use bramka_setup.Engine.Clock.{set_time}
use bramka_setup.Engine.Nodes.{update_node}
use bramka_setup.Engine.Ruleset.Atomic.{
  IsConsistent, rules_begin-IsConsistent, rules_item-IsConsistent, rules_commit-IsConsistent,
}
use bramka_setup.Rpmsg.{Effect, dispatch, get_u32_be}
use bramka_setup.Shared.Protocol.{
  get_u16_be, msg_rule_begin, msg_rule_item, msg_rule_commit, msg_node_cmd, msg_time_sync,
  msg_arm_pending,
}
use bramka_setup.Shared.Automation.{sizeof_rule}
use bramka_setup.Comms.Session.{glue}

set_time-IsConsistent :
    (e : Engine) (now h m s : ℕ) → IsConsistent e → IsConsistent (set_time e now h m s)
unfolding set_time
set_time-IsConsistent e now h m s v = record {
  active_slot = v.active_slot;
  apart = v.apart;
  expected_le = v.expected_le;
  count_le = v.count_le;
}

pub update_node-IsConsistent :
    (e : Engine) (m : MessageStruct) → IsConsistent e → IsConsistent (update_node e m).0
unfolding update_node
update_node-IsConsistent e m v = ground arith

pub dispatch-IsConsistent :
    (e : Engine) (now type seq : ℕ) (p : Bytes)
    → IsConsistent e
    → IsConsistent (dispatch glue e now type seq p).1
unfolding dispatch
dispatch-IsConsistent e now type seq p v =
    let case = of_branches (λ (r : Bool × Engine × List Effect). IsConsistent r.1) in
    let guard = of_branches (λ (r : Engine × List Effect). IsConsistent r.0) in
    case (type == msg_rule_begin) _ _
      (guard (ltb (length p) 2) _ _ v (rules_begin-IsConsistent e (get_u16_be p 0) v))
      (case (type == msg_rule_item) _ _
        (guard (not (length p == 2 + sizeof_rule)) _ _ v
          (rules_item-IsConsistent e (get_u16_be p 0) (slice 2 sizeof_rule p) v))
        (case (type == msg_rule_commit) _ _
          (guard (not (length p == 6)) _ _ v
            (rules_commit-IsConsistent e (get_u16_be p 0) (get_u32_be p 2) v))
          (case (type == msg_node_cmd) _ _
            (guard (length p == sizeof_node_frame) _ _ v
              (guard (length p == sizeof_message) _ _ v v))
            (case (type == msg_time_sync) _ _
              (guard (ltb (length p) 2) _ _ v (set_time-IsConsistent e now _ _ _ v))
              (case (type == msg_arm_pending) _ _
                (guard (not (length p == sizeof_pending_ctrl)) _ _ v v) v)))))
