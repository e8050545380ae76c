-- ===== src/Comms/Tasks.antt =====
-- ipc_rpmsg_echo.c, the ENGINE task's iteration, the action sink, and drainEngineOutbox.
pub mod Delivery
use bramka_setup.Base.{
  ℕ, not, Option, none, some, List, [], ◌∷◌, ◌++◌, if◌then◌else◌, replicate, ◌==◌,
}
use bramka_setup.Shared.NodeProtocol.{NodeFrame, frame_msg, msg_type}
use bramka_setup.Shared.Automation.{action_addr}
use bramka_setup.Engine.State.{Fired}
use bramka_setup.Engine.Nodes.{Float32, update_node}
use bramka_setup.Engine.Evaluate.{EvalScope, Readings, evaluate}
use bramka_setup.Rpmsg.{report_telemetry, report_rule_fired}
use bramka_setup.Comms.Slots.{Comms, Link}
use bramka_setup.Comms.Session.{Core, Out, OutboxItem, glue, perform_all, queue_send, time_resync}
use OutboxItem.{rule_fired, telemetry}
use EvalScope.{eval_time, eval_node}

abbrev pub outbox_depth : ℕ
outbox_depth = 16

-- `engineActionSink`
unfoldable pub engine_action_sink : Fired → List OutboxItem → List OutboxItem
engine_action_sink f q =
    queue_send outbox_depth (rule_fired (replicate 8 0 ++ f.msg) f.rule_index f.action) q

unfoldable pub sink_all : List Fired → List OutboxItem → List OutboxItem
sink_all [] q = q
sink_all (f ∷ fs) q = sink_all fs (engine_action_sink f q)

-- the evaluation of a scope: the calls of the action sink go to the outbox
abbrev pub evaluate_into : Float32 → EvalScope → Readings → Core → Core
evaluate_into fl scope rd k =
    let r = evaluate fl k.engine scope rd in
    record k { engine = r.0; outbox = sink_all r.1 k.outbox }

-- One iteration of `engineTask`: the frame taken from the queue, or none when the wait timed out.
unfoldable pub engine_iteration : Float32 → Readings → Option NodeFrame → Core → Core
engine_iteration fl rd none k = evaluate_into fl eval_time rd k
engine_iteration fl rd (some frame) k =
    if msg_type (frame_msg frame) == time_resync
    then k
    else evaluate_into fl eval_node rd (record k {
      outbox = queue_send outbox_depth (telemetry frame) k.outbox;
      engine = (update_node k.engine (frame_msg frame)).0;
    })

-- one item of `drainEngineOutbox`
unfoldable pub drain_item : Link → ℕ → OutboxItem → Comms → List Out × Comms
drain_item link now (telemetry frame) c = perform_all link now (report_telemetry glue frame) c
drain_item link now (rule_fired frame index action) c =
    let r = perform_all link now (report_rule_fired glue index action) c in
    if not (action_addr action == 0) then (r.0 ++ Out.to_node frame ∷ [], r.1) else r

unfoldable pub drain_items : Link → ℕ → List OutboxItem → Comms → List Out × Comms
drain_items link now [] c = ([], c)
drain_items link now (x ∷ xs) c =
    let r = drain_item link now x c in
    let rest = drain_items link now xs r.1 in (r.0 ++ rest.0, rest.1)

-- `drainEngineOutbox`
abbrev pub drain_engine_outbox : Link → ℕ → Core → List Out × Core
drain_engine_outbox link now k =
    let r = drain_items link now k.outbox k.comms in (r.0, record k { comms = r.1; outbox = [] })
