-- ===== src/Tests/Paths.antt =====
-- The theorems on whole paths at concrete inputs.
use bramka_setup.Base.{
  ◌-◌, ℕ, zero, suc, ◌+◌, ◌≡◌, refl, arith, Bool, true, false, Option, none, some, List, [], ◌∷◌,
  ◌++◌, Bytes, replicate, inl, inr, take,
}
use bramka_setup.Shared.Protocol.{
  msg_node_cmd, msg_arm_pending, msg_node_telemetry, decode, Decoded,
}
use bramka_setup.Shared.Automation.{condition_count, action}
use bramka_setup.Shared.NodeProtocol.{MessageStruct, message}
use bramka_setup.Rpmsg.{Glue, Effect, dispatch}
use bramka_setup.Rf.{Reception, message_of}
use bramka_setup.Node.{node_receive, uplink_of}
use bramka_setup.Concentrator.Pending.{empty, lookup, find_index}
use bramka_setup.Concentrator.Pending.Lookup.{has_room}
use bramka_setup.Rf.{bytes_eq}
use bramka_setup.Concentrator.Receive.{Uplink, gateway_receive}
use bramka_setup.Concentrator.Transmit.{frame_of}
use bramka_setup.Engine.State.{Fired}
use bramka_setup.Engine.Nodes.{update_node}
use bramka_setup.Engine.Evaluate.{
  EvalScope, evaluate_rule, rule_matches_scope, any_condition, conditions_met, build_action,
}
use bramka_setup.Comms.Tasks.{engine_iteration, drain_engine_outbox}
use bramka_setup.Comms.Session.Replies.{linux_bytes}
use bramka_setup.Spi.Master.{Bus, timed_out, post_cmd, post_ctrl, spi_iteration}
use bramka_setup.Spi.Master.Steps.{at_start}
use bramka_setup.Spi.Slave.{Slave, job_of, slave_iteration}
use bramka_setup.Spi.Slave.Uplinks.{master_receives}
use bramka_setup.Spi.Exchange.{answering, receive_all}
use bramka_setup.Commands.{node_cmd_delivered, arm_pending_delivered}
use bramka_setup.Uplink.{frame_of_chip, uplink_delivered}
use bramka_setup.Control.Identity.{succeeded}
use bramka_setup.Control.Light.{Gpio}
use bramka_setup.Control.Solar.{Floats, Solar, at_boot, on_command}
use bramka_setup.Control.Solar.Pump.{Wake, IsRunning, run_task, run_task-IsRunning}
use bramka_setup.Control.Solar.Loop.{relay_loop}
use bramka_setup.Control.Touch.{relay_toggle}
use bramka_setup.Control.Touch.Polls.{poll_all}
use bramka_setup.Control.Touch.Gestures.{untouched, touch_gesture}
use bramka_setup.Tests.Data.{
  whole, chip, pump_frame, pump_message, node, open_link, core, relay_on, with_rule,
}
use bramka_setup.Tests.Data
use EvalScope.{eval_time}
use Effect.{reply, tx_node, tx_ctrl}

abbrev wired : Glue
wired = record { has_tx_event = true; has_reply = true; has_tx_node = true; has_tx_ctrl = true }

abbrev silent : Bus
silent = record { slave_ready = λ k. false; transfer = timed_out }

abbrev answers : ℕ → Bus
answers i = answering (replicate 128 0)

abbrev slave : Slave
slave = record { spi_queue = []; radio_queue = []; table = empty; tx_seq = 1 }

node_cmd_delivered_example :
    (f : Bytes) × (r : Bytes) × (dispatch wired with_rule 0 msg_node_cmd 7 pump_frame
      ≡ (true, with_rule, tx_node pump_frame ∷ reply 17 7 ∷ []))
    × ((receive_all
          (spi_iteration false answers silent (post_cmd pump_frame at_start).0).0
          slave).radio_queue
        ≡ job_of pump_frame ∷ [])
    × (frame_of 4 pump_frame ≡ some f)
    × (node_receive node f
        ≡ Reception.received (record { reply = r; message = message_of (take 5 pump_message) }))
node_cmd_delivered_example =
    node_cmd_delivered wired with_rule 0 7 pump_frame at_start false (λ i. replicate 128 0) silent
      slave 4 node refl refl (omega arith) refl refl refl refl refl refl

empty-has_room : has_room chip empty ≡ true
unfolding find_index bytes_eq
empty-has_room = refl

arm_pending_delivered_example :
    (dispatch wired with_rule 0 msg_arm_pending 7 (1 ∷ 6 ∷ chip)
      ≡ (true, with_rule, tx_ctrl (1 ∷ 6 ∷ chip) ∷ reply 17 7 ∷ []))
    × (lookup chip
          (receive_all
            (spi_iteration true answers silent (post_ctrl (1 ∷ 6 ∷ chip) at_start).0).0
            slave).table
        ≡ 6)
arm_pending_delivered_example =
    arm_pending_delivered wired with_rule 0 7 6 chip at_start true (λ i. replicate 128 0) silent
      slave refl refl empty-has_room refl refl

abbrev second_try : ℕ → ℕ → Option Bytes
second_try i zero = none
second_try i (suc k) = some (replicate 128 0)

uplink_delivered_example :
    (f : Bytes) × (g : Uplink) × (wire : Bytes) × (rest : List Bytes) × (uplink_of chip 9
        pump_message
      ≡ some f)
    × (gateway_receive empty (replicate 70 0) f ≡ Reception.received g)
    × ((master_receives
          (slave_iteration false second_try (record slave { spi_queue = g.frame ∷ [] })).0
          at_start).node_in
        ≡ frame_of_chip chip pump_message ∷ [])
    × (linux_bytes
          (drain_engine_outbox open_link 50
            (engine_iteration whole Data.at_start (some (frame_of_chip chip pump_message)) core)).0
        ≡ wire ∷ rest)
    × (decode wire
        ≡ Decoded.ok (record {
          type = msg_node_telemetry;
          seq = 1;
          payload = frame_of_chip chip pump_message;
        }))
uplink_delivered_example =
    uplink_delivered empty (replicate 70 0) 9 chip pump_message false second_try slave at_start
      whole Data.at_start open_link 50 core refl refl (omega arith) (omega arith) refl
      (λ j. inr (inl (λ e. absurd (ground arith)))) refl refl (λ w. refl)
      (λ e. absurd (omega (arith, e))) refl

abbrev pins : Gpio
pins = record { level = λ n. n; toggled = λ n. 1 - n }

abbrev floats : Floats
floats = record {
  above_7 = λ t. true;
  below_6 = λ t. false;
  wants_more = λ t f. true;
  wants_less = λ t f. false;
  gain = λ e p t f. e + f;
  to_int = λ e. e;
}

abbrev wakes : List Wake
wakes =
    record { measured = some (λ i. i); received = false; arrived = [] }
    ∷ record { measured = none; received = true; arrived = (succeeded, pump_message) ∷ [] }
    ∷ record { measured = some (λ i. i); received = false; arrived = [] }
    ∷ record { measured = some (λ i. i); received = false; arrived = [] }
    ∷ []

run_task-IsRunning_example :
    IsRunning pins (run_task floats pins wakes [] (at_boot pins 0x10 none (λ i. 0) (replicate 3 0)))
run_task-IsRunning_example = run_task-IsRunning floats pins wakes 0x10 none (λ i. 0) (replicate 3 0)

touch_gesture_example :
    (h : ℕ) × (r : Bool) × (poll_all (replicate 10 1 ++ replicate 5 0) (untouched 80 0 false)
      ≡ (relay_toggle ∷ [], untouched 80 h r))
touch_gesture_example = touch_gesture 10 80 0 false (omega arith) (omega arith)

abbrev fired : Fired
fired = record { msg = message 0x10 0 2 5 (1 ∷ []); rule_index = 0; action = action relay_on }

rule_fires : evaluate_rule whole with_rule eval_time (λ c. 0) 0 relay_on ≡ some fired
unfolding evaluate_rule rule_matches_scope any_condition conditions_met build_action condition_count
    action
rule_fires = refl

abbrev pump : Solar
pump = at_boot pins 0x10 none (λ i. 0) (replicate 3 0)

relay_loop_example :
    (st : MessageStruct) × ((on_command pins succeeded fired.msg pump).relay1 ≡ 1)
    × ((on_command pins succeeded fired.msg pump).radio_queue ≡ st ∷ [])
    × (evaluate_rule whole (update_node with_rule (message_of st)).0 eval_time (λ c. 0) 0 relay_on
        ≡ none)
unfolding action
relay_loop_example =
    relay_loop whole with_rule with_rule eval_time eval_time (λ c. 0) (λ c. 0) 0 0 relay_on fired
      pins succeeded pump refl rule_fires refl refl (omega arith) refl
