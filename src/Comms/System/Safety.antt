-- ===== src/Comms/System/Safety.antt =====
-- What holds of the M4F's shared objects after any steps of its tasks and callbacks.
use bramka_setup.Base.{ℕ, ◌≤◌, arith, ap, true, List, [], length}
use bramka_setup.Shared.NodeProtocol.{frame_msg}
use bramka_setup.Engine.State.{Engine}
use bramka_setup.Engine.Nodes.{Float32}
use bramka_setup.Engine.Evaluate.{evaluate_rule, cons_some}
use bramka_setup.Engine.Ruleset.Atomic.{IsConsistent, init-IsConsistent}
use bramka_setup.Comms.Slots.{Link}
use bramka_setup.Comms.Session.{OutboxItem, nodein_depth}
use bramka_setup.Comms.Ring.{front}
use bramka_setup.Comms.Tasks.{outbox_depth}
use bramka_setup.Comms.Loop.{Board, at_boot, handle_front}
use bramka_setup.Comms.System.Parts.{
  IsBoard, length-queue_send, with_comms, with_input, handle_linux_message-Leaves, handled-IsBoard,
  sink_all-bound, on_linux_message-IsBoard, do_periodic_tick-IsBoard, ipc_rp_mbox_callback-IsBoard,
}
use bramka_setup.Comms.System.{Step, Worker, Move, Reach, with_outbox, with_engine}
use bramka_setup.Comms.System.Slots.{
  start-IsComms, drain_item-IsComms, process_event_retries-IsComms,
}
use bramka_setup.Comms.System.Rules.{update_node-IsConsistent}
use Step.{arrive, notify, beat, mark, receive, drain, tick, retry, spi_post}
use Worker.{waiting}
use Move.{
  other, take, timeout, resync, tell, fold, enter, count, data_rules, no_time, repeated, minute,
  rule, finish,
}
use Reach.{start, move}

Step-IsBoard : {link : Link} {fl : Float32} {b c : Board} → Step link fl b c → IsBoard b → IsBoard c
unfolding handle_front
Step-IsBoard (arrive bytes remote b) h = on_linux_message-IsBoard bytes remote b h
Step-IsBoard (notify client shutdown core id value b) h =
    ipc_rp_mbox_callback-IsBoard client shutdown core id value b h
Step-IsBoard (beat b) h = record { core = h.core; ring = h.ring }
Step-IsBoard (mark n b) h = record { core = h.core; ring = h.ring }
Step-IsBoard {link} {b = b} {c = c} (receive now outs _ _ m e) h =
    handled-IsBoard _ outs b c (handle_linux_message-Leaves link now (front b.ring) b.core h.core)
      h.ring m e
Step-IsBoard {link} (drain now x q b e) h = record {
  core = record {
    comms = drain_item-IsComms link now x b.core.comms h.core.comms;
    engine = h.core.engine;
    node_in = h.core.node_in;
    outbox = omega (arith, h.core.outbox, ap length e);
  };
  ring = h.ring;
}
Step-IsBoard (tick now b) h = do_periodic_tick-IsBoard now b h
Step-IsBoard {link} (retry now b) h = record {
  core =
      with_comms b.core _ (process_event_retries-IsComms link now b.core.comms h.core.comms) h.core;
  ring = h.ring;
}
Step-IsBoard (spi_post frame b) h = record {
  core =
      with_input b.core _ (length-queue_send nodein_depth frame b.core.node_in h.core.node_in)
        h.core;
  ring = h.ring;
}

with_outbox-IsBoard :
    (q : List OutboxItem) (b : Board)
    → length q ≤ outbox_depth
    → IsBoard b
    → IsBoard (with_outbox q b)
with_outbox-IsBoard q b l h = record {
  core = record {
    comms = h.core.comms;
    engine = h.core.engine;
    node_in = h.core.node_in;
    outbox = l;
  };
  ring = h.ring;
}

with_engine-IsBoard :
    (e : Engine) (b : Board) → IsConsistent e → IsBoard b → IsBoard (with_engine e b)
with_engine-IsBoard e b v h = record {
  core = record {
    comms = h.core.comms;
    engine = v;
    node_in = h.core.node_in;
    outbox = h.core.outbox;
  };
  ring = h.ring;
}

Move-IsBoard :
    {link : Link} {fl : Float32} {b c : Board} {v w : Worker}
    → Move link fl b v c w
    → IsBoard b
    → IsBoard c
Move-IsBoard (other s) h = Step-IsBoard s h
Move-IsBoard (take frame q b e) h = record {
  core = with_input b.core q (omega (arith, h.core.node_in, ap length e)) h.core;
  ring = h.ring;
}
Move-IsBoard (timeout b) h = h
Move-IsBoard (resync frame b e) h = h
Move-IsBoard (tell frame b e) h =
    with_outbox-IsBoard _ b
      (length-queue_send outbox_depth (OutboxItem.telemetry frame) b.core.outbox h.core.outbox) h
Move-IsBoard (fold frame b) h =
    with_engine-IsBoard _ b (update_node-IsConsistent b.core.engine (frame_msg frame) h.core.engine)
      h
Move-IsBoard (enter s b) h = h
Move-IsBoard (count s a b) h = h
Move-IsBoard (data_rules a n b) h = h
Move-IsBoard (no_time seen time a n b e) h = h
Move-IsBoard (repeated seen time hh m a n b e r) h = h
Move-IsBoard (minute seen time hh m a n b e r) h =
    let v = h.core.engine in
    with_engine-IsBoard _ b
      (record {
        active_slot = v.active_slot;
        apart = v.apart;
        expected_le = v.expected_le;
        count_le = v.count_le;
      })
      h
Move-IsBoard {fl = fl} (rule seen now s a n i b l) h =
    with_outbox-IsBoard _ b
      (sink_all-bound (cons_some (evaluate_rule fl seen s now i (seen.rules a i)) []) b.core.outbox
        h.core.outbox)
      h
Move-IsBoard (finish s a n i b l) h = h

at_boot-IsBoard : (e : Engine) (now : ℕ) → IsBoard (at_boot e now)
unfolding at_boot
at_boot-IsBoard e now = record {
  core = record {
    comms = start-IsComms;
    engine = init-IsConsistent true true e;
    node_in = omega arith;
    outbox = omega arith;
  };
  ring = (omega arith, omega arith);
}

-- From the start of the COMMS loop with the ENGINE task at its wait, after any sequence of steps:
-- messages and shutdown notices from Linux, the rounds of the COMMS task, posts of the SPI task, and
-- the ENGINE task's own steps, between any two of which the others come, with whatever it sees of the
-- rules and records that the COMMS task writes meanwhile, and whatever the link takes. Then the
-- ring's indices are valid; the two queues are within their depths; the table of pending messages
-- has its 8 slots, and each slot in use holds a sequence number from 1 to 65535, at most MAX_RETRIES
-- retransmissions and a payload of at most 128 bytes; and the engine's double buffer is consistent.
pub Reach-IsBoard :
    (link : Link) (fl : Float32) (e : Engine) (now : ℕ) (b : Board) (w : Worker)
    → Reach link fl (at_boot e now) waiting b w
    → IsBoard b
Reach-IsBoard link fl e now b w r = run r
  where
    run : {b : Board} {w : Worker} → Reach link fl (at_boot e now) waiting b w → IsBoard b
    run start = at_boot-IsBoard e now
    run (move r s) = Move-IsBoard s (run r)
