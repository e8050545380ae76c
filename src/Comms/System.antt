-- ===== src/Comms/System.antt =====
-- The M4F's tasks as one system: ipc_rpmsg_echo.c with the RPMsg and remoteproc callbacks, the COMMS
-- task, the ENGINE task and the SPI task's posts. The COMMS task has the highest priority, so that no
-- task runs inside one of its rounds; it preempts the ENGINE task anywhere, also between two rules
-- and inside one. A callback comes between two rounds here, not inside one.
pub mod Slots
pub mod Rules
pub mod Parts
pub mod Safety
pub mod Iterations
pub mod Undisturbed
use bramka_setup.Base.{
  suc, ◌*◌, ◌<◌, ◌≤◌, ◌==◌, ℕ, ◌+◌, u32, ◌≡◌, Bool, true, false, Option, none, some, List, [], ◌∷◌,
  Bytes,
}
use bramka_setup.Shared.NodeProtocol.{NodeFrame, frame_msg, msg_type}
use bramka_setup.Engine.Nodes.{Float32, update_node}
use bramka_setup.Engine.State.{Engine}
use bramka_setup.Engine.Clock.{wall_now_rounded}
use bramka_setup.Engine.Evaluate.{EvalScope, evaluate_rule, same_minute, cons_some}
use bramka_setup.Comms.Slots.{Link, process_event_retries}
use bramka_setup.Comms.Session.{Core, Out, OutboxItem, nodein_depth, queue_send, time_resync}
use bramka_setup.Comms.Ring.{has_message}
use bramka_setup.Comms.Tasks.{outbox_depth, sink_all, drain_item}
use bramka_setup.Comms.Loop.{
  Board, Progress, on_linux_message, ipc_rp_mbox_callback, handle_front, do_periodic_tick,
}
use EvalScope.{eval_time, eval_node}

-- A step of one of the parties. The COMMS task's loop is taken apart into its rounds, so that a
-- callback or a post can come between any two of them.
pub data Step (link : Link) (fl : Float32) : Board → Board → Type 0 where
  arrive :
      (bytes : Bytes) (remote : ℕ) (b : Board) → Step link fl b (on_linux_message bytes remote b)
  notify :
      (client shutdown core id value : ℕ) (b : Board)
      → Step link fl b (ipc_rp_mbox_callback client shutdown core id value b)
  beat : (b : Board) → Step link fl b (record b { live = u32 (b.live + 1); stage = 1 })
  mark : (n : ℕ) (b : Board) → Step link fl b (record b { stage = n })
  receive :
      (now : ℕ) (outs : List Out) (b b' : Board)
      → has_message b.ring ≡ true
      → handle_front link now b ≡ Progress.going outs b'
      → Step link fl b b'
  drain :
      (now : ℕ) (x : OutboxItem) (q : List OutboxItem) (b : Board)
      → b.core.outbox ≡ x ∷ q
      → Step link fl b (record b {
        core = record b.core { comms = (drain_item link now x b.core.comms).1; outbox = q };
      })
  tick : (now : ℕ) (b : Board) → Step link fl b (do_periodic_tick now b)
  retry :
      (now : ℕ) (b : Board)
      → Step link fl b (record b {
        core = record b.core { comms = (process_event_retries link now b.core.comms).1 };
      })
  spi_post :
      (frame : NodeFrame) (b : Board)
      → Step link fl b (record b {
        core = record b.core { node_in = queue_send nodein_depth frame b.core.node_in };
      })

-- The boards that steps from `b` lead to.
pub data Steps (link : Link) (fl : Float32) (b : Board) : Board → Type 0 where
  here : Steps link fl b b
  after : {c d : Board} → Steps link fl b c → Step link fl c d → Steps link fl b d

-- Where the ENGINE task is: at the wait for its queue; with a frame; with a frame that telemetry has
-- been pushed for; at the start of `engine_evaluate`; there with g_active read into `a`; with also
-- the count read into `n`; and in the rule loop, before rule `i`.
pub data Worker : Type 0 where
  waiting : Worker
  holding : NodeFrame → Worker
  told : NodeFrame → Worker
  entering : EvalScope → Worker
  counting : EvalScope → (a : ℕ) → Worker
  gating : EvalScope → (a n : ℕ) → Worker
  looping : EvalScope → (a n i : ℕ) → Worker

abbrev pub with_outbox : List OutboxItem → Board → Board
with_outbox q b = record b { core = record b.core { outbox = q } }

abbrev pub with_engine : Engine → Board → Board
with_engine e b = record b { core = record b.core { engine = e } }

-- A step of the system: one of the above, or one of the ENGINE task. What the ENGINE task reads while
-- the COMMS task may write it (the rules of the slot `a`, the records, the clock, the last minute)
-- is `seen`, some engine: in C a part of it may be read before such a write and a part after it.
pub data Move (link : Link) (fl : Float32) : Board → Worker → Board → Worker → Type 0 where
  other : {b c : Board} {w : Worker} → Step link fl b c → Move link fl b w c w
  take :
      (frame : NodeFrame) (q : List NodeFrame) (b : Board)
      → b.core.node_in ≡ frame ∷ q
      → Move link fl b waiting (record b { core = record b.core { node_in = q } }) (holding frame)
  timeout : (b : Board) → Move link fl b waiting b (entering eval_time)
  resync :
      (frame : NodeFrame) (b : Board)
      → (msg_type (frame_msg frame) == time_resync) ≡ true
      → Move link fl b (holding frame) b waiting
  tell :
      (frame : NodeFrame) (b : Board)
      → (msg_type (frame_msg frame) == time_resync) ≡ false
      → Move link fl b
          (holding frame)
          (with_outbox (queue_send outbox_depth (OutboxItem.telemetry frame) b.core.outbox) b)
          (told frame)
  fold :
      (frame : NodeFrame) (b : Board)
      → Move link fl b
          (told frame)
          (with_engine (update_node b.core.engine (frame_msg frame)).0 b)
          (entering eval_node)
  enter :
      (s : EvalScope) (b : Board) → Move link fl b (entering s) b (counting s b.core.engine.active)
  count :
      (s : EvalScope) (a : ℕ) (b : Board)
      → Move link fl b (counting s a) b (gating s a (b.core.engine.count a))
  data_rules :
      (a n : ℕ) (b : Board) → Move link fl b (gating eval_node a n) b (looping eval_node a n 0)
  no_time :
      (seen : Engine) (tick a n : ℕ) (b : Board)
      → wall_now_rounded seen tick ≡ none
      → Move link fl b (gating eval_time a n) b (looping eval_time a n 0)
  repeated :
      (seen : Engine) (tick h m a n : ℕ) (b : Board)
      → wall_now_rounded seen tick ≡ some (h, m)
      → same_minute seen.last_time_min (h * 60 + m) ≡ true
      → Move link fl b (gating eval_time a n) b waiting
  minute :
      (seen : Engine) (tick h m a n : ℕ) (b : Board)
      → wall_now_rounded seen tick ≡ some (h, m)
      → same_minute seen.last_time_min (h * 60 + m) ≡ false
      → Move link fl b
          (gating eval_time a n)
          (with_engine (record b.core.engine { last_time_min = some (h * 60 + m) }) b)
          (looping eval_time a n 0)
  rule :
      (seen : Engine) (now : ℕ → ℕ) (s : EvalScope) (a n i : ℕ) (b : Board)
      → i < n
      → Move link fl b
          (looping s a n i)
          (with_outbox
            (sink_all (cons_some (evaluate_rule fl seen s now i (seen.rules a i)) []) b.core.outbox)
            b)
          (looping s a n (suc i))
  finish :
      (s : EvalScope) (a n i : ℕ) (b : Board) → n ≤ i → Move link fl b (looping s a n i) b waiting

-- The boards and places of the ENGINE task that the system's steps from `b` and `w` lead to.
pub data Reach (link : Link) (fl : Float32) (b : Board) (w : Worker) : Board → Worker → Type 0 where
  start : Reach link fl b w b w
  move :
      {c d : Board} {v x : Worker}
      → Reach link fl b w c v
      → Move link fl c v d x
      → Reach link fl b w d x
