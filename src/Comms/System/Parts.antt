-- ===== src/Comms/System/Parts.antt =====
-- What the shared objects of the M4F satisfy, kept by the handlers that work on them.
use bramka_setup.Base.{
  ℕ, ◌≤◌, ◌≡◌, arith, ap, true, not, ◌&&◌, List, [], ◌∷◌, Bytes, length, length-append, leb, ◌==◌,
  of_branches, subst, sub_u64,
}
use bramka_setup.Shared.NodeProtocol.{NodeFrame}
use bramka_setup.Shared.Protocol.{
  decode, Decoded, Message, msg_hello, msg_data, msg_ack, msg_ping, msg_debug_crash, msg_debug_hang,
  msg_time_sync,
}
use bramka_setup.Engine.State.{Fired}
use bramka_setup.Engine.Ruleset.Atomic.{IsConsistent}
use bramka_setup.Rpmsg.{dispatch}
use bramka_setup.Comms.Slots.{Comms, Link}
use bramka_setup.Comms.Session.{
  Core, Out, Outcome, OutboxItem, glue, nodein_depth, queue_send, handle_message,
  handle_linux_message, is_control, wake,
}
use bramka_setup.Comms.Ring.{next_index, linux_msg_callback, has_message}
use bramka_setup.Comms.Ring.Queue.{IsRing, advance_lem}
use bramka_setup.Comms.Tasks.{outbox_depth, engine_action_sink, sink_all}
use bramka_setup.Comms.Loop.{
  Board, Progress, with_message, on_linux_message, ipc_rp_mbox_callback, handled, do_periodic_tick,
}
use bramka_setup.Comms.System.Slots.{IsComms, with_counters, perform_all-IsComms, release-IsComms}
use bramka_setup.Comms.System.Rules.{dispatch-IsConsistent}

-- The table of pending messages, the engine's double buffer, and the two queues between the tasks.
pub record IsCore (k : Core) : Type 0 where
  pub comms : IsComms k.comms
  pub engine : IsConsistent k.engine
  pub node_in : length k.node_in ≤ nodein_depth
  pub outbox : length k.outbox ≤ outbox_depth

-- ... and the receive ring.
pub record IsBoard (b : Board) : Type 0 where
  pub core : IsCore b.core
  pub ring : IsRing b.ring

pub length-queue_send {ℓ} :
    {A : Type ℓ} (n : ℕ) (a : A) (q : List A) → length q ≤ n → length (queue_send n a q) ≤ n
length-queue_send n a q h = ground (arith, length-append q (a ∷ []))

-- An outcome that goes on leaves such a core.
abbrev pub Leaves : Outcome → Type 0
Leaves (Outcome.running outs k) = IsCore k
Leaves Outcome.crashed = Unit
Leaves Outcome.hung = Unit

pub with_comms : (k : Core) (c : Comms) → IsComms c → IsCore k → IsCore (record k { comms = c })
with_comms k c hc h = record {
  comms = hc;
  engine = h.engine;
  node_in = h.node_in;
  outbox = h.outbox;
}

pub with_input :
    (k : Core) (q : List NodeFrame)
    → length q ≤ nodein_depth
    → IsCore k
    → IsCore (record k { node_in = q })
with_input k q hq h = record { comms = h.comms; engine = h.engine; node_in = hq; outbox = h.outbox }

handle_message-Leaves :
    (link : Link) (now : ℕ) (m : Message) (k : Core)
    → IsCore k
    → Leaves (handle_message link now m k)
unfolding handle_message
handle_message-Leaves link now m k h =
    let case = of_branches Leaves in
    let c = h.comms in
    let d = dispatch glue k.engine now m.type m.seq m.payload in
    case (m.type == msg_hello) _ _ (with_comms k _ (with_counters k.comms _ 0 0 (omega arith) c) h)
      (case (m.type == msg_data) _ _
        (case (not (k.comms.their_last_seq == 0) && leb m.seq k.comms.their_last_seq) _ _ h
          (with_comms k _ (with_counters k.comms _ m.seq _ c.my_seq_top c) h))
        (case (m.type == msg_ack) _ _ (with_comms k _ (release-IsComms m.seq k.comms c) h) (
          case (m.type == msg_ping) _ _ h (
            case (is_control m.type) _ _
              (record {
                comms = perform_all-IsComms link now d.2 k.comms c;
                engine = dispatch-IsConsistent k.engine now m.type m.seq m.payload h.engine;
                node_in =
                    of_branches (λ (q : List NodeFrame). length q ≤ nodein_depth)
                      (m.type == msg_time_sync) _ _
                      (length-queue_send nodein_depth wake k.node_in h.node_in) h.node_in;
                outbox = h.outbox;
              })
              (case (m.type == msg_debug_crash) _ _ tt
                (case (m.type == msg_debug_hang) _ _ tt h))))))

pub handle_linux_message-Leaves :
    (link : Link) (now : ℕ) (bytes : Bytes) (k : Core)
    → IsCore k
    → Leaves (handle_linux_message link now bytes k)
unfolding handle_linux_message
handle_linux_message-Leaves link now bytes k h = decoded (decode bytes)
  where
    decoded :
        (d : Decoded)
        → Leaves (elim d [
          | Decoded.err e ↦ Outcome.running [] k
          | Decoded.ok m ↦ handle_message link now m k
        ])
    decoded (Decoded.err e) = h
    decoded (Decoded.ok m) = handle_message-Leaves link now m k h

pub handled-IsBoard :
    (o : Outcome) (outs : List Out) (b b' : Board)
    → Leaves o
    → IsRing b.ring
    → has_message b.ring ≡ true
    → handled o b ≡ Progress.going outs b'
    → IsBoard b'
handled-IsBoard (Outcome.running more k) outs b b' l r m e =
    subst IsBoard (goes e) (record { core = l; ring = ((advance_lem b.ring r).0 m).0 })
  where
    board_of : Progress → Board → Board
    board_of (Progress.going outs b) d = b
    board_of Progress.crashed d = d
    board_of Progress.hung d = d
    board_of Progress.unfinished d = d

    goes : {c d : Board} {xs ys : List Out} → Progress.going xs c ≡ Progress.going ys d → c ≡ d
    goes {c} e = ap (λ p. board_of p c) e
handled-IsBoard Outcome.crashed outs b b' l r m e = absurd (ground arith)
handled-IsBoard Outcome.hung outs b b' l r m e = absurd (ground arith)

pub sink_all-bound :
    (fs : List Fired) (q : List OutboxItem)
    → length q ≤ outbox_depth
    → length (sink_all fs q) ≤ outbox_depth
unfolding sink_all engine_action_sink
sink_all-bound [] q h = h
sink_all-bound (f ∷ fs) q h = sink_all-bound fs _ (length-queue_send outbox_depth _ q h)

pub on_linux_message-IsBoard :
    (bytes : Bytes) (remote : ℕ) (b : Board) → IsBoard b → IsBoard (on_linux_message bytes remote b)
unfolding on_linux_message linux_msg_callback
on_linux_message-IsBoard bytes remote b h =
    of_branches (λ o. IsBoard (with_message o b)) (next_index b.ring.head == b.ring.tail) _ _ h
      (record {
        core =
            with_comms b.core _
              (with_counters b.core.comms remote _ _ h.core.comms.my_seq_top h.core.comms) h.core;
        ring = (omega arith, h.ring.1);
      })

pub do_periodic_tick-IsBoard : (now : ℕ) (b : Board) → IsBoard b → IsBoard (do_periodic_tick now b)
unfolding do_periodic_tick
do_periodic_tick-IsBoard now b h =
    of_branches IsBoard (leb 1000000 (sub_u64 now b.last_tick)) _ _
      (record { core = h.core; ring = h.ring }) h

pub ipc_rp_mbox_callback-IsBoard :
    (client shutdown core id value : ℕ) (b : Board)
    → IsBoard b
    → IsBoard (ipc_rp_mbox_callback client shutdown core id value b)
unfolding ipc_rp_mbox_callback
ipc_rp_mbox_callback-IsBoard client shutdown core id value b h =
    of_branches IsBoard (id == client && value == shutdown) _ _
      (record { core = h.core; ring = h.ring }) h
