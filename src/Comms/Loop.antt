-- ===== src/Comms/Loop.antt =====
-- ipc_rpmsg_echo.c, the loop of the COMMS task (ipc_rpmsg_echo_main), the callbacks that feed it,
-- the periodic tick, and the monitor task. The readings of the clock and what remoteproc notifies
-- are inputs.
pub mod Drain
pub mod Monitor
pub mod Shutdown
pub mod Stops
use bramka_setup.Base.{
  ℕ, zero, suc, ◌+◌, Bool, true, false, ◌&&◌, Option, none, some, List, [], ◌∷◌, ◌++◌,
  if◌then◌else◌, Bytes, leb, ◌==◌, u8, u32, sub_u64,
}
use bramka_setup.Engine.State.{Engine, init}
use bramka_setup.Comms.Slots.{Comms, Link, start, process_event_retries}
use bramka_setup.Comms.Session.{Core, Out, Outcome, to_linux_all, handle_linux_message}
use bramka_setup.Comms.Ring.{Ring, empty, linux_msg_callback, has_message, front, advance}
use bramka_setup.Comms.Tasks.{drain_engine_outbox}

-- The core's objects with gRxRing, gbShutdown and gbShutdownRemotecoreID, gCommsLive and
-- gCommsStage, gTickCount and gLastTickTime.
pub record Board : Type 0 where
  pub core : Core
  pub ring : Ring
  pub shutdown : Bool
  pub shutdown_core : ℕ
  pub live : ℕ
  pub stage : ℕ
  pub tick_count : ℕ
  pub last_tick : ℕ

-- the state in which the loop is entered, at time `now`
unfoldable pub at_boot : Engine → ℕ → Board
at_boot e now = record {
  core = record { comms = start; engine = init true true e; node_in = []; outbox = [] };
  ring = empty;
  shutdown = false;
  shutdown_core = 0;
  live = 0;
  stage = 0;
  tick_count = 0;
  last_tick = now;
}

-- `linuxMsgCallback`: the message goes to the ring and the endpoint is the sender's
abbrev pub with_message : Option (Ring × ℕ) → Board → Board
with_message none b = b
with_message (some (ring, endpoint)) b = record b {
  ring = ring;
  core = record b.core { comms = record b.core.comms { endpoint = endpoint } };
}

unfoldable pub on_linux_message : Bytes → ℕ → Board → Board
on_linux_message bytes remote b = with_message (linux_msg_callback bytes remote b.ring) b

-- `ipc_rp_mbox_callback`; the ids are those of the SDK's header
unfoldable pub ipc_rp_mbox_callback : (client shutdown : ℕ) → ℕ → ℕ → ℕ → Board → Board
ipc_rp_mbox_callback client shutdown remote_core client_id value b =
    if client_id == client && value == shutdown
    then record b { shutdown = true; shutdown_core = u8 remote_core }
    else b

-- What handling a message comes to: the loop goes on, the core is stopped for good, or the fuel is
-- used up.
pub data Progress : Type 0 where
  going : List Out → Board → Progress
  crashed : Progress
  hung : Progress
  unfinished : Progress

abbrev pub sending : List Out → Progress → Progress
sending outs (Progress.going more b) = Progress.going (outs ++ more) b
sending outs Progress.crashed = Progress.crashed
sending outs Progress.hung = Progress.hung
sending outs Progress.unfinished = Progress.unfinished

-- what follows when the loop goes on
abbrev pub and_then : Progress → (Board → Progress) → Progress
and_then (Progress.going outs b) f = sending outs (f b)
and_then Progress.crashed f = Progress.crashed
and_then Progress.hung f = Progress.hung
and_then Progress.unfinished f = Progress.unfinished

-- One round of the RX loop: the message is handled in its slot, then the tail advances.
abbrev pub handled : Outcome → Board → Progress
handled (Outcome.running outs k) b =
    Progress.going outs (record b { core = k; ring = advance b.ring })
handled Outcome.crashed b = Progress.crashed
handled Outcome.hung b = Progress.hung

unfoldable pub handle_front : Link → ℕ → Board → Progress
handle_front link now b = handled (handle_linux_message link now (front b.ring) b.core) b

-- `while (gRxTail != gRxHead)` on fuel, the k-th message handled at the time `clock k`
unfoldable pub drain_rx : Link → (ℕ → ℕ) → ℕ → ℕ → Board → Progress
drain_rx link clock zero k b = Progress.unfinished
drain_rx link clock (suc fuel) k b =
    let next = handle_front link (clock k) b in
    if has_message b.ring
    then and_then next (λ b'. drain_rx link clock fuel (suc k) b')
    else Progress.going [] b

-- fuel: the three messages that the ring holds at most, and the test that finds it empty
abbrev pub rx_fuel : ℕ
rx_fuel = 4

-- `doPeriodicTick`
unfoldable pub do_periodic_tick : ℕ → Board → Board
do_periodic_tick now b =
    if leb 1000000 (sub_u64 now b.last_tick)
    then record b { tick_count = u32 (b.tick_count + 1); last_tick = now }
    else b

-- the readings of the clock in one iteration
pub record Clocks : Type 0 where
  pub rx : ℕ → ℕ
  pub outbox : ℕ
  pub tick : ℕ
  pub retries : ℕ

-- stages 2 to 5
unfoldable pub after_rx : Link → Clocks → Board → List Out × Board
after_rx link t b =
    let o = drain_engine_outbox link t.outbox b.core in
    let b1 = do_periodic_tick t.tick (record b { core = o.1; stage = 3 }) in
    let r = process_event_retries link t.retries b1.core.comms in
    (o.0 ++ to_linux_all r.0, record b1 { core = record b1.core { comms = r.1 }; stage = 5 })

-- One iteration of the loop, up to its delay.
unfoldable pub comms_iteration : Link → Clocks → Board → Progress
comms_iteration link t b =
    and_then (drain_rx link t.rx rx_fuel 0 (record b { live = u32 (b.live + 1); stage = 1 }))
      (λ b'. let r = after_rx link t b' in Progress.going r.0 r.1)
