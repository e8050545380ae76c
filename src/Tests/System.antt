-- ===== src/Tests/System.antt =====
-- The theorems on the M4F's tasks as a system at concrete inputs.
use bramka_setup.Base.{◌≡◌, arith, false, [], ◌∷◌, Bytes}
use bramka_setup.Comms.Loop.{
  Board, Clocks, at_boot, drain_rx, rx_fuel, on_linux_message, comms_iteration,
}
use bramka_setup.Comms.Loop.Drain.{handle_all, emptied, drain_rx_lem}
use bramka_setup.Engine.Evaluate.{EvalScope}
use bramka_setup.Comms.Ring.Queue.{messages}
use bramka_setup.Comms.System.{Step, Worker, Move, Reach}
use bramka_setup.Comms.System.Parts.{IsBoard}
use bramka_setup.Comms.System.Safety.{Reach-IsBoard}
use bramka_setup.Comms.System.Iterations.{Ends, comms_iteration-Ends}
use bramka_setup.Tests.Data.{whole, fresh, core, open_link}

-- a PING and a DATA message
abbrev ping_wire : Bytes
ping_wire = 3 ∷ 0 ∷ 5 ∷ 0 ∷ 0 ∷ 20 ∷ 46 ∷ []

-- two messages in the ring, across its end
abbrev loaded : Board
loaded = record {
  core = core;
  ring = record { slot = λ i. ping_wire; head = 1; tail = 3 };
  shutdown = false;
  shutdown_core = 0;
  live = 6;
  stage = 5;
  tick_count = 2;
  last_tick = 2000000;
}

drain_rx_lem_example :
    drain_rx open_link (λ k. k) rx_fuel 0 loaded
    ≡ emptied loaded (handle_all open_link (λ k. k) 0 (ping_wire ∷ ping_wire ∷ []) core)
drain_rx_lem_example = drain_rx_lem open_link (λ k. k) loaded (omega arith, omega arith)

-- a PING that comes while the ENGINE task is at the start of an evaluation
abbrev pinged : Board
pinged = on_linux_message ping_wire 1024 (at_boot fresh 0)

abbrev evaluating : Worker
evaluating = Worker.entering EvalScope.eval_time

abbrev spoken : Reach open_link whole (at_boot fresh 0) Worker.waiting pinged evaluating
spoken =
    Reach.move (Reach.move Reach.start (Move.timeout (at_boot fresh 0)))
      (Move.other (Step.arrive ping_wire 1024 (at_boot fresh 0)))

Reach-IsBoard_example : IsBoard pinged
Reach-IsBoard_example = Reach-IsBoard open_link whole fresh 0 pinged evaluating spoken

abbrev clocks : Clocks
clocks = record { rx = λ k. k; outbox = 10; tick = 20; retries = 30 }

comms_iteration-Ends_example :
    Ends open_link whole fresh 0 evaluating
      (messages pinged.ring)
      (comms_iteration open_link clocks pinged)
comms_iteration-Ends_example =
    comms_iteration-Ends open_link whole fresh 0 clocks pinged evaluating spoken
