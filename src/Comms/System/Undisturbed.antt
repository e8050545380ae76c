-- ===== src/Comms/System/Undisturbed.antt =====
-- The ENGINE task's own steps, one after the other, are its iteration.
use bramka_setup.Base.{
  ℕ, zero, suc, ◌+◌, ◌*◌, ◌≡◌, refl, sym, subst, arith, Bool, true, false, Option, none, some, List,
  [], ◌∷◌, if◌then◌else◌, ◌==◌,
}
use bramka_setup.Shared.NodeProtocol.{NodeFrame, frame_msg, msg_type}
use bramka_setup.Engine.State.{Engine, Fired}
use bramka_setup.Engine.Nodes.{Float32, update_node}
use bramka_setup.Engine.Clock.{wall_now_rounded}
use bramka_setup.Engine.Evaluate.{
  EvalScope, Readings, evaluate_rule, evaluate_from, evaluate, time_pass, same_minute, cons_some,
  run_rules,
}
use bramka_setup.Comms.Slots.{Link}
use bramka_setup.Comms.Session.{OutboxItem, queue_send, time_resync}
use bramka_setup.Comms.Tasks.{outbox_depth, sink_all, evaluate_into, engine_iteration}
use bramka_setup.Comms.Loop.{Board}
use bramka_setup.Comms.System.{Worker, Move, Reach, with_outbox, with_engine}
use EvalScope.{eval_time, eval_node}
use Worker.{waiting, holding, entering, gating, looping}
use Move.{
  take, timeout, resync, tell, fold, enter, count, data_rules, no_time, repeated, minute, rule,
  finish,
}
use Reach.{start, move}

sink_all-cons_some :
    (o : Option Fired) (fs : List Fired) (q : List OutboxItem)
    → sink_all (cons_some o fs) q ≡ sink_all fs (sink_all (cons_some o []) q)
unfolding sink_all
sink_all-cons_some none fs q = refl
sink_all-cons_some (some f) fs q = refl

module _ (link : Link) (fl : Float32) where
  join :
      (a b : Board) (v w : Worker) (c : Board) (x : Worker)
      → Reach link fl a v b w
      → Reach link fl b w c x
      → Reach link fl a v c x
  join a b v w c x r start = r
  join a b v w c x r (move s m) = move (join a b v w _ _ r s) m

  -- the rule loop
  looped :
      (s : EvalScope) (rd : Readings) (n i k : ℕ) (b : Board)
      → i + k ≡ n
      → let e = b.core.engine in
        Reach link fl b
          (looping s e.active n i)
          (with_outbox (sink_all (evaluate_from fl e s rd i k) b.core.outbox) b)
          waiting
  unfolding evaluate_from sink_all
  looped s rd n i zero b h = move start (finish s b.core.engine.active n i b (omega (arith, h)))
  looped s rd n i (suc k) b h =
      let e : Engine = b.core.engine in
      let o : Option Fired = evaluate_rule fl e s (rd.at i) i (e.rules e.active i) in
      let b1 : Board = with_outbox (sink_all (cons_some o []) b.core.outbox) b in
      subst (λ q. Reach link fl b (looping s e.active n i) (with_outbox q b) waiting)
        (sym (sink_all-cons_some o (evaluate_from fl e s rd (suc i) k) b.core.outbox))
        (join b b1 _ _ _ waiting (move start (rule e (rd.at i) s e.active n i b (omega (arith, h))))
          (looped s rd n (suc i) k b1 (omega (arith, h))))

  entered :
      (s : EvalScope) (b : Board)
      → let e = b.core.engine in
        Reach link fl b (entering s) b (gating s e.active (e.count e.active))
  entered s b = move (move start (enter s b)) (count s b.core.engine.active b)

  -- the gate on the minute, and the rest of the evaluation
  gated :
      (rd : Readings) (b : Board) (h m : ℕ) (t : Bool)
      → wall_now_rounded b.core.engine rd.tick ≡ some (h, m)
      → same_minute b.core.engine.last_time_min (h * 60 + m) ≡ t
      → let e = b.core.engine in
        let e' = record e { last_time_min = some (h * 60 + m) } in
        let r : Engine × List Fired = if t then (e, []) else (e', run_rules fl e' eval_time rd) in
        Reach link fl b
          (entering eval_time)
          (record b { core = record b.core { engine = r.0; outbox = sink_all r.1 b.core.outbox } })
          waiting
  unfolding sink_all
  gated rd b h m true g r =
      let e : Engine = b.core.engine in
      move (entered eval_time b) (repeated e rd.tick h m e.active (e.count e.active) b g r)
  gated rd b h m false g r =
      let e : Engine = b.core.engine in
      let n : ℕ = e.count e.active in
      let b1 : Board = with_engine (record e { last_time_min = some (h * 60 + m) }) b in
      join b b1 _ _ _ waiting (move (entered eval_time b) (minute e rd.tick h m e.active n b g r))
        (looped eval_time rd n 0 n b1 (omega arith))

  timed :
      (rd : Readings) (b : Board) (o : Option (ℕ × ℕ))
      → wall_now_rounded b.core.engine rd.tick ≡ o
      → let r = time_pass fl b.core.engine rd o in
        Reach link fl b
          (entering eval_time)
          (record b { core = record b.core { engine = r.0; outbox = sink_all r.1 b.core.outbox } })
          waiting
  timed rd b none g =
      let e : Engine = b.core.engine in
      let n : ℕ = e.count e.active in
      join b b _ _ _ waiting (move (entered eval_time b) (no_time e rd.tick e.active n b g))
        (looped eval_time rd n 0 n b (omega arith))
  timed rd b (some (h, m)) g =
      gated rd b h m (same_minute b.core.engine.last_time_min (h * 60 + m)) g refl

  -- one evaluation
  evaluated :
      (s : EvalScope) (rd : Readings) (b : Board)
      → Reach link fl b (entering s) (record b { core = evaluate_into fl s rd b.core }) waiting
  unfolding evaluate
  evaluated eval_node rd b =
      let e : Engine = b.core.engine in
      let n : ℕ = e.count e.active in
      join b b _ _ _ waiting (move (entered eval_node b) (data_rules e.active n b))
        (looped eval_node rd n 0 n b (omega arith))
  evaluated eval_time rd b = timed rd b (wall_now_rounded b.core.engine rd.tick) refl

  -- a frame, TIME_RESYNC or not
  handled :
      (rd : Readings) (frame : NodeFrame) (b : Board) (t : Bool)
      → (msg_type (frame_msg frame) == time_resync) ≡ t
      → Reach link fl b
          (holding frame)
          (record b {
            core =
                if t
                then b.core
                else evaluate_into fl eval_node rd (record b.core {
                  outbox = queue_send outbox_depth (OutboxItem.telemetry frame) b.core.outbox;
                  engine = (update_node b.core.engine (frame_msg frame)).0;
                });
          })
          waiting
  handled rd frame b true e = move start (resync frame b e)
  handled rd frame b false e =
      let b1 : Board =
        with_outbox (queue_send outbox_depth (OutboxItem.telemetry frame) b.core.outbox) b in
      let b2 : Board = with_engine (update_node b.core.engine (frame_msg frame)).0 b1 in
      join b b2 _ _ _ waiting (move (move start (tell frame b e)) (fold frame b1))
        (evaluated eval_node rd b2)

  -- From its wait, with a frame in its queue or with none, the ENGINE task gets by its own steps,
  -- when no other comes between them, to the core that `engine_iteration` gives, and to its wait.
  iteration_reached :
      (rd : Readings) (frame : NodeFrame) (q : List NodeFrame) (b : Board)
      → b.core.node_in ≡ frame ∷ q
      → Reach link fl b waiting
          (record b { core = engine_iteration fl rd (some frame) (record b.core { node_in = q }) })
          waiting
  unfolding engine_iteration
  iteration_reached rd frame q b e =
      let b1 : Board = record b { core = record b.core { node_in = q } } in
      join b b1 _ _ _ waiting (move start (take frame q b e))
        (handled rd frame b1 (msg_type (frame_msg frame) == time_resync) refl)

  timeout_reached :
      (rd : Readings) (b : Board)
      → Reach link fl b waiting (record b { core = engine_iteration fl rd none b.core }) waiting
  unfolding engine_iteration
  timeout_reached rd b = join b b _ _ _ waiting (move start (timeout b)) (evaluated eval_time rd b)
