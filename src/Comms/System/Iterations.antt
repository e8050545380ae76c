-- ===== src/Comms/System/Iterations.antt =====
-- An iteration of the COMMS loop as steps of the system.
use bramka_setup.Base.{
  ℕ, zero, suc, ◌+◌, u32, ◌≡◌, refl, sym, subst, arith, ap, ◌∙◌, Bool, true, false, List, [], ◌∷◌,
  if◌then◌else◌, Bytes,
}
use bramka_setup.Engine.Nodes.{Float32}
use bramka_setup.Comms.Slots.{Link, process_event_retries}
use bramka_setup.Engine.State.{Engine}
use bramka_setup.Comms.Session.{Out, OutboxItem, Outcome}
use bramka_setup.Comms.Ring.Queue.{IsRing, messages, messages_from, used}
use bramka_setup.Shared.Protocol.{msg_debug_crash, msg_debug_hang}
use bramka_setup.Comms.Loop.Stops.{HasOf, IsStop, handle_all-IsStop}
use bramka_setup.Comms.Loop.Drain.{handle_all, emptied, drain_rx_lem}
use bramka_setup.Comms.System.Safety.{Reach-IsBoard}
use bramka_setup.Comms.Ring.{Ring, has_message}
use bramka_setup.Comms.Tasks.{drain_items, drain_engine_outbox}
use bramka_setup.Comms.Loop.{
  Board, at_boot, Progress, Clocks, sending, and_then, handle_front, drain_rx, rx_fuel,
  do_periodic_tick, after_rx, comms_iteration,
}
use bramka_setup.Comms.System.{Step, Steps, Worker, Move, Reach}
use Step.{beat, mark, receive, drain, tick, retry}
use Worker.{waiting}
use Move.{other}
use Reach.{move}
use Steps.{here, after}

module _ (link : Link) (fl : Float32) where
  -- If the loop goes on, the board it goes on with is reached.
  abbrev Arrives : Board → Progress → Type 0
  Arrives b (Progress.going outs c) = Steps link fl b c
  Arrives b Progress.crashed = Unit
  Arrives b Progress.hung = Unit
  Arrives b Progress.unfinished = Unit

  join : (a b c : Board) → Steps link fl a b → Steps link fl b c → Steps link fl a c
  join a b c r here = r
  join a b c r (after s x) = after (join a b _ r s) x

  Arrives-sending :
      (a b : Board) (outs : List Out) (p : Progress)
      → Steps link fl a b
      → Arrives b p
      → Arrives a (sending outs p)
  Arrives-sending a b outs (Progress.going more c) r h = join a b c r h
  Arrives-sending a b outs Progress.crashed r h = tt
  Arrives-sending a b outs Progress.hung r h = tt
  Arrives-sending a b outs Progress.unfinished r h = tt

  Arrives-and_then :
      (b : Board) (p : Progress) (f : Board → Progress)
      → Arrives b p
      → ((c : Board) → Arrives c (f c))
      → Arrives b (and_then p f)
  Arrives-and_then b (Progress.going outs c) f r h = Arrives-sending b c outs (f c) r (h c)
  Arrives-and_then b Progress.crashed f r h = tt
  Arrives-and_then b Progress.hung f r h = tt
  Arrives-and_then b Progress.unfinished f r h = tt

  handle_front-Arrives :
      (now : ℕ) (b : Board) → has_message b.ring ≡ true → Arrives b (handle_front link now b)
  handle_front-Arrives now b m = step (handle_front link now b) refl
    where
      step : (p : Progress) → handle_front link now b ≡ p → Arrives b p
      step (Progress.going outs c) e = after here (receive now outs b c m e)
      step Progress.crashed e = tt
      step Progress.hung e = tt
      step Progress.unfinished e = tt

  drain_rx-Arrives :
      (clock : ℕ → ℕ) (fuel k : ℕ) (b : Board) → Arrives b (drain_rx link clock fuel k b)
  unfolding drain_rx
  drain_rx-Arrives clock zero k b = tt
  drain_rx-Arrives clock (suc fuel) k b =
      test (has_message b.ring) refl (λ c. drain_rx-Arrives clock fuel (suc k) c)
    where
      test :
          (t : Bool)
          → has_message b.ring ≡ t
          → ((c : Board) → Arrives c (drain_rx link clock fuel (suc k) c))
          → Arrives b (
              if t
              then and_then
                  (handle_front link (clock k) b)
                  (λ b'. drain_rx link clock fuel (suc k) b')
              else Progress.going [] b)
      test true m rest =
          Arrives-and_then b (handle_front link (clock k) b) _ (handle_front-Arrives (clock k) b m)
            rest
      test false m rest = here

  drain_items-Steps :
      (now : ℕ) (q : List OutboxItem) (b : Board)
      → b.core.outbox ≡ q
      → Steps link fl b (record b {
        core = record b.core { comms = (drain_items link now q b.core.comms).1; outbox = [] };
      })
  unfolding drain_items
  drain_items-Steps now [] b e =
      subst (λ q. Steps link fl b (record b { core = record b.core { outbox = q } })) e here
  drain_items-Steps now (x ∷ q) b e =
      join b _ _ (after here (drain now x q b e)) (drain_items-Steps now q _ refl)

  after_rx-Steps : (t : Clocks) (b : Board) → Steps link fl b (after_rx link t b).1
  unfolding after_rx
  after_rx-Steps t b =
      let o = drain_engine_outbox link t.outbox b.core in
      let b1 : Board = record b { core = o.1; stage = 3 } in
      let b2 : Board = do_periodic_tick t.tick b1 in
      let b3 : Board = record b2 {
        core = record b2.core { comms = (process_event_retries link t.retries b2.core.comms).1 };
      } in
      let b0 : Board = record b { core = o.1 } in
      after
        (after
          (after (after (drain_items-Steps t.outbox b.core.outbox b refl) (mark 3 b0))
            (tick t.tick b1))
          (retry t.retries b2))
        (mark 5 b3)

  comms_iteration-Arrives : (t : Clocks) (b : Board) → Arrives b (comms_iteration link t b)
  unfolding comms_iteration
  comms_iteration-Arrives t b =
      let b1 : Board = record b { live = u32 (b.live + 1); stage = 1 } in
      Arrives-and_then b (drain_rx link t.rx rx_fuel 0 b1) _
        (Arrives-from b b1 (drain_rx link t.rx rx_fuel 0 b1) (after here (beat b))
          (drain_rx-Arrives t.rx rx_fuel 0 b1))
        (λ c. after_rx-Steps t c)
    where
      Arrives-from : (a b : Board) (p : Progress) → Steps link fl a b → Arrives b p → Arrives a p
      Arrives-from a b (Progress.going outs c) r h = join a b c r h
      Arrives-from a b Progress.crashed r h = tt
      Arrives-from a b Progress.hung r h = tt
      Arrives-from a b Progress.unfinished r h = tt

-- An iteration on the messages `ms` ends with nothing left in the ring and the outbox, on a board
-- that is reached; or the core crashes or hangs, and then one of the messages is a MSG_DEBUG_CRASH or
-- a MSG_DEBUG_HANG. It does not run out of fuel.
abbrev pub Ends : Link → Float32 → Engine → ℕ → Worker → List Bytes → Progress → Type 0
Ends link fl e now w ms (Progress.going outs c) =
    (messages c.ring ≡ []) × (c.core.outbox ≡ []) × Reach link fl (at_boot e now) waiting c w
Ends link fl e now w ms Progress.crashed = HasOf msg_debug_crash ms
Ends link fl e now w ms Progress.hung = HasOf msg_debug_hang ms
Ends link fl e now w ms Progress.unfinished = ⊥

-- What an iteration on a ring with valid indices leaves.
abbrev Left : List Bytes → Progress → Type 0
Left ms (Progress.going outs c) = (messages c.ring ≡ []) × (c.core.outbox ≡ [])
Left ms Progress.crashed = HasOf msg_debug_crash ms
Left ms Progress.hung = HasOf msg_debug_hang ms
Left ms Progress.unfinished = ⊥

emptied-Left :
    (link : Link) (t : Clocks) (b : Board) (ms : List Bytes) (o : Outcome)
    → IsStop ms o
    → Left ms (and_then (emptied b o) (λ c. let r = after_rx link t c in Progress.going r.0 r.1))
unfolding after_rx do_periodic_tick
emptied-Left link t b ms (Outcome.running outs k) h =
    let r : Ring = record b.ring { tail = b.ring.head } in
    (
      ap messages {x = _} {y = r} (ground arith)
          ∙ ap (messages_from r.slot r.tail) {x = used r} {y = 0} (omega arith),
      ground arith,
    )
emptied-Left link t b ms Outcome.crashed h = h
emptied-Left link t b ms Outcome.hung h = h

comms_iteration-Left :
    (link : Link) (t : Clocks) (b : Board)
    → IsRing b.ring
    → Left (messages b.ring) (comms_iteration link t b)
unfolding comms_iteration
comms_iteration-Left link t b h =
    let b1 : Board = record b { live = u32 (b.live + 1); stage = 1 } in
    let ms : List Bytes = messages b1.ring in
    subst (λ p. Left ms (and_then p (λ c. let r = after_rx link t c in Progress.going r.0 r.1)))
      (sym (drain_rx_lem link t.rx b1 h))
      (emptied-Left link t b1 ms (handle_all link t.rx 0 ms b1.core)
        (handle_all-IsStop link t.rx 0 ms b1.core))

reached :
    {link : Link} {fl : Float32} (a b c : Board) (v w : Worker)
    → Reach link fl a v b w
    → Steps link fl b c
    → Reach link fl a v c w
reached a b c v w r here = r
reached a b c v w r (after s x) = move (reached a b _ v w r s) (other x)

ends :
    (link : Link) (fl : Float32) (e : Engine) (now : ℕ) (b : Board) (w : Worker) (ms : List Bytes)
    (p : Progress)
    → Reach link fl (at_boot e now) waiting b w
    → Left ms p
    → Arrives link fl b p
    → Ends link fl e now w ms p
ends link fl e now b w ms (Progress.going outs c) r (m, o) a = (m, o, reached _ b c waiting w r a)
ends link fl e now b w ms Progress.crashed r l a = l
ends link fl e now b w ms Progress.hung r l a = l
ends link fl e now b w ms Progress.unfinished r l a = elim l [ ]

-- From a board that the start of the COMMS loop and any steps of the system lead to, wherever the
-- ENGINE task is, an iteration of the loop without a callback in between comes to an end: it leaves
-- no message in the ring and no item in the outbox, and is itself a sequence of steps; or the core
-- crashes or hangs, and this only when the ring holds a MSG_DEBUG_CRASH or a MSG_DEBUG_HANG,
-- respectively.
pub comms_iteration-Ends :
    (link : Link) (fl : Float32) (e : Engine) (now : ℕ) (t : Clocks) (b : Board) (w : Worker)
    → Reach link fl (at_boot e now) waiting b w
    → Ends link fl e now w (messages b.ring) (comms_iteration link t b)
comms_iteration-Ends link fl e now t b w r =
    ends link fl e now b w (messages b.ring) _ r
      (comms_iteration-Left link t b (Reach-IsBoard link fl e now b w r).ring)
      (comms_iteration-Arrives link fl t b)
