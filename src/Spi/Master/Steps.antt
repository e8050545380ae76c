-- ===== src/Spi/Master/Steps.antt =====
-- The SPI task's state under any sequence of posts, iterations and receives. Posts come between the
-- iterations: one that comes during a drain is served by it or by the next one.
use bramka_setup.Base.{ℕ, ap, ◌≡◌, refl, arith, Bool, false, List, [], ◌∷◌, length, length-append}
use bramka_setup.Shared.NodeProtocol.{NodeFrame, PendingCtrl}
use bramka_setup.Spi.Master.{Master, Bus, post_cmd, post_ctrl, spi_iteration}
use bramka_setup.Spi.Master.Release.{IsIdle, spi_iteration-IsIdle}

-- The state after start-up.
abbrev pub at_start : Master
at_start = record {
  ctrl_queue = [];
  out_queue = [];
  node_in = [];
  tx_seq = 1;
  master_ready = false;
  started = 0;
  done = 0;
  timeout = 0;
}

-- What changes the state: a post of either kind, an iteration of the SPI task, and the ENGINE task
-- taking a frame off its input queue.
pub data Step : Master → Master → Type 0 where
  cmd : (nf : NodeFrame) (s : Master) → Step s (post_cmd nf s).0
  ctrl : (pc : PendingCtrl) (s : Master) → Step s (post_ctrl pc s).0
  iterate :
      (irq : Bool) (bus : ℕ → Bus) (last : Bus) (s : Master)
      → Step s (spi_iteration irq bus last s).1
  receive :
      (nf : NodeFrame) (q : List NodeFrame) (s : Master)
      → s.node_in ≡ nf ∷ q
      → Step s (record s { node_in = q })

-- The states that a sequence of such steps reaches.
pub data Reach : Master → Type 0 where
  start : Reach at_start
  after : {s t : Master} → Reach s → Step s t → Reach t

post_cmd-IsIdle : (nf : NodeFrame) (s : Master) → IsIdle s → IsIdle (post_cmd nf s).0
unfolding post_cmd
post_cmd-IsIdle nf s h = record {
  sound = record {
    counts = ground (arith, h.sound.counts);
    ctrl_bound = ground (arith, h.sound.ctrl_bound);
    out_bound = ground (arith, h.sound.out_bound, length-append s.out_queue (nf ∷ []));
    input_bound = ground (arith, h.sound.input_bound);
  };
  released = ground (arith, h.released);
}

post_ctrl-IsIdle : (pc : PendingCtrl) (s : Master) → IsIdle s → IsIdle (post_ctrl pc s).0
unfolding post_ctrl
post_ctrl-IsIdle pc s h = record {
  sound = record {
    counts = ground (arith, h.sound.counts);
    ctrl_bound = ground (arith, h.sound.ctrl_bound, length-append s.ctrl_queue (pc ∷ []));
    out_bound = ground (arith, h.sound.out_bound);
    input_bound = ground (arith, h.sound.input_bound);
  };
  released = ground (arith, h.released);
}

receive-IsIdle :
    (nf : NodeFrame) (q : List NodeFrame) (s : Master)
    → s.node_in ≡ nf ∷ q
    → IsIdle s
    → IsIdle (record s { node_in = q })
receive-IsIdle nf q s e h = record {
  sound = record {
    counts = h.sound.counts;
    ctrl_bound = h.sound.ctrl_bound;
    out_bound = h.sound.out_bound;
    input_bound = omega (arith, h.sound.input_bound, ap length e);
  };
  released = h.released;
}

Step-IsIdle : {s t : Master} → Step s t → IsIdle s → IsIdle t
Step-IsIdle (cmd nf s) h = post_cmd-IsIdle nf s h
Step-IsIdle (ctrl pc s) h = post_ctrl-IsIdle pc s h
Step-IsIdle (iterate irq bus last s) h = spi_iteration-IsIdle irq bus last s h
Step-IsIdle (receive nf q s e) h = receive-IsIdle nf q s e h

-- After start-up and any sequence of posts, iterations of the SPI task (whatever the bus does) and
-- receives by the ENGINE task, MASTER_READY is released, the transfers started are those done and
-- those timed out (modulo 2^32), and the three queues are within their depths.
pub Reach-IsIdle : {s : Master} → Reach s → IsIdle s
Reach-IsIdle start = record {
  sound = record {
    counts = refl;
    ctrl_bound = omega arith;
    out_bound = omega arith;
    input_bound = omega arith;
  };
  released = refl;
}
Reach-IsIdle (after r step) = Step-IsIdle step (Reach-IsIdle r)
