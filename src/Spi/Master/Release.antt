-- ===== src/Spi/Master/Release.antt =====
-- What holds of the SPI task's state between its iterations.
use bramka_setup.Base.{
  ℕ, zero, suc, ◌+◌, ◌≤◌, ◌≡◌, refl, arith, Bool, true, ◌∙◌, false, Option, none, some, List, [],
  ◌∷◌, Bytes, length, length-append, u32, if◌then◌else◌, ◌==◌,
}
use bramka_setup.Shared.NodeProtocol.{NodeFrame, PendingCtrl}
use bramka_setup.Shared.Protocol.{crc16}
use bramka_setup.Spi.Frame.{frame_valid, frame_type, spi_frame_node_data}
use bramka_setup.Comms.Session.{queue_send, nodein_depth}
use bramka_setup.Spi.Master.{
  Master, Transfer, start_failed, timed_out, errored, completed, Bus, route_rx_frame,
  route_received, do_transfer, rx_from_slave, tx_clock_now, poll, tx_current, tx_ctrl_frame,
  tx_cmd_frame, drain_ctrl, drain_out, spi_iteration, node_frame_of, spi_out_depth, spi_ctrl_depth,
  poll_samples,
}

-- The counters agree and the queues are within their depths.
pub record IsSound (s : Master) : Type 0 where
  pub counts : s.started ≡ u32 (s.done + s.timeout)
  pub ctrl_bound : length s.ctrl_queue ≤ spi_ctrl_depth
  pub out_bound : length s.out_queue ≤ spi_out_depth
  pub input_bound : length s.node_in ≤ nodein_depth

-- ... and MASTER_READY is released.
pub record IsIdle (s : Master) : Type 0 where
  pub sound : IsSound s
  pub released : s.master_ready ≡ false

pub length-queue_send {ℓ} :
    {A : Type ℓ} (n : ℕ) (a : A) (q : List A) → length q ≤ n → length (queue_send n a q) ≤ n
length-queue_send n a q h = ground (arith, length-append q (a ∷ []))

if-IsSound : (b : Bool) (s t : Master) → IsSound s → IsSound t → IsSound (if b then s else t)
if-IsSound true s t hs ht = hs
if-IsSound false s t hs ht = ht

input-IsSound :
    (o : Option NodeFrame) (s : Master)
    → IsSound s
    → IsSound (elim o [
      | none ↦ s
      | some nf ↦ record s { node_in = queue_send nodein_depth nf s.node_in }
    ])
input-IsSound none s h = h
input-IsSound (some nf) s h = record {
  counts = h.counts;
  ctrl_bound = h.ctrl_bound;
  out_bound = h.out_bound;
  input_bound = length-queue_send nodein_depth nf s.node_in h.input_bound;
}

route_rx_frame-IsSound : (rx : Bytes) (s : Master) → IsSound s → IsSound (route_rx_frame rx s)
unfolding route_rx_frame
route_rx_frame-IsSound rx s h =
    if-IsSound (frame_valid crc16 rx) _ s
      (if-IsSound (frame_type rx == spi_frame_node_data) _ s (input-IsSound (node_frame_of rx) s h)
        h)
      h

counted :
    (s : Master) (started done timeout : ℕ)
    → started ≡ u32 (done + timeout)
    → IsSound s
    → IsSound (record s { started = started; done = done; timeout = timeout })
counted s started done timeout e h = record {
  counts = e;
  ctrl_bound = h.ctrl_bound;
  out_bound = h.out_bound;
  input_bound = h.input_bound;
}

do_transfer-IsSound : (t : Transfer) (s : Master) → IsSound s → IsSound (do_transfer t s).1
unfolding do_transfer
do_transfer-IsSound start_failed s h = counted s _ _ _ (omega (arith, h.counts)) h
do_transfer-IsSound timed_out s h = counted s _ _ _ (omega (arith, h.counts)) h
do_transfer-IsSound errored s h = counted s _ _ _ (omega (arith, h.counts)) h
do_transfer-IsSound (completed rx) s h = counted s _ _ _ (omega (arith, h.counts)) h

ready-route_rx_frame :
    (rx : Bytes) (s : Master) → (route_rx_frame rx s).master_ready ≡ s.master_ready
unfolding route_rx_frame
ready-route_rx_frame rx s = ground arith

release : (s : Master) → IsSound s → IsIdle (record s { master_ready = false })
release s h = record {
  sound = record {
    counts = h.counts;
    ctrl_bound = h.ctrl_bound;
    out_bound = h.out_bound;
    input_bound = h.input_bound;
  };
  released = refl;
}

raise : (s : Master) → IsSound s → IsSound (record s { master_ready = true })
raise s h = record {
  counts = h.counts;
  ctrl_bound = h.ctrl_bound;
  out_bound = h.out_bound;
  input_bound = h.input_bound;
}

route_received-IsIdle :
    (r : Option Bytes) (s : Master) → IsIdle s → IsIdle (route_received (r, s)).1
route_received-IsIdle none s h = h
route_received-IsIdle (some rx) s h = record {
  sound = route_rx_frame-IsSound rx s h.sound;
  released = ready-route_rx_frame rx s ∙ h.released;
}

tx_clock_now-IsIdle : (t : Transfer) (s : Master) → IsSound s → IsIdle (tx_clock_now t s).1
unfolding tx_clock_now
tx_clock_now-IsIdle t s h =
    let r : Option Bytes × Master = do_transfer t s in
    route_received-IsIdle r.0 _ (release r.1 (do_transfer-IsSound t s h))

choose-IsIdle :
    (b : Bool) (x y : Bool × Master) → IsIdle x.1 → IsIdle y.1 → IsIdle (if b then x else y).1
choose-IsIdle true x y hx hy = hx
choose-IsIdle false x y hx hy = hy

poll-IsIdle : (bus : Bus) (k n : ℕ) (s : Master) → IsSound s → IsIdle (poll bus k n s).1
unfolding poll
poll-IsIdle bus k zero s h = release s h
poll-IsIdle bus k (suc n) s h =
    choose-IsIdle (bus.slave_ready k) _ _ (tx_clock_now-IsIdle bus.transfer s h)
      (poll-IsIdle bus (suc k) n s h)

tx_current-IsIdle :
    (irq : Bool) (bus : Bus) (s : Master) → IsSound s → IsIdle (tx_current irq bus s).1
unfolding tx_current
tx_current-IsIdle true bus s h =
    let up = raise s h in
    let clock = tx_clock_now-IsIdle bus.transfer _ up in
    choose-IsIdle (bus.slave_ready 0) _ _ clock
      (choose-IsIdle (bus.slave_ready 1) _ _ clock (release _ up))
tx_current-IsIdle false bus s h = poll-IsIdle bus 0 poll_samples _ (raise s h)

next : (s : Master) (n : ℕ) → IsSound s → IsSound (record s { tx_seq = n })
next s n h = record {
  counts = h.counts;
  ctrl_bound = h.ctrl_bound;
  out_bound = h.out_bound;
  input_bound = h.input_bound;
}

drain_ctrl-IsIdle :
    (irq : Bool) (bus : ℕ → Bus) (k : ℕ) (q : List PendingCtrl) (s : Master)
    → IsIdle s
    → IsIdle (drain_ctrl irq bus k q s).1
unfolding drain_ctrl tx_ctrl_frame
drain_ctrl-IsIdle irq bus k [] s h = record {
  sound = record {
    counts = h.sound.counts;
    ctrl_bound = omega arith;
    out_bound = h.sound.out_bound;
    input_bound = h.sound.input_bound;
  };
  released = h.released;
}
drain_ctrl-IsIdle irq bus k (pc ∷ q) s h =
    drain_ctrl-IsIdle irq bus (suc k) q _ (tx_current-IsIdle irq (bus k) _ (next s _ h.sound))

drain_out-IsIdle :
    (irq : Bool) (bus : ℕ → Bus) (k : ℕ) (q : List NodeFrame) (s : Master)
    → IsIdle s
    → IsIdle (drain_out irq bus k q s).1
unfolding drain_out tx_cmd_frame
drain_out-IsIdle irq bus k [] s h = record {
  sound = record {
    counts = h.sound.counts;
    ctrl_bound = h.sound.ctrl_bound;
    out_bound = omega arith;
    input_bound = h.sound.input_bound;
  };
  released = h.released;
}
drain_out-IsIdle irq bus k (nf ∷ q) s h =
    drain_out-IsIdle irq bus (suc k) q _ (tx_current-IsIdle irq (bus k) _ (next s _ h.sound))

rx_from_slave-IsIdle : (t : Transfer) (s : Master) → IsIdle s → IsIdle (rx_from_slave t s)
unfolding rx_from_slave do_transfer
rx_from_slave-IsIdle t s h =
    let r : Option Bytes × Master = do_transfer t s in
    route_received-IsIdle r.0 r.1 (record {
      sound = do_transfer-IsSound t s h.sound;
      released = ready-do_transfer t s ∙ h.released;
    })
  where
    ready-do_transfer :
        (t : Transfer) (s : Master) → (do_transfer t s).1.master_ready ≡ s.master_ready
    ready-do_transfer start_failed s = refl
    ready-do_transfer timed_out s = refl
    ready-do_transfer errored s = refl
    ready-do_transfer (completed rx) s = refl

pub spi_iteration-IsIdle :
    (irq : Bool) (bus : ℕ → Bus) (last : Bus) (s : Master)
    → IsIdle s
    → IsIdle (spi_iteration irq bus last s).1
unfolding spi_iteration
spi_iteration-IsIdle irq bus last s h =
    let c = drain_ctrl-IsIdle irq bus 0 s.ctrl_queue s h in
    let o = drain_out-IsIdle irq bus (length s.ctrl_queue) s.out_queue _ c in
    ready-if (last.slave_ready 0) _ _ (rx_from_slave-IsIdle last.transfer _ o) o
  where
    ready-if : (b : Bool) (x y : Master) → IsIdle x → IsIdle y → IsIdle (if b then x else y)
    ready-if true x y hx hy = hx
    ready-if false x y hx hy = hy
