-- ===== src/Spi/Master/Drained.antt =====
-- The outbound queues across an iteration of the SPI task.
use bramka_setup.Base.{
  ℕ, zero, suc, ◌+◌, ◌≡◌, refl, arith, ◌∙◌, Bool, true, false, List, [], ◌∷◌, Bytes, length,
  if◌then◌else◌, u8,
}
use bramka_setup.Shared.NodeProtocol.{NodeFrame, PendingCtrl}
use bramka_setup.Spi.Master.{
  Master, Transfer, start_failed, timed_out, errored, completed, Bus, route_rx_frame, do_transfer,
  rx_from_slave, tx_clock_now, poll, tx_current, tx_ctrl_frame, tx_cmd_frame, drain_ctrl, drain_out,
  spi_iteration, poll_samples,
}

-- The outbound queues are the same.
pub record SameQueues (s t : Master) : Type 0 where
  pub ctrl : t.ctrl_queue ≡ s.ctrl_queue
  pub out : t.out_queue ≡ s.out_queue

both :
    (b : Bool) (s : Master) (x y : Bool × Master)
    → SameQueues s x.1
    → SameQueues s y.1
    → SameQueues s (if b then x else y).1
both true s x y hx hy = hx
both false s x y hx hy = hy

route_rx_frame-SameQueues : (rx : Bytes) (s : Master) → SameQueues s (route_rx_frame rx s)
unfolding route_rx_frame
route_rx_frame-SameQueues rx s = record { ctrl = ground arith; out = ground arith }

tx_clock_now-SameQueues : (t : Transfer) (s : Master) → SameQueues s (tx_clock_now t s).1
unfolding tx_clock_now do_transfer
tx_clock_now-SameQueues start_failed s = record { ctrl = refl; out = refl }
tx_clock_now-SameQueues timed_out s = record { ctrl = refl; out = refl }
tx_clock_now-SameQueues errored s = record { ctrl = refl; out = refl }
tx_clock_now-SameQueues (completed rx) s =
    let h = route_rx_frame-SameQueues rx _ in record { ctrl = h.ctrl; out = h.out }

rx_from_slave-SameQueues : (t : Transfer) (s : Master) → SameQueues s (rx_from_slave t s)
unfolding rx_from_slave do_transfer
rx_from_slave-SameQueues start_failed s = record { ctrl = refl; out = refl }
rx_from_slave-SameQueues timed_out s = record { ctrl = refl; out = refl }
rx_from_slave-SameQueues errored s = record { ctrl = refl; out = refl }
rx_from_slave-SameQueues (completed rx) s =
    let h = route_rx_frame-SameQueues rx _ in record { ctrl = h.ctrl; out = h.out }

poll-SameQueues : (bus : Bus) (k n : ℕ) (s : Master) → SameQueues s (poll bus k n s).1
unfolding poll
poll-SameQueues bus k zero s = record { ctrl = refl; out = refl }
poll-SameQueues bus k (suc n) s =
    both (bus.slave_ready k) s _ _ (tx_clock_now-SameQueues bus.transfer s)
      (poll-SameQueues bus (suc k) n s)

tx_current-SameQueues :
    (irq : Bool) (bus : Bus) (s : Master) → SameQueues s (tx_current irq bus s).1
unfolding tx_current
tx_current-SameQueues true bus s =
    let h = tx_clock_now-SameQueues bus.transfer (record s { master_ready = true }) in
    let c : SameQueues s (tx_clock_now bus.transfer (record s { master_ready = true })).1 = record {
      ctrl = h.ctrl;
      out = h.out;
    } in
    both (bus.slave_ready 0) s _ _ c
      (both (bus.slave_ready 1) s _ _ c (record { ctrl = refl; out = refl }))
tx_current-SameQueues false bus s =
    let h = poll-SameQueues bus 0 poll_samples (record s { master_ready = true }) in
    record { ctrl = h.ctrl; out = h.out }

module _ (irq : Bool) (bus : ℕ → Bus) where
  drain_ctrl-empties :
      (k : ℕ) (q : List PendingCtrl) (s : Master)
      → ((drain_ctrl irq bus k q s).1.ctrl_queue ≡ [])
        × ((drain_ctrl irq bus k q s).1.out_queue ≡ s.out_queue)
  unfolding drain_ctrl tx_ctrl_frame
  drain_ctrl-empties k [] s = (refl, refl)
  drain_ctrl-empties k (pc ∷ q) s =
      let r = drain_ctrl-empties (suc k) q _ in
      (r.0, r.1 ∙ (tx_current-SameQueues irq (bus k) (record s { tx_seq = u8 (s.tx_seq + 1) })).out)

  drain_out-empties :
      (k : ℕ) (q : List NodeFrame) (s : Master)
      → ((drain_out irq bus k q s).1.out_queue ≡ [])
        × ((drain_out irq bus k q s).1.ctrl_queue ≡ s.ctrl_queue)
  unfolding drain_out tx_cmd_frame
  drain_out-empties k [] s = (refl, refl)
  drain_out-empties k (nf ∷ q) s =
      let r = drain_out-empties (suc k) q _ in
      (
        r.0,
        r.1 ∙ (tx_current-SameQueues irq (bus k) (record s { tx_seq = u8 (s.tx_seq + 1) })).ctrl,
      )

  pub spi_iteration-empties :
      (last : Bus) (s : Master)
      → ((spi_iteration irq bus last s).1.ctrl_queue ≡ [])
        × ((spi_iteration irq bus last s).1.out_queue ≡ [])
  unfolding spi_iteration
  spi_iteration-empties last s =
      let c = drain_ctrl-empties 0 s.ctrl_queue s in
      let o =
        drain_out-empties (length s.ctrl_queue) s.out_queue
          (drain_ctrl irq bus 0 s.ctrl_queue s).1 in
      after_receive (last.slave_ready 0) _ (o.1 ∙ c.0) o.0
    where
      after_receive :
          (b : Bool) (t : Master)
          → t.ctrl_queue ≡ []
          → t.out_queue ≡ []
          → ((if b then rx_from_slave last.transfer t else t).ctrl_queue ≡ [])
            × ((if b then rx_from_slave last.transfer t else t).out_queue ≡ [])
      after_receive true t hc ho =
          let h = rx_from_slave-SameQueues last.transfer t in (h.ctrl ∙ hc, h.out ∙ ho)
      after_receive false t hc ho = (hc, ho)
