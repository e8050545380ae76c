-- ===== src/Spi/Exchange.antt =====
-- One iteration of the SPI task on a bus that the slave answers: what reaches the slave.
use bramka_setup.Base.{
  ℕ, suc, ◌+◌, ◌≡◌, refl, ap, ◌∙◌, Bool, true, false, u8, List, [], ◌∷◌, ◌++◌, if◌then◌else◌,
  length, Bytes,
}
use bramka_setup.Shared.Protocol.{crc16}
use bramka_setup.Shared.NodeProtocol.{NodeFrame, PendingCtrl}
use bramka_setup.Comms.Session.{queue_send}
use bramka_setup.Concentrator.Pending.{Table}
use bramka_setup.Concentrator.Transmit.{Job}
use bramka_setup.Spi.Frame.{SpiFrame, frame_make_node, frame_make_ctrl, spi_frame_node_cmd}
use bramka_setup.Spi.Slave.{radio_queue_depth, job_of, apply_ctrl}
use bramka_setup.Spi.Slave
use bramka_setup.Spi.Delivery.{route_node_cmd, route_ctrl}
use bramka_setup.Spi.Master.Drained.{spi_iteration-empties}
use bramka_setup.Spi.Master.{
  Master, Bus, completed, do_transfer, tx_clock_now, poll, tx_current, tx_ctrl_frame, tx_cmd_frame,
  drain_ctrl, drain_out, spi_iteration,
}

-- SLAVE_READY is high at once, and the transfer brings these bytes.
abbrev pub answering : Bytes → Bus
answering rx = record { slave_ready = λ k. true; transfer = completed rx }

-- The slave receives the frames that were exchanged, in order.
unfoldable pub receive_all : List (SpiFrame × Bool) → Slave.Slave → Slave.Slave
receive_all [] s = s
receive_all ((f, b) ∷ fs) s = receive_all fs (if b then Slave.route_rx_frame f s else s)

-- Control commands applied in order, and jobs queued in order.
unfoldable pub apply_all : List PendingCtrl → Table → Table
apply_all [] t = t
apply_all (pc ∷ pcs) t = apply_all pcs (apply_ctrl pc t)

unfoldable pub queue_all : List NodeFrame → List Job → List Job
queue_all [] q = q
queue_all (nf ∷ nfs) q = queue_all nfs (queue_send radio_queue_depth (job_of nf) q)

clock-answering : (rx : Bytes) (s : Master) → (tx_clock_now (completed rx) s).0 ≡ true
unfolding tx_clock_now do_transfer
clock-answering rx s = refl

poll-answering : (rx : Bytes) (k n : ℕ) (s : Master) → (poll (answering rx) k (suc n) s).0 ≡ true
unfolding poll
poll-answering rx k n s = clock-answering rx s

tx_current-answering :
    (irq : Bool) (rx : Bytes) (s : Master) → (tx_current irq (answering rx) s).0 ≡ true
unfolding tx_current
tx_current-answering true rx s = clock-answering rx (record s { master_ready = true })
tx_current-answering false rx s = poll-answering rx 0 249 (record s { master_ready = true })

receive_all-append :
    (fs gs : List (SpiFrame × Bool)) (s : Slave.Slave)
    → receive_all (fs ++ gs) s ≡ receive_all gs (receive_all fs s)
unfolding receive_all
receive_all-append [] gs s = refl
receive_all-append ((f, b) ∷ fs) gs s =
    receive_all-append fs gs (if b then Slave.route_rx_frame f s else s)

-- Every item has n bytes.
pub data Sized (n : ℕ) : List Bytes → Type 0 where
  none_left : Sized n []
  one_more : (x : Bytes) (xs : List Bytes) → length x ≡ n → Sized n xs → Sized n (x ∷ xs)

module _ (irq : Bool) (rx : ℕ → Bytes) where
  drain_ctrl-reaches :
      (k : ℕ) (q : List PendingCtrl) (m : Master) (s : Slave.Slave)
      → Sized 10 q
      → receive_all (drain_ctrl irq (λ i. answering (rx i)) k q m).0 s
        ≡ record s { table = apply_all q s.table }
  unfolding drain_ctrl tx_ctrl_frame receive_all apply_all
  drain_ctrl-reaches k [] m s h = refl
  drain_ctrl-reaches k (pc ∷ q) m s (one_more _ _ hp h) =
      let m' : Master = record m { tx_seq = u8 (m.tx_seq + 1) } in
      let m'' : Master = (tx_current irq (answering (rx k)) m').1 in
      let f : SpiFrame = frame_make_ctrl crc16 pc m.tx_seq (u8 (length q)) in
      ap (λ t. receive_all (drain_ctrl irq (λ i. answering (rx i)) (suc k) q m'').0 t)
        (ap (λ b. if b then Slave.route_rx_frame f s else s) (tx_current-answering irq (rx k) m')
          ∙ route_ctrl pc m.tx_seq (u8 (length q)) s hp)
      ∙ drain_ctrl-reaches (suc k) q m'' (record s { table = apply_ctrl pc s.table }) h

  drain_out-reaches :
      (k : ℕ) (q : List NodeFrame) (m : Master) (s : Slave.Slave)
      → Sized 52 q
      → receive_all (drain_out irq (λ i. answering (rx i)) k q m).0 s
        ≡ record s { radio_queue = queue_all q s.radio_queue }
  unfolding drain_out tx_cmd_frame receive_all queue_all
  drain_out-reaches k [] m s h = refl
  drain_out-reaches k (nf ∷ q) m s (one_more _ _ hp h) =
      let m' : Master = record m { tx_seq = u8 (m.tx_seq + 1) } in
      let m'' : Master = (tx_current irq (answering (rx k)) m').1 in
      let pending : ℕ = u8 (length q) in
      let f : SpiFrame = frame_make_node crc16 spi_frame_node_cmd nf m.tx_seq pending in
      ap (λ t. receive_all (drain_out irq (λ i. answering (rx i)) (suc k) q m'').0 t)
        (ap (λ b. if b then Slave.route_rx_frame f s else s) (tx_current-answering irq (rx k) m')
          ∙ route_node_cmd nf m.tx_seq pending s hp)
      ∙ drain_out-reaches (suc k) q m''
          (record s { radio_queue = queue_send radio_queue_depth (job_of nf) s.radio_queue }) h

-- When SLAVE_READY is read low at once and every transfer of the drains completes, with the
-- interrupt wired or not, one iteration of the M4F's SPI task takes all its queued control
-- commands (of 10 bytes) and node commands (of 52 bytes) to the CC1310: the control commands are
-- applied to the pending-command table in order, the node commands queued for the radio in order
-- (as far as the queue has room), nothing else of the slave's state changes, and both of the M4F's
-- queues are left empty.
pub spi_iteration_delivers :
    (irq : Bool) (rx : ℕ → Bytes) (last : Bus) (m : Master) (s : Slave.Slave)
    → Sized 10 m.ctrl_queue
    → Sized 52 m.out_queue
    → let r = spi_iteration irq (λ i. answering (rx i)) last m in
      (receive_all r.0 s ≡ record s {
        table = apply_all m.ctrl_queue s.table;
        radio_queue = queue_all m.out_queue s.radio_queue;
      })
      × (r.1.ctrl_queue ≡ [])
      × (r.1.out_queue ≡ [])
unfolding spi_iteration
spi_iteration_delivers irq rx last m s hc ho =
    let bus : ℕ → Bus = λ i. answering (rx i) in
    let c : List (SpiFrame × Bool) × Master = drain_ctrl irq bus 0 m.ctrl_queue m in
    (
      receive_all-append c.0 (drain_out irq bus (length m.ctrl_queue) m.out_queue c.1).0 s
          ∙ ap (receive_all (drain_out irq bus (length m.ctrl_queue) m.out_queue c.1).0)
              (drain_ctrl-reaches irq rx 0 m.ctrl_queue m s hc)
          ∙ drain_out-reaches irq rx (length m.ctrl_queue) m.out_queue c.1
              (record s { table = apply_all m.ctrl_queue s.table }) ho,
      (spi_iteration-empties irq bus last m).0,
      (spi_iteration-empties irq bus last m).1,
    )
