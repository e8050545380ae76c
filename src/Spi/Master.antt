-- ===== src/Spi/Master.antt =====
-- Gateway/Firmware/M4F/spi_master.c: the SPI task. The readings of SLAVE_READY, the outcome of each
-- MCSPI transfer, and whether the SLAVE_READY interrupt is wired are inputs.
pub mod Drained
pub mod Irq
pub mod Release
pub mod Steps
use bramka_setup.Base.{
  ℕ, zero, suc, ◌+◌, Bool, true, false, Option, none, some, List, [], ◌∷◌, ◌++◌, if◌then◌else◌,
  Bytes, length, leb, ltb, ◌==◌, replicate, take, u8, u32,
}
use bramka_setup.Shared.Protocol.{crc16}
use bramka_setup.Shared.NodeProtocol.{NodeFrame, PendingCtrl, sizeof_message, sizeof_node_frame}
use bramka_setup.Comms.Session.{queue_send, nodein_depth}
use bramka_setup.Spi.Frame.{
  SpiFrame, spi_frame_node_data, spi_frame_node_cmd, frame_type, frame_len, frame_payload,
  frame_valid, frame_make_node, frame_make_ctrl,
}

abbrev pub spi_out_depth : ℕ
spi_out_depth = 8

abbrev pub spi_ctrl_depth : ℕ
spi_ctrl_depth = 4

-- SPI_ARM_TIMEOUT_MS / SPI_POLL_MS: the samples of the polling loop
abbrev pub poll_samples : ℕ
poll_samples = 250

-- The two outbound queues, the engine's input queue, gTxSeq, whether MASTER_READY is asserted, and
-- the transfer counters.
pub record Master : Type 0 where
  pub ctrl_queue : List PendingCtrl
  pub out_queue : List NodeFrame
  pub node_in : List NodeFrame
  pub tx_seq : ℕ
  pub master_ready : Bool
  pub started : ℕ
  pub done : ℕ
  pub timeout : ℕ

-- The ends of an MCSPI transfer: it does not start, its callback does not come in time, it comes
-- with an error status, or it comes with the bytes received.
pub data Transfer : Type 0 where
  start_failed timed_out errored : Transfer
  completed : Bytes → Transfer

-- What the bus does for one frame: the readings of SLAVE_READY, and the transfer.
pub record Bus : Type 0 where
  pub slave_ready : ℕ → Bool
  pub transfer : Transfer

-- `spi_master_post_cmd` and `spi_master_post_ctrl` on queues that exist
unfoldable pub post_cmd : NodeFrame → Master → Master × Bool
post_cmd nf s =
    if ltb (length s.out_queue) spi_out_depth
    then (record s { out_queue = s.out_queue ++ nf ∷ [] }, true)
    else (s, false)

unfoldable pub post_ctrl : PendingCtrl → Master → Master × Bool
post_ctrl pc s =
    if ltb (length s.ctrl_queue) spi_ctrl_depth
    then (record s { ctrl_queue = s.ctrl_queue ++ pc ∷ [] }, true)
    else (s, false)

-- the NodeFrame of a NODE_DATA frame: whole, or a legacy message without factory id
abbrev pub node_frame_of : SpiFrame → Option NodeFrame
node_frame_of f =
    if leb sizeof_node_frame (frame_len f)
    then some (take sizeof_node_frame (frame_payload f))
    else if leb sizeof_message (frame_len f)
    then some (replicate 8 0 ++ take sizeof_message (frame_payload f))
    else none

-- `route_rx_frame`
unfoldable pub route_rx_frame : Bytes → Master → Master
route_rx_frame rx s =
    if frame_valid crc16 rx
    then if frame_type rx == spi_frame_node_data
      then elim (node_frame_of rx) [
        | none ↦ s
        | some nf ↦ record s { node_in = queue_send nodein_depth nf s.node_in }
      ]
      else s
    else s

-- `spi_do_transfer`: the bytes received, or none for the return value false
unfoldable pub do_transfer : Transfer → Master → Option Bytes × Master
do_transfer start_failed s =
    (none, record s { started = u32 (s.started + 1); timeout = u32 (s.timeout + 1) })
do_transfer timed_out s =
    (none, record s { started = u32 (s.started + 1); timeout = u32 (s.timeout + 1) })
do_transfer errored s = (none, record s { started = u32 (s.started + 1); done = u32 (s.done + 1) })
do_transfer (completed rx) s =
    (some rx, record s { started = u32 (s.started + 1); done = u32 (s.done + 1) })

abbrev pub route_received : Option Bytes × Master → Bool × Master
route_received (none, s) = (false, s)
route_received (some rx, s) = (true, route_rx_frame rx s)

-- `spi_rx_from_slave`
unfoldable pub rx_from_slave : Transfer → Master → Master
rx_from_slave t s = (route_received (do_transfer t s)).1

-- `spi_tx_clock_now`: MASTER_READY is released between the transfer and the routing
unfoldable pub tx_clock_now : Transfer → Master → Bool × Master
tx_clock_now t s =
    let r = do_transfer t s in route_received (r.0, record r.1 { master_ready = false })

-- the polling loop from the sample `k` on, with the samples left
unfoldable pub poll : Bus → ℕ → ℕ → Master → Bool × Master
poll bus k zero s = (false, record s { master_ready = false })
poll bus k (suc left) s =
    let rest = poll bus (suc k) left s in
    if bus.slave_ready k then tx_clock_now bus.transfer s else rest

-- `spi_tx_current`; with the interrupt, SLAVE_READY is read before and after the wait for it
unfoldable pub tx_current : Bool → Bus → Master → Bool × Master
tx_current true bus s =
    let s' = record s { master_ready = true } in
    if bus.slave_ready 0
    then tx_clock_now bus.transfer s'
    else if bus.slave_ready 1
    then tx_clock_now bus.transfer s'
    else (false, record s' { master_ready = false })
tx_current false bus s = poll bus 0 poll_samples (record s { master_ready = true })

-- One command of each queue: the frame put on the bus, whether it was exchanged, and the state.
unfoldable pub tx_ctrl_frame : Bool → Bus → PendingCtrl → ℕ → Master → SpiFrame × Bool × Master
tx_ctrl_frame irq bus pc pending s =
    let r = tx_current irq bus (record s { tx_seq = u8 (s.tx_seq + 1) }) in
    (frame_make_ctrl crc16 pc s.tx_seq pending, r.0, r.1)

unfoldable pub tx_cmd_frame : Bool → Bus → NodeFrame → ℕ → Master → SpiFrame × Bool × Master
tx_cmd_frame irq bus nf pending s =
    let r = tx_current irq bus (record s { tx_seq = u8 (s.tx_seq + 1) }) in
    (frame_make_node crc16 spi_frame_node_cmd nf s.tx_seq pending, r.0, r.1)

-- The two drains of `spiTask`, each command on the next behaviour of the bus: the frames put on the
-- bus with the outcome of each, and the state after them.
unfoldable pub drain_ctrl :
    Bool → (ℕ → Bus) → ℕ → List PendingCtrl → Master → List (SpiFrame × Bool) × Master
drain_ctrl irq bus k [] s = ([], record s { ctrl_queue = [] })
drain_ctrl irq bus k (pc ∷ pcs) s =
    let r = tx_ctrl_frame irq (bus k) pc (u8 (length pcs)) s in
    let rest = drain_ctrl irq bus (suc k) pcs r.2 in ((r.0, r.1) ∷ rest.0, rest.1)

unfoldable pub drain_out :
    Bool → (ℕ → Bus) → ℕ → List NodeFrame → Master → List (SpiFrame × Bool) × Master
drain_out irq bus k [] s = ([], record s { out_queue = [] })
drain_out irq bus k (nf ∷ nfs) s =
    let r = tx_cmd_frame irq (bus k) nf (u8 (length nfs)) s in
    let rest = drain_out irq bus (suc k) nfs r.2 in ((r.0, r.1) ∷ rest.0, rest.1)

-- One iteration of `spiTask`: control commands, node commands, and then, when SLAVE_READY is low,
-- the slave's frame against a NOP.
unfoldable pub spi_iteration : Bool → (ℕ → Bus) → Bus → Master → List (SpiFrame × Bool) × Master
spi_iteration irq bus last s =
    let c = drain_ctrl irq bus 0 s.ctrl_queue s in
    let o = drain_out irq bus (length s.ctrl_queue) s.out_queue c.1 in
    (c.0 ++ o.0, if last.slave_ready 0 then rx_from_slave last.transfer o.1 else o.1)
