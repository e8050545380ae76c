-- ===== src/Spi/Slave.antt =====
-- Gateway/Firmware/CC1310/spi_slave_task.c: the SPI task of the CC1310. Whether a transfer that it
-- arms completes, and with which bytes, is an input.
pub mod Crc
pub mod Port
pub mod Uplinks
use bramka_setup.Base.{
  ℕ, zero, suc, ◌+◌, ◌*◌, Bool, true, false, Option, none, some, List, [], ◌∷◌, ◌++◌, if◌then◌else◌,
  Bytes, byte, leb, ◌==◌, replicate, take, slice, u8, u16, bit_xor, bit_and,
}
use bramka_setup.Shared.NodeProtocol.{
  NodeFrame, PendingCtrl, sizeof_message, sizeof_node_frame, ctrl_op_arm, ctrl_op_disarm,
}
use bramka_setup.Concentrator.Pending.{Table, arm, disarm}
use bramka_setup.Concentrator.Transmit.{Job}
use bramka_setup.Comms.Session.{queue_send}
use bramka_setup.Spi.Frame.{
  SpiFrame, spi_frame_node_data, spi_frame_node_cmd, spi_frame_ctrl, frame_type, frame_len,
  frame_payload, frame_valid, frame_make_nop, frame_make_node,
}

-- `spi_crc16`: one of its eight rounds, the rounds, and the bytes
unfoldable pub spi_round : ℕ → ℕ
spi_round crc = if bit_and crc 0x8000 == 0 then u16 (crc * 2) else u16 (bit_xor (crc * 2) 0x1021)

unfoldable pub spi_rounds : ℕ → ℕ → ℕ
spi_rounds zero crc = crc
spi_rounds (suc b) crc = spi_rounds b (spi_round crc)

unfoldable pub spi_crc_from : ℕ → Bytes → ℕ
spi_crc_from crc [] = crc
spi_crc_from crc (x ∷ xs) = spi_crc_from (spi_rounds 8 (u16 (bit_xor crc (x * 256)))) xs

unfoldable pub spi_crc16 : Bytes → ℕ
spi_crc16 xs = spi_crc_from 0xffff xs

-- MAX_RETRIES of spi_slave_task.c
abbrev pub max_retries : ℕ
max_retries = 3

-- mq_maxmsg of the radio queue (radio_task.c)
abbrev pub radio_queue_depth : ℕ
radio_queue_depth = 10

-- The frames to send up, the jobs for the radio task, the pending-command table, and txSeq.
pub record Slave : Type 0 where
  pub spi_queue : List NodeFrame
  pub radio_queue : List Job
  pub table : Table
  pub tx_seq : ℕ

-- the NodeFrame of a NODE_CMD frame: whole, or a legacy message without factory id
abbrev pub command_of : SpiFrame → Option NodeFrame
command_of f =
    if leb sizeof_node_frame (frame_len f)
    then some (take sizeof_node_frame (frame_payload f))
    else if leb sizeof_message (frame_len f)
    then some (replicate 8 0 ++ take sizeof_message (frame_payload f))
    else none

-- a PendingCtrl applied to the table; other operations are ignored
unfoldable pub apply_ctrl : PendingCtrl → Table → Table
apply_ctrl pc t =
    if byte pc 0 == ctrl_op_arm
    then arm (slice 2 8 pc) (byte pc 1) t
    else if byte pc 0 == ctrl_op_disarm
    then disarm (slice 2 8 pc) t
    else t

abbrev pub job_of : NodeFrame → Job
job_of nf = record { frame = nf; retry_counter = 0 }

-- `route_rx_frame`
unfoldable pub route_rx_frame : Bytes → Slave → Slave
route_rx_frame rx s =
    if frame_valid spi_crc16 rx
    then if frame_type rx == spi_frame_node_cmd
      then elim (command_of rx) [
        | none ↦ s
        | some nf ↦ record s {
          radio_queue = queue_send radio_queue_depth (job_of nf) s.radio_queue;
        }
      ]
      else if frame_type rx == spi_frame_ctrl
      then if leb 10 (frame_len rx)
        then record s { table = apply_ctrl (take 10 (frame_payload rx)) s.table }
        else s
      else s
    else s

-- The attempts for one prepared frame: each arms a transfer, which ends without the master
-- clocking it (none) or with the bytes received, which are routed.
unfoldable pub try_transfers : (ℕ → Option Bytes) → ℕ → ℕ → Slave → Bool × Slave
try_transfers bus k zero s = (false, s)
try_transfers bus k (suc left) s =
    let rest = try_transfers bus (suc k) left s in
    elim (bus k) [ none ↦ rest | some rx ↦ (true, route_rx_frame rx s) ]

-- The drain of the uplink queue: the frames armed, with the outcome of each.
unfoldable pub drain_uplinks :
    (ℕ → ℕ → Option Bytes) → ℕ → List NodeFrame → Slave → List (SpiFrame × Bool) × Slave
drain_uplinks bus i [] s = ([], record s { spi_queue = [] })
drain_uplinks bus i (nf ∷ nfs) s =
    let f = frame_make_node spi_crc16 spi_frame_node_data nf s.tx_seq 0 in
    let r = try_transfers (bus i) 0 max_retries (record s { tx_seq = u8 (s.tx_seq + 1) }) in
    let rest = drain_uplinks bus (suc i) nfs r.1 in ((f, r.0) ∷ rest.0, rest.1)

-- One iteration of `spiSlaveTaskFunction`; `initiated` is EVENT_MASTER_INITIATE.
unfoldable pub slave_iteration :
    Bool → (ℕ → ℕ → Option Bytes) → Slave → List (SpiFrame × Bool) × Slave
slave_iteration initiated bus s = elim s.spi_queue [
  | [] ↦
      let r = try_transfers (bus 0) 0 max_retries s in
      if initiated then ((frame_make_nop spi_crc16, r.0) ∷ [], r.1) else ([], s)
  | nf ∷ nfs ↦ drain_uplinks bus 0 (nf ∷ nfs) s
]
