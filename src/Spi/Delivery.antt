-- ===== src/Spi/Delivery.antt =====
-- What the frames of one side do at the other.
use bramka_setup.Base.{ℕ, ◌≤◌, ◌≡◌, ap, ◌∙◌, sym, arith, true, Bytes, take, take_all, length}
use bramka_setup.Shared.Protocol.{crc16}
use bramka_setup.Shared.NodeProtocol.{NodeFrame, PendingCtrl}
use bramka_setup.Comms.Session.{queue_send, nodein_depth}
use bramka_setup.Spi.Frame.{
  SpiFrame, frame_valid, frame_type, frame_len, frame_payload, frame_make_node, frame_make_ctrl,
  spi_frame_node_cmd, spi_frame_node_data, spi_frame_ctrl,
}
use bramka_setup.Spi.Frame.Fields.{finalize_fields, area, take-area}
use bramka_setup.Spi.Slave.{spi_crc16, radio_queue_depth, job_of, apply_ctrl, command_of}
use bramka_setup.Spi.Slave.Crc.{frame_valid-sides}
use bramka_setup.Spi.Master.{node_frame_of}
use bramka_setup.Spi.Slave
use bramka_setup.Spi.Master

module _ (f : SpiFrame) (s : Slave.Slave) (hv : frame_valid spi_crc16 f ≡ true) where
  route_cmd_frame :
      (nf : NodeFrame)
      → frame_type f ≡ spi_frame_node_cmd
      → frame_len f ≡ 52
      → take 52 (frame_payload f) ≡ nf
      → Slave.route_rx_frame f s
        ≡ record s { radio_queue = queue_send radio_queue_depth (job_of nf) s.radio_queue }
  unfolding Slave.route_rx_frame
  route_cmd_frame nf ht hl hp = simp (hv, ht, hl, hp)

  route_ctrl_frame :
      (pc : PendingCtrl)
      → frame_type f ≡ spi_frame_ctrl
      → frame_len f ≡ 10
      → take 10 (frame_payload f) ≡ pc
      → Slave.route_rx_frame f s ≡ record s { table = apply_ctrl pc s.table }
  unfolding Slave.route_rx_frame
  route_ctrl_frame pc ht hl hp = simp (hv, ht, hl, hp)

route_data_frame :
    (f : SpiFrame) (s : Master.Master) (nf : NodeFrame)
    → frame_valid crc16 f ≡ true
    → frame_type f ≡ spi_frame_node_data
    → frame_len f ≡ 52
    → take 52 (frame_payload f) ≡ nf
    → Master.route_rx_frame f s ≡ record s { node_in = queue_send nodein_depth nf s.node_in }
unfolding Master.route_rx_frame
route_data_frame f s nf hv ht hl hp = simp (hv, ht, hl, hp)

payload_all : (n : ℕ) (p : Bytes) → length p ≡ n → n ≤ 118 → take n (area (take n p)) ≡ p
payload_all n p h le =
    let all : take n p ≡ p = take_all n p (omega arith) in
    ap (λ x. take n (area x)) all ∙ take-area n p h le

-- A NODE_CMD frame of the master with a 52-byte NodeFrame becomes a job of the radio task.
pub route_node_cmd :
    (nf : NodeFrame) (seq pending : ℕ) (s : Slave.Slave)
    → length nf ≡ 52
    → Slave.route_rx_frame (frame_make_node crc16 spi_frame_node_cmd nf seq pending) s
      ≡ record s { radio_queue = queue_send radio_queue_depth (job_of nf) s.radio_queue }
unfolding frame_make_node
route_node_cmd nf seq pending s h =
    let f : SpiFrame = frame_make_node crc16 spi_frame_node_cmd nf seq pending in
    let r = finalize_fields crc16 spi_frame_node_cmd seq pending 52 nf in
    route_cmd_frame f s (frame_valid-sides f ∙ r.0) nf r.1 r.2
      (ap (take 52) r.3 ∙ payload_all 52 nf h (omega arith))

-- A CTRL frame of the master with a 10-byte PendingCtrl changes the pending-command table.
pub route_ctrl :
    (pc : PendingCtrl) (seq pending : ℕ) (s : Slave.Slave)
    → length pc ≡ 10
    → Slave.route_rx_frame (frame_make_ctrl crc16 pc seq pending) s
      ≡ record s { table = apply_ctrl pc s.table }
unfolding frame_make_ctrl
route_ctrl pc seq pending s h =
    let f : SpiFrame = frame_make_ctrl crc16 pc seq pending in
    let r = finalize_fields crc16 spi_frame_ctrl seq pending 10 pc in
    route_ctrl_frame f s (frame_valid-sides f ∙ r.0) pc r.1 r.2
      (ap (take 10) r.3 ∙ payload_all 10 pc h (omega arith))

-- A NODE_DATA frame of the slave with a 52-byte NodeFrame goes to the engine's input queue.
pub route_node_data :
    (nf : NodeFrame) (seq pending : ℕ) (s : Master.Master)
    → length nf ≡ 52
    → Master.route_rx_frame (frame_make_node spi_crc16 spi_frame_node_data nf seq pending) s
      ≡ record s { node_in = queue_send nodein_depth nf s.node_in }
unfolding frame_make_node
route_node_data nf seq pending s h =
    let f : SpiFrame = frame_make_node spi_crc16 spi_frame_node_data nf seq pending in
    let r = finalize_fields spi_crc16 spi_frame_node_data seq pending 52 nf in
    route_data_frame f s nf (sym (frame_valid-sides f) ∙ r.0) r.1 r.2
      (ap (take 52) r.3 ∙ payload_all 52 nf h (omega arith))
