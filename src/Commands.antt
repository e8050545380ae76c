-- ===== src/Commands.antt =====
-- The way of Linux's commands: engine_rpmsg.c, the SPI link, and the CC1310's table and radio.
use bramka_setup.Base.{
  ℕ, ◌≤◌, ◌≡◌, arith, ap, sym, ◌∙◌, Bool, true, some, [], ◌∷◌, Bytes, length, take, take_all, subst,
}
use bramka_setup.Shared.Protocol.{msg_node_cmd, msg_arm_pending}
use bramka_setup.Shared.NodeProtocol.{
  NodeFrame, frame_factory_id, frame_msg, msg_id, msg_length, ctrl_op_arm,
}
use bramka_setup.Engine.State.{Engine}
use bramka_setup.Rpmsg.{Glue, Effect, dispatch, ack_if}
use bramka_setup.Rf.{Reception, message_of}
use bramka_setup.Rf.Equality.{bytes_eq_self}
use bramka_setup.Node.{Node, node_receive}
use bramka_setup.Node.Exchange.{downlink_lem}
use bramka_setup.Concentrator.Pending.{lookup, arm}
use bramka_setup.Concentrator.Pending.Lookup.{lookup-arm, has_room}
use bramka_setup.Concentrator.Transmit.{any_set, frame_of}
use bramka_setup.Spi.Slave.{Slave, job_of, apply_ctrl}
use bramka_setup.Spi.Master.{Master, Bus, post_cmd, post_ctrl, spi_iteration}
use bramka_setup.Spi.Exchange.{
  Sized, none_left, one_more, answering, receive_all, apply_all, queue_all, spi_iteration_delivers,
}
use Effect.{tx_node, tx_ctrl}

dispatch-node_cmd :
    (g : Glue) (e : Engine) (now seq : ℕ) (nf : NodeFrame)
    → g.has_tx_node ≡ true
    → length nf ≡ 52
    → dispatch g e now msg_node_cmd seq nf ≡ (true, e, tx_node nf ∷ ack_if g seq)
unfolding dispatch
dispatch-node_cmd g e now seq nf h l = simp (h, l)

dispatch-arm_pending :
    (g : Glue) (e : Engine) (now seq : ℕ) (pc : Bytes)
    → g.has_tx_ctrl ≡ true
    → length pc ≡ 10
    → dispatch g e now msg_arm_pending seq pc ≡ (true, e, tx_ctrl pc ∷ ack_if g seq)
unfolding dispatch
dispatch-arm_pending g e now seq pc h l = simp (h, l)

module _ (m : Master) (hc : m.ctrl_queue ≡ []) (ho : m.out_queue ≡ []) where
  queued_cmd : (nf : NodeFrame) → (post_cmd nf m).0 ≡ record m { out_queue = nf ∷ [] }
  unfolding post_cmd
  queued_cmd nf = simp ho

  queued_ctrl : (pc : Bytes) → (post_ctrl pc m).0 ≡ record m { ctrl_queue = pc ∷ [] }
  unfolding post_ctrl
  queued_ctrl pc = simp hc

  module _ (irq : Bool) (rx : ℕ → Bytes) (last : Bus) (s : Slave) where
    cmd_arrives :
        (nf : NodeFrame)
        → length nf ≡ 52
        → s.radio_queue ≡ []
        → (receive_all
            (spi_iteration irq (λ i. answering (rx i)) last (post_cmd nf m).0).0
            s).radio_queue
          ≡ job_of nf ∷ []
    unfolding queue_all
    cmd_arrives nf l empty =
        let m' : Master = record m { out_queue = nf ∷ [] } in
        ap (λ x. (receive_all (spi_iteration irq (λ i. answering (rx i)) last x).0 s).radio_queue)
          (queued_cmd nf)
        ∙ ap (λ x. x.radio_queue)
            (spi_iteration_delivers irq rx last m' s (subst (Sized 10) (sym hc) none_left)
              (one_more nf [] l none_left)).0
        ∙ ap (queue_all (nf ∷ [])) empty

    ctrl_arrives :
        (pc : Bytes)
        → length pc ≡ 10
        → (receive_all
            (spi_iteration irq (λ i. answering (rx i)) last (post_ctrl pc m).0).0
            s).table
          ≡ apply_ctrl pc s.table
    unfolding apply_all
    ctrl_arrives pc l =
        let m' : Master = record m { ctrl_queue = pc ∷ [] } in
        ap (λ x. (receive_all (spi_iteration irq (λ i. answering (rx i)) last x).0 s).table)
          (queued_ctrl pc)
        ∙ ap (λ x. x.table)
            (spi_iteration_delivers irq rx last m' s (one_more pc [] l none_left)
              (subst (Sized 52) (sym ho) none_left)).0

-- A NODE_CMD from Linux with a NodeFrame of 52 bytes, whose length field is at most 44, and which
-- names a node by its address and (non-zero) factory id, is relayed and acknowledged by the
-- dispatcher (as far as the callbacks are installed); posted to an SPI task with nothing queued,
-- on a bus that the slave answers, it becomes the only job of an empty radio queue; and the frame
-- that the CC1310 sends for it, with any sequence number, the node takes with exactly the
-- message's first bytes, as many as its length field says.
pub node_cmd_delivered :
    (g : Glue) (e : Engine) (now seq : ℕ) (nf : NodeFrame) (m : Master) (irq : Bool)
    (rx : ℕ → Bytes) (last : Bus) (s : Slave) (radio_seq : ℕ) (n : Node)
    → g.has_tx_node ≡ true
    → length nf ≡ 52
    → msg_length (frame_msg nf) ≤ 44
    → any_set (frame_factory_id nf) ≡ true
    → frame_factory_id nf ≡ n.factory_id
    → msg_id (frame_msg nf) ≡ n.address
    → m.ctrl_queue ≡ []
    → m.out_queue ≡ []
    → s.radio_queue ≡ []
    → let it = spi_iteration irq (λ i. answering (rx i)) last (post_cmd nf m).0 in
      (f : Bytes) × (r : Bytes) × (dispatch g e now msg_node_cmd seq nf
        ≡ (true, e, tx_node nf ∷ ack_if g seq))
      × ((receive_all it.0 s).radio_queue ≡ job_of nf ∷ [])
      × (frame_of radio_seq nf ≡ some f)
      × (node_receive n f
          ≡ Reception.received (record {
            reply = r;
            message = message_of (take (msg_length (frame_msg nf)) (frame_msg nf));
          }))
node_cmd_delivered g e now seq nf m irq rx last s radio_seq n hg l hl set fid addr hc ho empty =
    let d = downlink_lem radio_seq nf n l hl set in
    let taken = d.2 (sym addr) fid in
    (
      d.0,
      taken.0,
      dispatch-node_cmd g e now seq nf hg l,
      cmd_arrives m hc ho irq rx last s nf l empty,
      d.1,
      taken.1,
    )

-- An ARM_PENDING from Linux for a chip that the CC1310's table has room for is relayed and
-- acknowledged by the dispatcher (as far as the callbacks are installed), and posted to an SPI
-- task with nothing queued, on a bus that the slave answers, it makes the command the one pending
-- for the chip.
pub arm_pending_delivered :
    (g : Glue) (e : Engine) (now seq cmd : ℕ) (fid : Bytes) (m : Master) (irq : Bool)
    (rx : ℕ → Bytes) (last : Bus) (s : Slave)
    → g.has_tx_ctrl ≡ true
    → length fid ≡ 8
    → has_room fid s.table ≡ true
    → m.ctrl_queue ≡ []
    → m.out_queue ≡ []
    → let pc = ctrl_op_arm ∷ cmd ∷ fid in
      let it = spi_iteration irq (λ i. answering (rx i)) last (post_ctrl pc m).0 in
      (dispatch g e now msg_arm_pending seq pc ≡ (true, e, tx_ctrl pc ∷ ack_if g seq))
      × (lookup fid (receive_all it.0 s).table ≡ cmd)
unfolding apply_ctrl
arm_pending_delivered g e now seq cmd fid m irq rx last s hg l room hc ho =
    let pc : Bytes = ctrl_op_arm ∷ cmd ∷ fid in
    (
      dispatch-arm_pending g e now seq pc hg (omega (arith, l)),
      ap (lookup fid) (ctrl_arrives m hc ho irq rx last s pc (omega (arith, l)))
          ∙ ap (λ x. lookup fid (arm x cmd s.table)) (take_all 8 fid (omega arith))
          ∙ lookup-arm fid fid cmd s.table
          ∙ simp (bytes_eq_self fid, room),
    )
