-- ===== src/Joining.antt =====
-- A chip's way onto the network: the JOIN button and radio task of rfEchoTx.c, the gateway, and the
-- address in the solar controller task.
use bramka_setup.Base.{
  ℕ, ◌+◌, ◌≤◌, ◌<◌, ◌≡◌, ◌≢◌, refl, sym, arith, ap, ◌∙◌, Bool, true, false, Option, none, some,
  List, [], ◌∷◌, ◌++◌, Bytes, byte, length, take, replicate, u8, ◌==◌, length-append, length-take,
  length-replicate, get_or-append_left, drop-append_self, length-drop,
}
use bramka_setup.Shared.Protocol.{decode, Decoded, msg_node_telemetry, msg_node_cmd}
use bramka_setup.Shared.NodeProtocol.{
  MessageStruct, NodeFrame, frame_msg, frame_factory_id, msg_type, msg_cmd, msg_id, msg_length,
  assigned_addr, addr_pool_first, addr_pool_last, cmd_join_accept,
}
use bramka_setup.Rf.{Reception, message_of, load_nul}
use bramka_setup.Concentrator.Exchange.{byte-take}
use bramka_setup.Concentrator.Pending.{Table}
use bramka_setup.Concentrator.Receive.{Uplink, gateway_receive}
use bramka_setup.Concentrator.Transmit.{frame_of, any_set}
use bramka_setup.Control.Identity.{succeeded, identity_init, identity_persist}
use bramka_setup.Control.Light.{Gpio, radio_depth}
use bramka_setup.Control.Solar.{
  Solar, solar_magic, on_command, with_address, send_pump_status, pump_report,
}
use bramka_setup.Engine.State.{Engine}
use bramka_setup.Engine.Nodes.{Float32}
use bramka_setup.Engine.Evaluate.{Readings}
use bramka_setup.Rpmsg.{Glue, dispatch, tx_node, ack_if}
use bramka_setup.Comms.Slots.{Link, next_seq}
use bramka_setup.Comms.Slots.Wire.{IsUp}
use bramka_setup.Comms.Session.Replies.{linux_bytes}
use bramka_setup.Comms.Session.{Core, time_resync, queue_send}
use bramka_setup.Comms.Tasks.{engine_iteration, drain_engine_outbox}
use bramka_setup.Comms.Tasks.Delivery.{has_free}
use bramka_setup.Spi.Slave.{Slave, slave_iteration, job_of}
use bramka_setup.Spi.Slave.Uplinks.{Heard, master_receives}
use bramka_setup.Spi.Master.{Master, Bus, post_cmd, spi_iteration}
use bramka_setup.Spi.Exchange.{answering, receive_all}
use bramka_setup.Commands.{node_cmd_delivered}
use bramka_setup.Uplink.{frame_of_chip, uplink_delivered}
use bramka_setup.Node.{Node, uplink_of, send_message, node_receive}
use bramka_setup.Node.Attempts.{send_message_lem}
use bramka_setup.Node.Task.{
  RadioTask, Wake, command_depth, join_message, press_button, send_queue, receive_packets,
  radio_round, node_capabilities,
}

-- a byte of a message that is cut to its length and padded
byte-message_of :
    (m : Bytes) (n i : ℕ)
    → i < n
    → n ≤ 44
    → n ≤ length m
    → byte (message_of (take n m)) i ≡ byte m i
byte-message_of m n i h n44 hl =
    byte-take (take n m ++ replicate 44 0) 44 i (omega arith)
    ∙ get_or-append_left (take n m) (replicate 44 0) i 0 (omega (arith, length-take n m))
    ∙ byte-take m n i h

length-join_message : (fid : Bytes) → length (join_message fid) ≡ 44
length-join_message fid = omega (
  arith,
  length-take 40 ((fid ++ node_capabilities) ++ replicate 40 0),
  length-append (fid ++ node_capabilities) (replicate 40 0),
  length-replicate {A = ℕ} 40 0,
)

sends_one :
    (heard : ℕ → ℕ → List Bytes) (m : MessageStruct) (s : RadioTask) (f : Bytes) (n : ℕ)
    (acked : Bool) (node : Node)
    → send_message (heard 0) m s.node ≡ some (f, n, acked, node)
    → send_queue heard 0 (m ∷ []) s
      ≡ some (replicate n f ++ [], record s { node = node; radio_queue = [] })
unfolding send_queue
sends_one heard m s f n acked node h = simp h

pressed :
    (s : RadioTask)
    → s.radio_queue ≡ []
    → (press_button s).radio_queue ≡ join_message s.node.factory_id ∷ []
unfolding press_button
pressed s e = ap (queue_send radio_depth (join_message s.node.factory_id)) e

pressed_node : (s : RadioTask) → (press_button s).node ≡ s.node
unfolding press_button
pressed_node s = refl

-- The press of the button and the round that it wakes the radio task for.
press_sends :
    (heard : ℕ → ℕ → List Bytes) (s : RadioTask)
    → s.radio_queue ≡ []
    → (f : Bytes) × (n : ℕ) × (s' : RadioTask) × (radio_round
          (Wake.send_packet heard)
          (press_button s)
        ≡ some (replicate n f ++ [], s'))
      × (uplink_of s.node.factory_id (u8 (s.node.sequence + 1)) (join_message s.node.factory_id)
          ≡ some f)
      × (1 ≤ n)
      × (n ≤ 3)
unfolding radio_round press_button
press_sends heard s e =
    let (f, n, acked, s', sent, up, q, lo, hi, all) =
      send_message_lem (heard 0) (join_message s.node.factory_id) s.node (omega arith) in
    (
      f,
      n,
      record s { node = s'; radio_queue = [] },
      ap (λ q. send_queue heard 0 q (press_button s)) (pressed s e)
          ∙ sends_one heard _ (press_button s) f n acked s' sent,
      up,
      lo,
      hi,
    )

-- The round in which the radio task takes one packet.
takes_one :
    (s : RadioTask) (f r : Bytes) (m : MessageStruct)
    → s.commands ≡ []
    → node_receive s.node f ≡ Reception.received (record { reply = r; message = m })
    → (s' : RadioTask) × (radio_round (Wake.radio_rx (f ∷ [])) s ≡ some (r ∷ [], s'))
      × (s'.commands ≡ m ∷ [])
unfolding radio_round receive_packets
takes_one s f r m e h = (
  record s {
    node = record s.node { rx = load_nul f s.node.rx };
    commands = queue_send command_depth m s.commands;
  },
  simp h,
  ap (queue_send command_depth m) e,
)

-- the controller on a JOIN_ACCEPT
on_command-accept :
    (g : Gpio) (m : MessageStruct) (c : Solar)
    → msg_cmd m ≡ cmd_join_accept
    → addr_pool_first ≤ assigned_addr m
    → assigned_addr m ≤ addr_pool_last
    → length c.radio_queue < radio_depth
    → let c' = on_command g succeeded m c in
      (c'.address ≡ assigned_addr m)
      × (identity_init solar_magic c'.flash ≡ assigned_addr m)
      × (c'.radio_queue ≡ c.radio_queue ++ pump_report (assigned_addr m) c.relay1 ∷ [])
unfolding on_command with_address send_pump_status identity_init identity_persist
on_command-accept g m c hc lo hi room = (ground arith, ground arith, ground arith)

some_injective : {f g : Bytes} → some f ≡ some g → f ≡ g
some_injective {f} e = ap (λ o. elim o [ none ↦ f | some x ↦ x ]) e

-- the JOIN request is not the engine's wake-up
join-is_data :
    (fid : Bytes)
    → length fid ≡ 8
    → (msg_type (frame_msg (frame_of_chip fid (join_message fid))) == time_resync) ≡ false
join-is_data fid h =
    ap (λ m. msg_type m == time_resync)
      (drop-append_self 8 fid (message_of (take 16 (join_message fid))) h)

-- When the JOIN button of a solar controller with an 8-byte factory id and an empty radio queue is
-- pressed, the radio task's next round sends one frame, once to three times, whatever it hears; the
-- gateway takes this frame, whatever its receive buffer held; what it forwards, queued alone for
-- the SPI task and with each frame's attempts clocked at least once, is all that reaches the
-- engine's empty input queue; and when the ENGINE task takes it while the outbox is empty, and the
-- outbox is drained with an endpoint known, a free slot and a link that takes everything, the first
-- bytes Linux gets decode to a NODE_TELEMETRY whose payload is the factory id and the JOIN request.
pub join_requested :
    (heard : ℕ → ℕ → List Bytes) (n : RadioTask) (t : Table) (buf : Bytes) (initiated : Bool)
    (bus : ℕ → ℕ → Option Bytes) (s : Slave) (master : Master) (fl : Float32) (rd : Readings)
    (link : Link) (now : ℕ) (k : Core)
    → length n.node.factory_id ≡ 8
    → n.radio_queue ≡ []
    → ((i : ℕ) → Heard (bus i))
    → master.node_in ≡ []
    → k.outbox ≡ []
    → IsUp link
    → (k.comms).endpoint ≢ 0
    → has_free (k.comms).pending ≡ true
    → let fid = n.node.factory_id in
      let frame = frame_of_chip fid (join_message fid) in
      (f : Bytes) × (sends : ℕ) × (n' : RadioTask) × (g : Uplink) × (wire : Bytes) × (rest : List
        Bytes)
      × (radio_round (Wake.send_packet heard) (press_button n) ≡ some (replicate sends f ++ [], n'))
      × (1 ≤ sends)
      × (sends ≤ 3)
      × (gateway_receive t buf f ≡ Reception.received g)
      × ((master_receives
            (slave_iteration initiated bus (record s { spi_queue = g.frame ∷ [] })).0
            master).node_in
          ≡ frame ∷ [])
      × (linux_bytes (drain_engine_outbox link now (engine_iteration fl rd (some frame) k)).0
          ≡ wire ∷ rest)
      × (decode wire
          ≡ Decoded.ok (record {
            type = msg_node_telemetry;
            seq = next_seq (k.comms).my_seq;
            payload = frame;
          }))
join_requested heard n t buf initiated bus s master fl rd link now k hf hq hb hm ho up ne free =
    let fid : Bytes = n.node.factory_id in
    let (f, sends, n', round, made, lo, hi) = press_sends heard n hq in
    let (f', g, wire, rest, made', taken, reached, sent, decoded) =
      uplink_delivered t buf (u8 (n.node.sequence + 1)) fid (join_message fid) initiated bus s
        master fl rd link now k hf (length-join_message fid) (omega arith) (omega arith)
        (join-is_data fid hf) hb hm ho up ne free in
    (
      f,
      sends,
      n',
      g,
      wire,
      rest,
      round,
      lo,
      hi,
      ap (gateway_receive t buf) (some_injective (sym made ∙ made')) ∙ taken,
      reached,
      sent,
      decoded,
    )

-- When Linux answers with a NODE_CMD for a chip with an empty command queue (a NodeFrame of 52
-- bytes with the chip's non-zero factory id and the address that it listens to, the command
-- JOIN_ACCEPT, a length field from 13 to 44, and an address of the pool), then with the callback
-- installed, nothing else queued on the way and a bus that the slave answers: the gateway sends
-- one frame for it, the chip's radio task takes it, replies once, and hands exactly one command to
-- the controller; and with room in its radio queue and a write that succeeds the controller has
-- the assigned address, finds it again after a reset, and queues its status under it.
pub join_accepted :
    (g : Glue) (e : Engine) (now seq : ℕ) (nf : NodeFrame) (m : Master) (irq : Bool)
    (rx : ℕ → Bytes) (last : Bus) (s : Slave) (radio_seq : ℕ) (n : RadioTask) (pins : Gpio)
    (c : Solar)
    → g.has_tx_node ≡ true
    → length nf ≡ 52
    → 13 ≤ msg_length (frame_msg nf)
    → msg_length (frame_msg nf) ≤ 44
    → any_set (frame_factory_id nf) ≡ true
    → frame_factory_id nf ≡ n.node.factory_id
    → msg_id (frame_msg nf) ≡ n.node.address
    → msg_cmd (frame_msg nf) ≡ cmd_join_accept
    → addr_pool_first ≤ assigned_addr (frame_msg nf)
    → assigned_addr (frame_msg nf) ≤ addr_pool_last
    → m.ctrl_queue ≡ []
    → m.out_queue ≡ []
    → s.radio_queue ≡ []
    → n.commands ≡ []
    → length c.radio_queue < radio_depth
    → let it = spi_iteration irq (λ i. answering (rx i)) last (post_cmd nf m).0 in
      let a = assigned_addr (frame_msg nf) in
      (f : Bytes) × (r : Bytes) × (cmd : MessageStruct) × (n' : RadioTask) × (dispatch g e now
          msg_node_cmd seq nf
        ≡ (true, e, tx_node nf ∷ ack_if g seq))
      × ((receive_all it.0 s).radio_queue ≡ job_of nf ∷ [])
      × (frame_of radio_seq nf ≡ some f)
      × (radio_round (Wake.radio_rx (f ∷ [])) n ≡ some (r ∷ [], n'))
      × (n'.commands ≡ cmd ∷ [])
      × (let c' = on_command pins succeeded cmd c in
          (c'.address ≡ a)
          × (identity_init solar_magic c'.flash ≡ a)
          × (c'.radio_queue ≡ c.radio_queue ++ pump_report a c.relay1 ∷ []))
join_accepted g e now seq nf m irq rx last s radio_seq n pins c hg l lo hi set fid addr cmd first
      top hc ho hs hq room =
    let body : MessageStruct = frame_msg nf in
    let msg : MessageStruct = message_of (take (msg_length body) body) in
    let hl : length body ≡ 44 = omega (arith, length-drop 8 nf, l) in
    let (f, r, routed, job, framed, taken) =
      node_cmd_delivered g e now seq nf m irq rx last s radio_seq n.node hg l hi set fid addr hc ho
        hs in
    let (n', round, queued) = takes_one n f r msg hq taken in
    let at : (i : ℕ) → i < 13 → byte msg i ≡ byte body i =
      λ i h. byte-message_of body (msg_length body) i (omega arith) hi (omega arith) in
    let same : assigned_addr msg ≡ assigned_addr body = at 12 (omega arith) in
    let done =
      on_command-accept pins msg c (at 2 (omega arith) ∙ cmd) (omega (arith, same))
        (omega (arith, same)) room in
    (
      f,
      r,
      msg,
      n',
      routed,
      job,
      framed,
      round,
      queued,
      (
        done.0 ∙ same,
        done.1 ∙ same,
        done.2 ∙ ap (λ a. c.radio_queue ++ pump_report a c.relay1 ∷ []) same,
      ),
    )
