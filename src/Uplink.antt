-- ===== src/Uplink.antt =====
-- The way of a node's message to Linux: rfEchoTx.c, radio_task.c, the SPI link, and the ENGINE and
-- COMMS tasks.
use bramka_setup.Base.{
  ℕ, ◌≤◌, ◌≡◌, ◌≢◌, refl, arith, ap, ◌∙◌, Bool, true, false, Option, some, List, [], ◌∷◌, ◌++◌,
  Bytes, length, take, ◌==◌, length-append, length-take, replicate, length-replicate,
}
use bramka_setup.Shared.Protocol.{decode, Decoded, msg_node_telemetry}
use bramka_setup.Shared.NodeProtocol.{MessageStruct, NodeFrame, frame_msg, msg_type, msg_length}
use bramka_setup.Rf.{Reception, message_of}
use bramka_setup.Node.{uplink_of}
use bramka_setup.Engine.Nodes.{Float32}
use bramka_setup.Engine.Evaluate.{Readings}
use bramka_setup.Comms.Slots.{Link, next_seq}
use bramka_setup.Comms.Slots.Wire.{IsUp}
use bramka_setup.Comms.Session.Replies.{linux_bytes}
use bramka_setup.Comms.Session.{Core, time_resync}
use bramka_setup.Comms.Tasks.{engine_iteration, drain_engine_outbox}
use bramka_setup.Comms.Tasks.Delivery.{telemetry_delivered, has_free}
use bramka_setup.Concentrator.Pending.{Table}
use bramka_setup.Concentrator.Receive.{Uplink, gateway_receive}
use bramka_setup.Concentrator.Exchange.{uplink_lem}
use bramka_setup.Spi.Slave.{Slave, slave_iteration}
use bramka_setup.Spi.Slave.Uplinks.{Heard, master_receives, input_all, slave_iteration_delivers}
use bramka_setup.Spi.Master.{Master}
use bramka_setup.Spi.Exchange.{none_left, one_more}

-- the NodeFrame of a chip's message: as many of its bytes as its length field says
abbrev pub frame_of_chip : Bytes → MessageStruct → NodeFrame
frame_of_chip fid m = fid ++ message_of (take (msg_length m) m)

length-frame_of_chip :
    (fid : Bytes) (m : MessageStruct) → length fid ≡ 8 → length (frame_of_chip fid m) ≡ 52
length-frame_of_chip fid m h =
    let bs : Bytes = take (msg_length m) m in
    omega (
      arith,
      length-append fid (message_of bs),
      length-take 44 (bs ++ replicate 44 0),
      length-append bs (replicate 44 0),
      length-replicate {A = ℕ} 44 0,
    )

input_one : (nf : NodeFrame) → input_all (nf ∷ []) [] ≡ nf ∷ []
unfolding input_all
input_one nf = refl

-- For an 8-byte factory id and a 44-byte message whose length field is from 3 to 44 and whose type
-- is not the wake-up's: the node sends a frame; the gateway takes it, whatever its receive buffer
-- held; what it forwards, queued alone for the SPI task and with each frame's attempts clocked at
-- least once, is all that reaches the engine's empty input queue, and is the factory id with the
-- message's first bytes (as many as its length field says, the rest zero). When the ENGINE task
-- takes that frame while the outbox is empty, and the outbox is drained with an endpoint known, a
-- free slot and a link that takes everything, the first bytes Linux gets decode to a
-- NODE_TELEMETRY with the next sequence number and exactly this frame as payload.
pub uplink_delivered :
    (t : Table) (buf : Bytes) (seq : ℕ) (fid : Bytes) (m : MessageStruct) (initiated : Bool)
    (bus : ℕ → ℕ → Option Bytes) (s : Slave) (master : Master) (fl : Float32) (rd : Readings)
    (link : Link) (now : ℕ) (k : Core)
    → length fid ≡ 8
    → length m ≡ 44
    → 3 ≤ msg_length m
    → msg_length m ≤ 44
    → (msg_type (frame_msg (frame_of_chip fid m)) == time_resync) ≡ false
    → ((i : ℕ) → Heard (bus i))
    → master.node_in ≡ []
    → k.outbox ≡ []
    → IsUp link
    → (k.comms).endpoint ≢ 0
    → has_free (k.comms).pending ≡ true
    → (f : Bytes) × (g : Uplink) × (wire : Bytes) × (rest : List Bytes) × (uplink_of fid seq m
        ≡ some f)
      × (gateway_receive t buf f ≡ Reception.received g)
      × ((master_receives
            (slave_iteration initiated bus (record s { spi_queue = g.frame ∷ [] })).0
            master).node_in
          ≡ frame_of_chip fid m ∷ [])
      × (linux_bytes
            (drain_engine_outbox link now (engine_iteration fl rd (some (frame_of_chip fid m)) k)).0
          ≡ wire ∷ rest)
      × (decode wire
          ≡ Decoded.ok (record {
            type = msg_node_telemetry;
            seq = next_seq (k.comms).my_seq;
            payload = frame_of_chip fid m;
          }))
uplink_delivered t buf seq fid m initiated bus s master fl rd link now k hf hm h3 hl ty heard empty
      out up ne free =
    let frame : NodeFrame = frame_of_chip fid m in
    let l = length-frame_of_chip fid m hf in
    let u = uplink_lem t buf seq fid m hf hm h3 hl in
    let s' : Slave = record s { spi_queue = frame ∷ [] } in
    let spi =
      slave_iteration_delivers initiated bus s' master (λ e. absurd (ground arith)) heard
        (one_more frame [] l none_left) in
    let d = telemetry_delivered fl rd link now frame k ty out up ne (omega arith) free in
    (
      u.0,
      _,
      d.0,
      d.1,
      u.1,
      u.2,
      ap (λ x. x.node_in) spi.0 ∙ ap (input_all (frame ∷ [])) empty ∙ input_one frame,
      d.2,
      d.3,
    )
