-- ===== src/Node/Task.antt =====
-- rfEchoTx.c of the solar controller node: the JOIN button, and the radio task's loop with the two
-- queues that it shares with the controller task. A queued message stands for its first bytes, as
-- many as its length field says.
use bramka_setup.Base.{ℕ, suc, Option, none, some, List, [], ◌∷◌, ◌++◌, Bytes, replicate, ◌>>=◌}
use bramka_setup.Shared.NodeProtocol.{
  MessageStruct, message, addr_unprovisioned, node_solar_controller, cmd_join_request,
}
use bramka_setup.Comms.Session.{queue_send}
use bramka_setup.Control.Light.{radio_depth}
use bramka_setup.Rf.{Reception, load_nul}
use bramka_setup.Node.{Node, Downlink, send_message, node_receive}
use Reception.{ignored, fault, received}

-- NODE_CAPABILITIES: the relay action, in 4 bytes
abbrev pub node_capabilities : Bytes
node_capabilities = 1 ∷ 0 ∷ 0 ∷ 0 ∷ []

-- mq_maxmsg of the controller's queue
abbrev pub command_depth : ℕ
command_depth = 10

-- the radio's state, radioQueue and solarControllerQueue
pub record RadioTask : Type 0 where
  pub node : Node
  pub radio_queue : List MessageStruct
  pub commands : List MessageStruct

-- the joinMsg of the button
abbrev pub join_message : Bytes → MessageStruct
join_message fid =
    message addr_unprovisioned node_solar_controller cmd_join_request 16 (fid ++ node_capabilities)

-- `buttonCallback2`
unfoldable pub press_button : RadioTask → RadioTask
press_button s = record s {
  radio_queue = queue_send radio_depth (join_message s.node.factory_id) s.radio_queue;
}

-- EVENT_SEND_PACKET: the queue is drained, the i-th message with the packets heard after each of
-- its sends. The frames, each as often as it goes out; none where a copy overruns.
unfoldable pub send_queue :
    (ℕ → ℕ → List Bytes) → ℕ → List MessageStruct → RadioTask → Option (List Bytes × RadioTask)
send_queue heard i [] s = some ([], record s { radio_queue = [] })
send_queue heard i (m ∷ ms) s = do
  r ← send_message (heard i) m s.node
  rest ← send_queue heard (suc i) ms (record s { node = r.3 })
  some (replicate r.1 r.0 ++ rest.0, rest.1)

-- What the controller is handed, and the reply, for one packet that is taken.
abbrev pub take_in : Downlink → RadioTask → List Bytes × RadioTask
take_in d s = (d.reply ∷ [], record s { commands = queue_send command_depth d.message s.commands })

abbrev pub received_of : Reception Downlink → RadioTask → Option (List Bytes × RadioTask)
received_of ignored s = some ([], s)
received_of fault s = none
received_of (received d) s = some (take_in d s)

-- EVENT_RADIO_RX: the packets of the receive queue, one after another in the receive buffer
unfoldable pub receive_packets : List Bytes → RadioTask → Option (List Bytes × RadioTask)
receive_packets [] s = some ([], s)
receive_packets (p ∷ ps) s = do
  r ←
      received_of (node_receive s.node p)
        (record s { node = record s.node { rx = load_nul p s.node.rx } })
  rest ← receive_packets ps r.1
  some (r.0 ++ rest.0, rest.1)

-- What the task is woken by: with EVENT_SEND_PACKET it does not look at EVENT_RADIO_RX.
pub data Wake : Type 0 where
  send_packet : (ℕ → ℕ → List Bytes) → Wake
  radio_rx : List Bytes → Wake

-- One round of the loop of `radioTaskFunction`: what goes out, and the state.
unfoldable pub radio_round : Wake → RadioTask → Option (List Bytes × RadioTask)
radio_round (Wake.send_packet heard) s = send_queue heard 0 s.radio_queue s
radio_round (Wake.radio_rx packets) s = receive_packets packets s
