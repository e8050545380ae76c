-- ===== src/Comms/Session.antt =====
-- ipc_rpmsg_echo.c, handleLinuxMessage: one message from Linux, in the COMMS task.
pub mod Replies
pub mod Repeats
use bramka_setup.Base.{
  ℕ, Bool, true, ◌&&◌, not, some, List, [], ◌∷◌, ◌++◌, if◌then◌else◌, Bytes, length, replicate,
  ◌==◌, ltb, leb,
}
use bramka_setup.Shared.Protocol.{
  decode, Decoded, Message, msg_hello, msg_hello_ack, msg_ping, msg_data, msg_ack, msg_time_sync,
  msg_rule_begin, msg_rule_item, msg_rule_commit, msg_node_cmd, msg_arm_pending, msg_debug_crash,
  msg_debug_hang,
}
use bramka_setup.Shared.NodeProtocol.{NodeFrame, PendingCtrl}
use bramka_setup.Shared.Automation.{RuleAction}
use bramka_setup.Engine.State.{Engine}
use bramka_setup.Rpmsg.{Effect, Glue, dispatch}
use bramka_setup.Comms.Slots.{
  Comms, Link, send_protocol_msg, send_reply, send_ack, send_reliable, release, listed,
}
use Effect.{reply, tx_node, tx_ctrl, tx_event}
use Decoded.{ok, err}

-- outbox_item_t
pub data OutboxItem : Type 0 where
  rule_fired : NodeFrame → ℕ → RuleAction → OutboxItem
  telemetry : NodeFrame → OutboxItem

-- The tasks' shared objects: the engine's state, the COMMS state, and the two queues between them.
pub record Core : Type 0 where
  pub comms : Comms
  pub engine : Engine
  pub node_in : List NodeFrame
  pub outbox : List OutboxItem

-- What leaves the core: bytes to Linux, and what is handed to the SPI task.
pub data Out : Type 0 where
  to_linux : Bytes → Out
  to_node : NodeFrame → Out
  to_ctrl : PendingCtrl → Out

abbrev pub to_linux_all : List Bytes → List Out
to_linux_all [] = []
to_linux_all (b ∷ bs) = Out.to_linux b ∷ to_linux_all bs

-- `engine_rpmsg_init(sendReliable, sendReply, nodeTxSink, ctrlTxSink)`
abbrev pub glue : Glue
glue = record { has_tx_event = true; has_reply = true; has_tx_node = true; has_tx_ctrl = true }

-- one callback of the glue
unfoldable pub perform : Link → ℕ → Effect → Comms → List Out × Comms
perform link now (reply type seq) c = (to_linux_all (send_reply link c type seq), c)
perform link now (tx_node frame) c = (Out.to_node frame ∷ [], c)
perform link now (tx_ctrl ctrl) c = (Out.to_ctrl ctrl ∷ [], c)
perform link now (tx_event type payload) c =
    let r = send_reliable link now type payload c in (to_linux_all r.1, r.2)

unfoldable pub perform_all : Link → ℕ → List Effect → Comms → List Out × Comms
perform_all link now [] c = ([], c)
perform_all link now (x ∷ xs) c =
    let r = perform link now x c in
    let rest = perform_all link now xs r.1 in (r.0 ++ rest.0, rest.1)

abbrev pub nodein_depth : ℕ
nodein_depth = 8

-- ENGINE_NODEIN_TIME_RESYNC, and the frame that carries it
abbrev pub time_resync : ℕ
time_resync = 0xee

abbrev pub wake : NodeFrame
wake = replicate 9 0 ++ time_resync ∷ replicate 42 0

-- `xQueueSend` without waiting: a full queue drops the item
abbrev pub queue_send {ℓ} : {A : Type ℓ} → ℕ → A → List A → List A
queue_send depth x q = if ltb (length q) depth then q ++ x ∷ [] else q

-- A handler ends, or it stops the core for good.
pub data Outcome : Type 0 where
  running : List Out → Core → Outcome
  crashed : Outcome
  hung : Outcome

-- "M4F v1 ready"
abbrev pub hello_text : Bytes
hello_text = 77 ∷ 52 ∷ 70 ∷ 32 ∷ 118 ∷ 49 ∷ 32 ∷ 114 ∷ 101 ∷ 97 ∷ 100 ∷ 121 ∷ []

abbrev pub on_hello : Link → ℕ → Core → Outcome
on_hello link seq k =
    let c = record k.comms { their_last_seq = 0; my_seq = 0 } in
    Outcome.running
      (to_linux_all
        (listed (send_protocol_msg link c.endpoint msg_hello_ack seq (some hello_text) 12)))
      (record k { comms = c })

abbrev pub on_data : Link → ℕ → Core → Outcome
on_data link seq k =
    let c = k.comms in
    let last = c.their_last_seq in
    if not (last == 0) && leb seq last
    then Outcome.running (to_linux_all (send_ack link c seq)) k
    else Outcome.running (to_linux_all (send_ack link c seq))
        (record k { comms = record c { their_last_seq = seq } })

abbrev pub on_ack : ℕ → Core → Outcome
on_ack seq k =
    Outcome.running []
      (record k { comms = record k.comms { pending = release seq k.comms.pending } })

-- the messages of the engine glue, and the wake-up of the ENGINE task after a time sync
abbrev pub on_control : Link → ℕ → Message → Core → Outcome
on_control link now m k =
    let d = dispatch glue k.engine now m.type m.seq m.payload in
    let r = perform_all link now d.2 k.comms in
    Outcome.running r.0 (record k {
      comms = r.1;
      engine = d.1;
      node_in =
          if m.type == msg_time_sync then queue_send nodein_depth wake k.node_in else k.node_in;
    })

abbrev pub is_control : ℕ → Bool
is_control t =
    if t == msg_rule_begin
    then true
    else if t == msg_rule_item
    then true
    else if t == msg_rule_commit
    then true
    else if t == msg_node_cmd
    then true
    else if t == msg_arm_pending
    then true
    else t == msg_time_sync

unfoldable pub handle_message : Link → ℕ → Message → Core → Outcome
handle_message link now m k =
    if m.type == msg_hello
    then on_hello link m.seq k
    else if m.type == msg_data
    then on_data link m.seq k
    else if m.type == msg_ack
    then on_ack m.seq k
    else if m.type == msg_ping
    then Outcome.running (to_linux_all (send_ack link k.comms m.seq)) k
    else if is_control m.type
    then on_control link now m k
    else if m.type == msg_debug_crash
    then Outcome.crashed
    else if m.type == msg_debug_hang
    then Outcome.hung
    else Outcome.running [] k

-- `handleLinuxMessage` at time `now`: bytes that do not decode are dropped
unfoldable pub handle_linux_message : Link → ℕ → Bytes → Core → Outcome
handle_linux_message link now bytes k = elim (decode bytes) [
  | err e ↦ Outcome.running [] k
  | ok m ↦ handle_message link now m k
]
