-- ===== src/Comms/Session/Replies.antt =====
-- What Linux gets back for each of its messages.
use bramka_setup.Base.{
  not, leb, refl, if◌then◌else◌, subst, Bool-cases, inl, inr, ℕ, ◌≡◌, ◌<◌, ◌≢◌, arith, Bool, true,
  false, ◌||◌, List, [], ◌∷◌, Bytes, ◌==◌, ◌&&◌,
}
use bramka_setup.Shared.Protocol.{
  decode, Decoded, msg_ack, msg_time_sync, msg_data, msg_ping, Message, msg_error,
}
use bramka_setup.Engine.State.{Engine}
use bramka_setup.Rpmsg.{Effect, dispatch}
use bramka_setup.Comms.Session.{Out, perform, perform_all, glue, is_control}
use bramka_setup.Comms.Slots.{Comms, Link}
use bramka_setup.Comms.Slots.Wire.{IsUp, send_protocol_msg-bare}
use bramka_setup.Comms.Session.{
  Core, Outcome, handle_message, to_linux_all, nodein_depth, queue_send, wake,
}
use bramka_setup.Comms.Slots.{send_ack}
use Effect.{reply, tx_node, tx_ctrl, tx_event}

-- the bytes to Linux among what leaves the core
unfoldable pub linux_bytes : List Out → List Bytes
linux_bytes [] = []
linux_bytes (Out.to_linux w ∷ xs) = w ∷ linux_bytes xs
linux_bytes (Out.to_node f ∷ xs) = linux_bytes xs
linux_bytes (Out.to_ctrl c ∷ xs) = linux_bytes xs

-- The effects end in one answer with the sequence number, and only sinks are called before it.
unfoldable pub answers : ℕ → List Effect → Bool
answers seq [] = false
answers seq (reply t s ∷ []) = (t == msg_ack || t == msg_error) && s == seq
answers seq (reply t s ∷ x ∷ xs) = false
answers seq (tx_node f ∷ xs) = answers seq xs
answers seq (tx_ctrl c ∷ xs) = answers seq xs
answers seq (tx_event t p ∷ xs) = false

dispatch-answers :
    (e : Engine) (now type seq : ℕ) (p : Bytes)
    → is_control type ≡ true
    → answers seq (dispatch glue e now type seq p).2 ≡ true
unfolding dispatch answers
dispatch-answers e now type seq p h = ground arith

-- One message to Linux, an ACK or an ERROR with the sequence number and no payload.
abbrev pub IsReply : ℕ → List Bytes → Type 0
IsReply seq ws =
    (w : Bytes) × (t : ℕ) × (ws ≡ w ∷ [])
    × (decode w ≡ Decoded.ok (record { type = t; seq = seq; payload = [] }))
    × ((t == msg_ack || t == msg_error) ≡ true)

perform_reply :
    (link : Link) (now seq t : ℕ) (c : Comms)
    → IsUp link
    → c.endpoint ≢ 0
    → seq < 65536
    → (t == msg_ack || t == msg_error) ≡ true
    → IsReply seq (linux_bytes (perform_all link now (reply t seq ∷ []) c).0)
unfolding perform perform_all linux_bytes
perform_reply link now seq t c up ne hs ht =
    let (w, e, d) = send_protocol_msg-bare link c.endpoint t seq up ne hs in
    (w, t, ground arith, d, ht)

ack-IsReply :
    (link : Link) (seq : ℕ) (c : Comms)
    → IsUp link
    → c.endpoint ≢ 0
    → seq < 65536
    → IsReply seq (linux_bytes (to_linux_all (send_ack link c seq)))
unfolding linux_bytes
ack-IsReply link seq c up ne hs =
    let (w, e, d) = send_protocol_msg-bare link c.endpoint msg_ack seq up ne hs in
    (w, msg_ack, ground arith, d, refl)

perform_all-answers :
    (link : Link) (now seq : ℕ) (fx : List Effect) (c : Comms)
    → IsUp link
    → c.endpoint ≢ 0
    → seq < 65536
    → answers seq fx ≡ true
    → IsReply seq (linux_bytes (perform_all link now fx c).0)
unfolding perform perform_all linux_bytes answers
perform_all-answers link now seq [] c up ne hs h = absurd (ground arith)
perform_all-answers link now seq (reply t s ∷ []) c up ne hs h =
    subst (λ k. IsReply seq (linux_bytes (perform_all link now (reply t k ∷ []) c).0)) {x = seq}
      {y = s} (ground arith) (perform_reply link now seq t c up ne hs (ground arith))
perform_all-answers link now seq (reply t s ∷ x ∷ xs) c up ne hs h = absurd (ground arith)
perform_all-answers link now seq (tx_node f ∷ xs) c up ne hs h =
    perform_all-answers link now seq xs c up ne hs h
perform_all-answers link now seq (tx_ctrl d ∷ xs) c up ne hs h =
    perform_all-answers link now seq xs c up ne hs h
perform_all-answers link now seq (tx_event t p ∷ xs) c up ne hs h = absurd (ground arith)

-- Once Linux's endpoint is known and while the link takes what it is given, every DATA, PING and
-- control message with a 16-bit sequence number is answered: the handler ends, and the bytes it
-- sends to Linux are one message, an ACK or an ERROR without payload, that decodes to the sequence
-- number of the message it answers.
pub handle_message_replies :
    (link : Link) (now : ℕ) (m : Message) (k : Core)
    → IsUp link
    → (k.comms).endpoint ≢ 0
    → m.seq < 65536
    → (m.type == msg_data || (m.type == msg_ping || is_control m.type)) ≡ true
    → (outs : List Out) × (k' : Core) × (handle_message link now m k ≡ Outcome.running outs k')
      × IsReply m.seq (linux_bytes outs)
unfolding handle_message perform perform_all
handle_message_replies link now m k up ne hs h = elim (Bool-cases (is_control m.type)) [
  | inl ctl ↦
      let fx = (dispatch glue k.engine now m.type m.seq m.payload).2 in
      let r = perform_all link now fx k.comms in
      let k' : Core = record k {
        comms = r.1;
        engine = (dispatch glue k.engine now m.type m.seq m.payload).1;
        node_in =
            if m.type == msg_time_sync then queue_send nodein_depth wake k.node_in else k.node_in;
      } in
      (
        r.0,
        k',
        ground arith,
        perform_all-answers link now m.seq fx k.comms up ne hs
            (dispatch-answers k.engine now m.type m.seq m.payload ctl),
      )
  | inr other ↦
      let a : IsReply m.seq (linux_bytes (to_linux_all (send_ack link k.comms m.seq))) =
        ack-IsReply link m.seq k.comms up ne hs in
      let last = (k.comms).their_last_seq in
      let k' : Core =
        if m.type == msg_ping || (not (last == 0) && leb m.seq last)
        then k
        else record k { comms = record k.comms { their_last_seq = m.seq } } in
      (to_linux_all (send_ack link k.comms m.seq), k', ground arith, a)
]
