-- ===== src/Comms/Tasks/Delivery.antt =====
-- From a node's frame in the ENGINE task to the bytes that Linux gets.
use bramka_setup.Base.{
  ap₂, replicate, ℕ, ◌≤◌, ◌≡◌, ◌≢◌, refl, arith, Bool, true, false, some, List, [], ◌∷◌, ◌++◌,
  Bytes, length, if◌then◌else◌, ◌==◌, ltb, ap, Bool-cases, inl, inr, ◌∙◌,
}
use bramka_setup.Shared.Protocol.{decode, Decoded, msg_node_telemetry}
use bramka_setup.Shared.NodeProtocol.{NodeFrame, frame_msg, msg_type}
use bramka_setup.Engine.State.{Engine, Fired}
use bramka_setup.Engine.Nodes.{Float32, update_node}
use bramka_setup.Engine.Evaluate.{Readings, evaluate, eval_node}
use bramka_setup.Rpmsg.{report_telemetry}
use bramka_setup.Comms.Slots.{
  Comms, Link, PendingAck, send_reliable, next_seq, fill_free, fresh_slot, SendStatus,
}
use bramka_setup.Comms.Slots.Wire.{IsUp, send_protocol_msg_lem}
use bramka_setup.Comms.Session.{Core, OutboxItem, perform, perform_all, time_resync}
use bramka_setup.Comms.Session.Replies.{linux_bytes}
use bramka_setup.Comms.Tasks.{
  outbox_depth, engine_action_sink, sink_all, engine_iteration, drain_item, drain_items,
  drain_engine_outbox,
}
use OutboxItem.{telemetry, rule_fired}

-- some slot is free
abbrev pub has_free : List PendingAck → Bool
has_free [] = false
has_free (p ∷ ps) = if p.in_use then has_free ps else true

fill_free-free :
    (v : PendingAck) (ps : List PendingAck)
    → has_free ps ≡ true
    → (qs : List PendingAck) × (fill_free v ps ≡ some qs)
unfolding fill_free
fill_free-free v [] h = absurd (ground arith)
fill_free-free v (p ∷ ps) h = elim (Bool-cases p.in_use) [
  | inl u ↦ let (qs, e) = fill_free-free v ps (ground arith) in (p ∷ qs, ground arith)
  | inr u ↦ (v ∷ ps, ground arith)
]

-- With an endpoint, a free slot and a link that takes everything, a payload of at most 128 bytes
-- is sent at once and put in a slot: the bytes decode to its type, the next sequence number and
-- the payload.
pub send_reliable_lem :
    (link : Link) (now type : ℕ) (p : Bytes) (c : Comms)
    → IsUp link
    → c.endpoint ≢ 0
    → length p ≤ 128
    → has_free c.pending ≡ true
    → (wire : Bytes) × (qs : List PendingAck) × (fill_free
          (fresh_slot (next_seq c.my_seq) type now p)
          c.pending
        ≡ some qs)
      × (send_reliable link now type p c
          ≡ (SendStatus.sent, wire ∷ [], record c { my_seq = next_seq c.my_seq; pending = qs }))
      × (decode wire ≡ Decoded.ok (record { type = type; seq = next_seq c.my_seq; payload = p }))
unfolding send_reliable
send_reliable_lem link now type p c up ne hp free =
    let seq = next_seq c.my_seq in
    let (wire, e, d) =
      send_protocol_msg_lem link c.endpoint type seq p up ne (ground arith) (omega arith) in
    let (qs, f) = fill_free-free (fresh_slot seq type now p) c.pending free in
    (wire, qs, f, ground arith, d)

sink_all-head :
    (fs : List Fired) (x : OutboxItem) (q : List OutboxItem)
    → (q' : List OutboxItem) × (sink_all fs (x ∷ q) ≡ x ∷ q')
unfolding sink_all engine_action_sink
sink_all-head [] x q = (q, refl)
sink_all-head (f ∷ fs) x q = elim (Bool-cases (ltb (length (x ∷ q)) outbox_depth)) [
  | inl h ↦
      let (q', e) =
        sink_all-head fs x (q ++ rule_fired (replicate 8 0 ++ f.msg) f.rule_index f.action ∷ []) in
      (q', ap (sink_all fs) (ground arith) ∙ e)
  | inr h ↦ let (q', e) = sink_all-head fs x q in (q', ap (sink_all fs) (ground arith) ∙ e)
]

drain_items-telemetry :
    (link : Link) (now : ℕ) (frame : NodeFrame) (q : List OutboxItem) (c c' : Comms) (wire : Bytes)
    → send_reliable link now msg_node_telemetry frame c ≡ (SendStatus.sent, wire ∷ [], c')
    → linux_bytes (drain_items link now (telemetry frame ∷ q) c).0
      ≡ wire ∷ linux_bytes (drain_items link now q c').0
unfolding drain_items drain_item report_telemetry perform perform_all linux_bytes
drain_items-telemetry link now frame q c c' wire s = simp s

engine_iteration-frame :
    (fl : Float32) (rd : Readings) (frame : NodeFrame) (k : Core)
    → (msg_type (frame_msg frame) == time_resync) ≡ false
    → k.outbox ≡ []
    → (engine_iteration fl rd (some frame) k).outbox
        ≡ sink_all
            (evaluate fl (update_node k.engine (frame_msg frame)).0 eval_node rd).1
            (telemetry frame ∷ [])
      × ((engine_iteration fl rd (some frame) k).comms ≡ k.comms)
unfolding engine_iteration
engine_iteration-frame fl rd frame k t empty = (ground arith, ground arith)

-- When a frame of at most 128 bytes that is not the wake-up reaches the ENGINE task while the
-- outbox is empty, and then the outbox is drained with an endpoint known, a free slot and a link
-- that takes everything, the first bytes Linux gets decode to a NODE_TELEMETRY with the next
-- sequence number and the whole frame as payload.
pub telemetry_delivered :
    (fl : Float32) (rd : Readings) (link : Link) (now : ℕ) (frame : NodeFrame) (k : Core)
    → (msg_type (frame_msg frame) == time_resync) ≡ false
    → k.outbox ≡ []
    → IsUp link
    → (k.comms).endpoint ≢ 0
    → length frame ≤ 128
    → has_free (k.comms).pending ≡ true
    → (wire : Bytes) × (rest : List Bytes) × (linux_bytes
          (drain_engine_outbox link now (engine_iteration fl rd (some frame) k)).0
        ≡ wire ∷ rest)
      × (decode wire
          ≡ Decoded.ok record {
            type = msg_node_telemetry;
            seq = next_seq (k.comms).my_seq;
            payload = frame;
          })
telemetry_delivered fl rd link now frame k t empty up ne hp free =
    let (wire, qs, f, s, d) =
      send_reliable_lem link now msg_node_telemetry frame k.comms up ne hp free in
    let e : Engine = (update_node k.engine (frame_msg frame)).0 in
    let (q', h) = sink_all-head (evaluate fl e eval_node rd).1 (telemetry frame) [] in
    let (o, same) = engine_iteration-frame fl rd frame k t empty in
    let c' : Comms = record k.comms { my_seq = next_seq (k.comms).my_seq; pending = qs } in
    (
      wire,
      linux_bytes (drain_items link now q' c').0,
      ap₂ (λ q c. linux_bytes (drain_items link now q c).0) (o ∙ h) same
          ∙ drain_items-telemetry link now frame q' k.comms c' wire s,
      d,
    )
