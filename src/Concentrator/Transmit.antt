-- ===== src/Concentrator/Transmit.antt =====
-- radio_task.c, EVENT_SEND_PACKET: the frames that the gateway sends, their ACKs and retries.
pub mod Retries
use bramka_setup.Base.{
  ℕ, ◌+◌, ◌-◌, Bool, true, false, ◌&&◌, not, ◌||◌, Option, none, some, List, [], ◌∷◌, ◌++◌,
  if◌then◌else◌, Bytes, byte, take, length, u8, leb, ◌==◌,
}
use bramka_setup.Shared.NodeProtocol.{
  NodeFrame, frame_factory_id, frame_msg, msg_id, msg_length, addr_gateway,
}
use bramka_setup.Rf.{tag_legacy, tag_v2, sealed, collect}

-- MAX_RETRIES of radio_task.c
abbrev pub max_retries : ℕ
max_retries = 2

-- RadioMessageStruct
pub record Job : Type 0 where
  pub frame : NodeFrame
  pub retry_counter : ℕ

-- The sequence number, the receive buffer, the message queue, and whether this run of the queue
-- has started the retry timer.
pub record Sender : Type 0 where
  pub sequence : ℕ
  pub rx : Bytes
  pub queue : List Job
  pub timer : Bool

-- `hasFactory`
abbrev pub any_set : Bytes → Bool
any_set [] = false
any_set (b ∷ bs) = not (b == 0) || any_set bs

-- The frame sent with a sequence number; none where the message's length field is above the
-- message's size, so that the copy leaves the message.
unfoldable pub frame_of : ℕ → NodeFrame → Option Bytes
frame_of seq nf =
    let m = frame_msg nf in
    if leb (msg_length m) 44
    then some (
        if any_set (frame_factory_id nf)
        then sealed (msg_id m) tag_v2
            (addr_gateway ∷ frame_factory_id nf ++ take (msg_length m) m ++ seq ∷ [])
        else sealed (msg_id m) tag_legacy (addr_gateway ∷ take (msg_length m) m ++ seq ∷ []))
    else none

-- One job: the frame goes out, `heard` arrives in the ACK window. The result tells whether the frame
-- was acknowledged.
unfoldable pub send_job : (Bytes → List Bytes) → Job → Sender → Option (Bytes × Bool × Sender)
send_job heard job s =
    let seq = u8 (s.sequence + 1) in
    elim (frame_of seq job.frame) [
      | none ↦ none
      | some f ↦
          let r = collect addr_gateway (byte f 0) (byte f (length f - 1)) (heard f) s.rx false in
          some (f, r.1, record s { sequence = seq; rx = r.0 })
    ]

-- The drain of the queue: an unacknowledged job goes back to its end with the timer started, and
-- the drain stops there; one with no retries left is dropped. The frames sent, and the state.
unfoldable pub drain_queue : (Bytes → List Bytes) → List Job → Sender → Option (List Bytes × Sender)
drain_queue heard [] s = some ([], record s { queue = [] })
drain_queue heard (job ∷ jobs) s = elim (send_job heard job s) [
  | none ↦ none
  | some (f, acked, s') ↦
      let rest = drain_queue heard jobs s' in
      if not acked && leb job.retry_counter max_retries
      then some (
        f ∷ [],
        record s' {
          queue = jobs ++ record job { retry_counter = u8 (job.retry_counter + 1) } ∷ [];
          timer = true;
        },
      )
      else elim rest [ none ↦ none | some (fs, s'') ↦ some (f ∷ fs, s'') ]
]

-- EVENT_SEND_PACKET
abbrev pub on_send_packet : (Bytes → List Bytes) → Sender → Option (List Bytes × Sender)
on_send_packet heard s = drain_queue heard s.queue (record s { timer = false })
