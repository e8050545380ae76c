-- ===== src/Comms/Slots.antt =====
-- ipc_rpmsg_echo.c, the messages to Linux that wait for an ACK: sendProtocolMsg, sendReliable,
-- the ACK's release of a slot, and processEventRetries. RPMessage_send is a parameter: whether the
-- call on these bytes succeeds.
pub mod Retry
pub mod Wire
use bramka_setup.Base.{
  ℕ, ◌+◌, ◌*◌, Bool, true, false, ◌&&◌, not, Option, none, some, List, [], ◌∷◌, ◌++◌, if◌then◌else◌,
  Bytes, length, replicate, ◌==◌, ltb, leb, u8, u16, sub_u64,
}
use bramka_setup.Shared.Protocol.{
  encode, max_pending_acks, max_retries, ack_timeout_ms, msg_ack, msg_event,
}

-- pending_ack_t; payload_len is the length of the payload
pub record PendingAck : Type 0 where
  pub in_use : Bool
  pub seq : ℕ
  pub msg_type : ℕ
  pub retry_count : ℕ
  pub sent_at_us : ℕ
  pub payload : Bytes

-- gLinuxEndpoint, gTheirLastSeq, gMySeq and gPendingAcks
pub record Comms : Type 0 where
  pub endpoint : ℕ
  pub their_last_seq : ℕ
  pub my_seq : ℕ
  pub pending : List PendingAck

-- `RPMessage_send(bytes) == SystemP_SUCCESS`
abbrev pub Link : Type 0
Link = Bytes → Bool

abbrev pub empty_slot : PendingAck
empty_slot = record {
  in_use = false;
  seq = 0;
  msg_type = 0;
  retry_count = 0;
  sent_at_us = 0;
  payload = [];
}

abbrev pub start : Comms
start = record {
  endpoint = 0;
  their_last_seq = 0;
  my_seq = 0;
  pending = replicate max_pending_acks empty_slot;
}

-- `sendProtocolMsg`: the bytes that the link took, or none for a failure
unfoldable pub send_protocol_msg : Link → ℕ → ℕ → ℕ → Option Bytes → ℕ → Option Bytes
send_protocol_msg link endpoint type seq payload plen =
    if endpoint == 0 then none else elim (encode [] type seq payload plen) [
      | none ↦ none
      | some bytes ↦ if link bytes then some bytes else none
    ]

abbrev pub listed {ℓ} : {A : Type ℓ} → Option A → List A
listed none = []
listed (some a) = a ∷ []

-- `sendAck` and `sendReply`: what goes out
abbrev pub send_reply : Link → Comms → ℕ → ℕ → List Bytes
send_reply link c type seq = listed (send_protocol_msg link c.endpoint type seq none 0)

abbrev pub send_ack : Link → Comms → ℕ → List Bytes
send_ack link c seq = send_reply link c msg_ack seq

-- the return values 0, -1 and -2 of `sendReliable`
pub data SendStatus : Type 0 where
  sent no_slot failed : SendStatus

-- `findFreePendingSlot` and the slot's filling: none when no slot is free
unfoldable pub fill_free : PendingAck → List PendingAck → Option (List PendingAck)
fill_free v [] = none
fill_free v (p ∷ ps) =
    let rest = fill_free v ps in
    if p.in_use then elim rest [ none ↦ none | some qs ↦ some (p ∷ qs) ] else some (v ∷ ps)

-- `gMySeq++; if (gMySeq == 0) gMySeq = 1;`
abbrev pub next_seq : ℕ → ℕ
next_seq s = if u16 (s + 1) == 0 then 1 else u16 (s + 1)

-- the slot that `sendReliable` fills
abbrev pub fresh_slot : ℕ → ℕ → ℕ → Bytes → PendingAck
fresh_slot seq type now payload = record {
  in_use = true;
  seq = seq;
  msg_type = type;
  retry_count = 0;
  sent_at_us = now;
  payload = payload;
}

-- the end of `sendReliable`, with what filling the slot came to
abbrev pub filled :
    SendStatus → List Bytes → ℕ → Comms → Option (List PendingAck) → SendStatus × List Bytes × Comms
filled status out seq c none = (SendStatus.no_slot, [], c)
filled status out seq c (some ps) = (status, out, record c { my_seq = seq; pending = ps })

-- A failed send leaves the slot filled, but not in use.
abbrev pub settle : Option Bytes → PendingAck → Comms → SendStatus × List Bytes × Comms
settle none slot c =
    filled SendStatus.failed [] slot.seq c (fill_free (record slot { in_use = false }) c.pending)
settle (some bytes) slot c =
    filled SendStatus.sent (bytes ∷ []) slot.seq c (fill_free slot c.pending)

-- `sendReliable` at time `now`; without a free slot nothing is sent
unfoldable pub send_reliable : Link → ℕ → ℕ → Bytes → Comms → SendStatus × List Bytes × Comms
send_reliable link now type payload c =
    let seq = next_seq c.my_seq in
    if c.endpoint == 0
    then (SendStatus.no_slot, [], c)
    else if ltb 128 (length payload)
    then (SendStatus.failed, [], c)
    else settle (send_protocol_msg link c.endpoint type seq (some payload) (length payload))
        (fresh_slot seq type now payload) c

-- `sendEvent`
abbrev pub send_event : Link → ℕ → Bytes → Comms → SendStatus × List Bytes × Comms
send_event link now payload c = send_reliable link now msg_event payload c

-- `findPendingBySeq` and `pa->in_use = 0`
unfoldable pub release : ℕ → List PendingAck → List PendingAck
release seq [] = []
release seq (p ∷ ps) =
    if p.in_use && p.seq == seq then record p { in_use = false } ∷ ps else p ∷ release seq ps

abbrev pub expired : ℕ → PendingAck → Bool
expired now p = not (ltb (sub_u64 now p.sent_at_us) (ack_timeout_ms * 1000))

-- One slot of `processEventRetries`: a free or waiting one stays, an exhausted one is given up, an
-- expired one is sent again.
unfoldable pub retry_slot : Link → ℕ → ℕ → PendingAck → List Bytes × PendingAck
retry_slot link endpoint now p =
    if not p.in_use
    then ([], p)
    else if not (expired now p)
    then ([], p)
    else if leb max_retries p.retry_count
    then ([], record p { in_use = false })
    else (
      listed (send_protocol_msg link endpoint p.msg_type p.seq (some p.payload) (length p.payload)),
      record p { retry_count = u8 (p.retry_count + 1); sent_at_us = now },
    )

unfoldable pub retry_slots : Link → ℕ → ℕ → List PendingAck → List Bytes × List PendingAck
retry_slots link endpoint now [] = ([], [])
retry_slots link endpoint now (p ∷ ps) =
    let r = retry_slot link endpoint now p in
    let rest = retry_slots link endpoint now ps in (r.0 ++ rest.0, r.1 ∷ rest.1)

-- `processEventRetries`
abbrev pub process_event_retries : Link → ℕ → Comms → List Bytes × Comms
process_event_retries link now c =
    let r = retry_slots link c.endpoint now c.pending in (r.0, record c { pending = r.1 })
