-- ===== src/Concentrator/Exchange.antt =====
-- The nodes' uplink frames at the gateway, and the gateway's reply at the node.
use bramka_setup.Base.{
  sym, ap₂, ◌<◌, zero, suc, refl, take, drop, ◌-◌, ◌||◌, length-take, ◌∙◌, ap, ℕ, ◌+◌, ◌≤◌, ◌≡◌,
  arith, some, [], ◌∷◌, ◌++◌, Bytes, byte, length, ◌==◌, if◌then◌else◌,
}
use bramka_setup.Shared.NodeProtocol.{addr_gateway}
use bramka_setup.Shared.NodeProtocol.{MessageStruct, msg_id, msg_cmd, msg_length}
use bramka_setup.Node.{uplink_of}
use bramka_setup.Concentrator.Receive.{gateway_receive}
use bramka_setup.Rf.Frames.{length-sealed, sealed-last}
use bramka_setup.Rf.{
  is_ack, load, load_nul, tag_v2, sealed, Reception, message_of, checksum, reply_ack, reply_nack,
}
use bramka_setup.Rf.Frames.{
  body_v2, buffer, buffer-last, buffer-checksum_ok, buffer-fid, buffer-message, buffer-byte,
}
use bramka_setup.Concentrator.Pending.{Table, lookup, disarm}
use bramka_setup.Concentrator.Receive.{receive_from, accept, extract, choose_reply}

-- The reply to a chip's message and the table after it.
abbrev pub answer : Table → Bytes → ℕ → ℕ → ℕ × ℕ × Table
answer t fid cmd crc =
    if lookup fid t == 0
    then (reply_ack, crc, t)
    else if cmd == lookup fid t
    then (reply_ack, crc, disarm fid t)
    else (reply_nack, lookup fid t, t)

choose_reply-buffer :
    (t : Table) (src seq : ℕ) (fid m tail : Bytes) (hf : length fid ≡ 8)
    → 3 ≤ length m
    → choose_reply t (length m + 13) (buffer addr_gateway src seq fid m tail hf)
      ≡ answer t fid (byte m 2) (checksum (body_v2 src fid m seq))
unfolding choose_reply
choose_reply-buffer t src seq fid m tail hf h3 = ground (
  arith,
  buffer-fid addr_gateway src seq fid m tail hf,
  buffer-last addr_gateway src seq fid m tail hf,
  buffer-byte addr_gateway src seq fid m tail hf 2 (omega arith),
)

receive_from-buffer :
    (t : Table) (src seq : ℕ) (fid m tail : Bytes) (hf : length fid ≡ 8)
    → 3 ≤ length m
    → length m ≤ 44
    → receive_from t (length m + 13) (buffer addr_gateway src seq fid m tail hf) ≡ (
        let r = answer t fid (byte m 2) (checksum (body_v2 src fid m seq)) in
        Reception.received (record {
          reply = some (src ∷ r.0 ∷ addr_gateway ∷ r.1 ∷ []);
          frame = fid ++ message_of m;
          table = r.2;
        }))
unfolding receive_from accept extract
receive_from-buffer t src seq fid m tail hf h3 hm = ground (
  arith,
  choose_reply-buffer t src seq fid m tail hf h3,
  buffer-checksum_ok addr_gateway src seq fid m tail hf,
  buffer-fid addr_gateway src seq fid m tail hf,
  buffer-message addr_gateway src seq fid m tail hf,
  buffer-last addr_gateway src seq fid m tail hf,
)

gateway_receive-sealed :
    (t : Table) (buf : Bytes) (src seq : ℕ) (fid m : Bytes)
    → length fid ≡ 8
    → 3 ≤ length m
    → length m ≤ 44
    → gateway_receive t buf (sealed addr_gateway tag_v2 (body_v2 src fid m seq)) ≡ (
        let r = answer t fid (byte m 2) (checksum (body_v2 src fid m seq)) in
        Reception.received (record {
          reply = some (src ∷ r.0 ∷ addr_gateway ∷ r.1 ∷ []);
          frame = fid ++ message_of m;
          table = r.2;
        }))
gateway_receive-sealed t buf src seq fid m hf h3 hm =
    let f : Bytes = sealed addr_gateway tag_v2 (body_v2 src fid m seq) in
    let old : Bytes = drop (length f) buf in
    ap (λ n. receive_from t n (load f buf)) (length-sealed addr_gateway src seq fid m old hf)
    ∙ receive_from-buffer t src seq fid m old hf h3 hm

pub byte-take : (m : Bytes) (n i : ℕ) → i < n → byte (take n m) i ≡ byte m i
byte-take m zero i h = absurd (omega arith)
byte-take [] (suc n) i h = refl
byte-take (x ∷ m) (suc n) zero h = refl
byte-take (x ∷ m) (suc n) (suc i) h = byte-take m n i (omega arith)

-- What the gateway's reply to a chip means: without a pending command for the chip, or when the
-- message's command is the pending one (which is then taken off the table), the reply is the ACK;
-- otherwise it is a NACK with the pending command, and the table stays.
abbrev pub reply_for : Table → Bytes → MessageStruct → ℕ → Bytes × Table
reply_for t fid m crc =
    if lookup fid t == 0
    then (msg_id m ∷ reply_ack ∷ addr_gateway ∷ crc ∷ [], t)
    else if msg_cmd m == lookup fid t
    then (msg_id m ∷ reply_ack ∷ addr_gateway ∷ crc ∷ [], disarm fid t)
    else (msg_id m ∷ reply_nack ∷ addr_gateway ∷ lookup fid t ∷ [], t)

reply_for-answer :
    (t : Table) (fid : Bytes) (m : MessageStruct) (crc : ℕ)
    → (let r = answer t fid (msg_cmd m) crc in
        (reply_for t fid m crc).0 ≡ msg_id m ∷ r.0 ∷ addr_gateway ∷ r.1 ∷ []
        × ((reply_for t fid m crc).1 ≡ r.2))
reply_for-answer t fid m crc = (ground arith, ground arith)

reply_for-is_ack :
    (t : Table) (fid : Bytes) (m : MessageStruct) (crc : ℕ) (rx : Bytes)
    → is_ack (msg_id m) addr_gateway crc (load_nul (reply_for t fid m crc).0 rx)
      ≡ (lookup fid t == 0 || msg_cmd m == lookup fid t)
unfolding is_ack
reply_for-is_ack t fid m crc rx = ground arith

-- For an 8-byte factory id and a 44-byte message whose length field is from 3 to 44, the node
-- sends a frame, and the gateway, whatever its receive buffer held, forwards exactly the factory
-- id with the message's first bytes (as many as the length field says, the rest zero), replies ACK
-- when the chip has no pending command, ACK with the command taken off the table when the
-- message's command is the pending one, and otherwise a NACK with the pending command, which stays
-- in the table. The node takes the reply for the frame's ACK exactly when it is not a NACK.
pub uplink_lem :
    (t : Table) (buf : Bytes) (seq : ℕ) (fid : Bytes) (m : MessageStruct)
    → length fid ≡ 8
    → length m ≡ 44
    → 3 ≤ msg_length m
    → msg_length m ≤ 44
    → (f : Bytes) × (uplink_of fid seq m ≡ some f)
      × (gateway_receive t buf f
          ≡ Reception.received (record {
            reply = some (reply_for t fid m (byte f (length f - 1))).0;
            frame = fid ++ message_of (take (msg_length m) m);
            table = (reply_for t fid m (byte f (length f - 1))).1;
          }))
      × ((rx : Bytes)
          → is_ack
              (msg_id m)
              (byte f 0)
              (byte f (length f - 1))
              (load_nul (reply_for t fid m (byte f (length f - 1))).0 rx)
            ≡ (lookup fid t == 0 || msg_cmd m == lookup fid t))
unfolding uplink_of is_ack
uplink_lem t buf seq fid m hf hm h3 hl =
    let p : Bytes = take (msg_length m) m in
    let f : Bytes = sealed addr_gateway tag_v2 (body_v2 (msg_id m) fid p seq) in
    let hp : length p ≡ msg_length m = omega (arith, length-take (msg_length m) m) in
    let rx = gateway_receive-sealed t buf (msg_id m) seq fid p hf (omega arith) (omega arith) in
    let last = sealed-last addr_gateway (msg_id m) seq fid p hf in
    let cmd = byte-take m (msg_length m) 2 (omega arith) in
    (
      f,
      ground arith,
      rx
          ∙ ap₂
              (λ c crc.
                let r = answer t fid c crc in
                Reception.received (record {
                  reply = some (msg_id m ∷ r.0 ∷ addr_gateway ∷ r.1 ∷ []);
                  frame = fid ++ message_of p;
                  table = r.2;
                }))
              cmd (sym last)
          ∙ ap₂
              (λ q u.
                Reception.received
                  (record { reply = some q; frame = fid ++ message_of p; table = u }))
              (sym (reply_for-answer t fid m (byte f (length f - 1))).0)
              (sym (reply_for-answer t fid m (byte f (length f - 1))).1),
      reply_for-is_ack t fid m (byte f (length f - 1)),
    )
