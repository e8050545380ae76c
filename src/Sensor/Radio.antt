-- ===== src/Sensor/Radio.antt =====
-- Nodes/TempHumNode/Firmware/radio.c: the blocking send with its reply window, and the wait for a
-- JOIN_ACCEPT. The packets heard in each window, and whether the RF driver opens, are inputs.
pub mod Sends
pub mod Wait
use bramka_setup.Base.{
  ℕ, zero, suc, ◌+◌, ◌-◌, Bool, true, false, ◌&&◌, Option, none, some, List, [], ◌∷◌, ◌++◌,
  if◌then◌else◌, Bytes, byte, take, slice, length, leb, ltb, u8, u32, ◌==◌,
}
use bramka_setup.Shared.NodeProtocol.{
  MessageStruct, msg_id, msg_cmd, msg_length, assigned_addr, addr_unprovisioned, cmd_join_accept,
}
use bramka_setup.Rf.{
  tag_v2, tag_legacy, reply_ack, reply_nack, checksum, message_of, sealed, bytes_eq,
}

-- MAX_RETRIES of radio.c: one send and three more
abbrev pub max_retries : ℕ
max_retries = 3

-- The frame of a message: 'E' with a factory id, 'D' without; none where the length field is above
-- the message's size.
unfoldable pub frame_of : ℕ → Option Bytes → ℕ → MessageStruct → Option Bytes
frame_of dest fid seq m =
    if leb (msg_length m) 44
    then some (elim fid [
      | none ↦ sealed dest tag_legacy (msg_id m ∷ take (msg_length m) m ++ seq ∷ [])
      | some id ↦ sealed dest tag_v2 (msg_id m ∷ (id ++ (take (msg_length m) m ++ seq ∷ [])))
    ])
    else none

-- gotReply and *nackCmd
pub record Heard : Type 0 where
  pub got : Bool
  pub nack : ℕ

-- One packet of the reply window: the gateway's ACK of this frame, or its NACK.
unfoldable pub on_reply : ℕ → ℕ → ℕ → Bytes → Heard → Heard
on_reply me dest crc p h =
    if leb 4 (length p) && (byte p 0 == me && byte p 2 == dest)
    then if byte p 1 == reply_ack && byte p 3 == crc
      then record h { got = true }
      else if byte p 1 == reply_nack
      then record { got = true; nack = byte p 3 }
      else h
    else h

-- the packets of one window
unfoldable pub on_replies : ℕ → ℕ → ℕ → List Bytes → Heard → Heard
on_replies me dest crc [] h = h
on_replies me dest crc (p ∷ ps) h = on_replies me dest crc ps (on_reply me dest crc p h)

-- The sends from the `k`-th on, with the number left: how many were made in all, and what was heard.
unfoldable pub attempts : (ℕ → List Bytes) → ℕ → ℕ → ℕ → ℕ → ℕ → Heard → ℕ × Heard
attempts heard me dest crc zero k h = (k, h)
attempts heard me dest crc (suc left) k h =
    let h' = on_replies me dest crc (heard k) h in
    let rest = attempts heard me dest crc left (suc k) h' in if h'.got then (suc k, h') else rest

-- A send: the frame, the number of times it went out, the reply, and txSeq after it.
pub record Sent : Type 0 where
  pub frame : Bytes
  pub sends : ℕ
  pub reply : Heard
  pub tx_seq : ℕ

-- `radio_send_message` once the RF driver has opened
unfoldable pub send_message : (ℕ → List Bytes) → MessageStruct → ℕ → Option Bytes → ℕ → Option Sent
send_message heard m dest fid tx_seq =
    let seq = u8 (tx_seq + 1) in
    elim (frame_of dest fid seq m) [
      | none ↦ none
      | some f ↦
          let r =
            attempts heard (msg_id m) dest (byte f (length f - 1)) (suc max_retries) 0
              (record { got = false; nack = 0 }) in
          some (record { frame = f; sends = r.0; reply = r.1; tx_seq = seq })
    ]

-- mOff: where the message of a packet for this chip starts
unfoldable pub message_offset : Bytes → Bytes → Option ℕ
message_offset fid p =
    if byte p 1 == tag_v2 && (leb 13 (length p) && bytes_eq (slice 3 8 p) fid)
    then some 11
    else if byte p 1 == tag_legacy
    then some 3
    else none

-- addressed to an unprovisioned node, with the right checksum
abbrev pub for_unprovisioned : Bytes → Bool
for_unprovisioned p =
    leb 5 (length p)
    && (byte p 0 == addr_unprovisioned
        && byte p (length p - 1) == checksum (slice 2 (length p - 3) p))

-- what a JOIN_ACCEPT gives: the address, and the ACK that is sent
pub record Accepted : Type 0 where
  pub address : ℕ
  pub ack : Bytes

-- One packet while waiting for the JOIN_ACCEPT; the copy is cut to the message's size.
unfoldable pub join_accept_of : Bytes → Bytes → Option Accepted
join_accept_of fid p =
    if for_unprovisioned p
    then elim (message_offset fid p) [
      | none ↦ none
      | some off ↦
          let m = message_of (slice off (length p - off - 2) p) in
          if msg_cmd m == cmd_join_accept
          then some record {
            address = assigned_addr m;
            ack = byte p 2 ∷ reply_ack ∷ byte p 0 ∷ byte p (length p - 1) ∷ [];
          }
          else none
    ]
    else none

-- the packets of one window
unfoldable pub first_accept : Bytes → List Bytes → Option Accepted
first_accept fid [] = none
first_accept fid (p ∷ ps) =
    let rest = first_accept fid ps in elim (join_accept_of fid p) [ none ↦ rest | some a ↦ some a ]

abbrev pub window_ms : ℕ
window_ms = 500

-- The loop of `radio_wait_join_accept` on fuel, from the `k`-th window on: the number of windows
-- listened to, and what was accepted; none when the fuel is used up.
unfoldable pub wait_from : Bytes → (ℕ → List Bytes) → ℕ → ℕ → ℕ → ℕ → Option (ℕ × Option Accepted)
wait_from fid heard timeout zero k elapsed = none
wait_from fid heard timeout (suc fuel) k elapsed =
    let rest = wait_from fid heard timeout fuel (suc k) (u32 (elapsed + window_ms)) in
    if ltb elapsed timeout
    then elim (first_accept fid (heard k)) [ none ↦ rest | some a ↦ some (suc k, some a) ]
    else some (k, none)

-- `radio_wait_join_accept` once the RF driver has opened
unfoldable pub wait_join_accept : Bytes → (ℕ → List Bytes) → ℕ → ℕ → Option (ℕ × Option Accepted)
wait_join_accept fid heard timeout fuel = wait_from fid heard timeout fuel 0 0
