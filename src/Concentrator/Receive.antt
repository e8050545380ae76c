-- ===== src/Concentrator/Receive.antt =====
-- radio_task.c, EVENT_RADIO_RX: the packets that the gateway receives, its ACK or NACK, and the
-- NodeFrame that goes to the SPI task.
use bramka_setup.Base.{
  ℕ, ◌-◌, ◌&&◌, ◌||◌, Option, none, some, [], ◌∷◌, ◌++◌, if◌then◌else◌, Bytes, byte, slice, length,
  replicate, leb, ltb, ◌==◌,
}
use bramka_setup.Shared.NodeProtocol.{NodeFrame, addr_gateway}
use bramka_setup.Rf.{
  tag_v2, reply_ack, reply_nack, Reception, is_data_tag, checksum_ok, message_of, load,
}
use bramka_setup.Concentrator.Pending.{Table, lookup, disarm}
use Reception.{ignored, fault, received}

-- GEN1_CONCENTRATOR_ADDRESS
abbrev pub addr_gen1 : ℕ
addr_gen1 = 0xf0

-- The reply, where one is sent, the frame for the SPI queue, and the pending table after it.
pub record Uplink : Type 0 where
  pub reply : Option Bytes
  pub frame : NodeFrame
  pub table : Table

-- The reply's tag and its last byte, and the table: a pending command is delivered in a NACK,
-- unless this uplink confirms it.
unfoldable pub choose_reply : Table → ℕ → Bytes → ℕ × ℕ × Table
choose_reply t n rx =
    let crc = byte rx (n - 1) in
    if byte rx 1 == tag_v2 && leb 14 n
    then (let fid = slice 3 8 rx in
        let pend = lookup fid t in
        if pend == 0
        then (reply_ack, crc, t)
        else if byte rx 13 == pend
        then (reply_ack, crc, disarm fid t)
        else (reply_nack, pend, t))
    else (reply_ack, crc, t)

-- The frame that n bytes carry; none where the copy's length is negative or above the message.
unfoldable pub extract : ℕ → Bytes → Option NodeFrame
extract n rx =
    if byte rx 1 == tag_v2 && leb 13 n
    then if leb (n - 13) 44 then some (slice 3 8 rx ++ message_of (slice 11 (n - 13) rx)) else none
    else if leb 5 n && leb (n - 5) 44
    then some (replicate 8 0 ++ message_of (slice 3 (n - 5) rx))
    else none

unfoldable pub accept : Table → ℕ → Bytes → Reception Uplink
accept t n rx =
    let to_us = byte rx 0 == addr_gateway in
    let r = choose_reply t n rx in
    elim (extract n rx) [
      | none ↦ fault
      | some nf ↦ received record {
        reply = if to_us then some (byte rx 2 ∷ r.0 ∷ byte rx 0 ∷ r.1 ∷ []) else none;
        frame = nf;
        table = if to_us then r.2 else t;
      }
    ]

-- n bytes of the receive buffer
unfoldable pub receive_from : Table → ℕ → Bytes → Reception Uplink
receive_from t n rx =
    if byte rx 0 == addr_gateway || byte rx 0 == addr_gen1
    then if is_data_tag rx
      then if ltb n 3 then fault else if checksum_ok n rx then accept t n rx else ignored
      else ignored
    else ignored

-- One packet, on top of the old bytes of the receive buffer.
abbrev pub gateway_receive : Table → Bytes → Bytes → Reception Uplink
gateway_receive t buf packet = receive_from t (length packet) (load packet buf)
