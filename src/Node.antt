-- ===== src/Node.antt =====
-- rfEchoTx.c of the solar controller node (Nodes/SolarControllerNode/Firmware): the uplink with its
-- retries, and the downlink with its ACK. The light switch's copy differs in the queues it serves.
pub mod Exchange
pub mod Attempts
pub mod Task
use bramka_setup.Base.{
  ℕ, zero, suc, ◌+◌, ◌-◌, Bool, true, false, ◌&&◌, Option, none, some, List, [], ◌∷◌, ◌++◌,
  if◌then◌else◌, Bytes, byte, take, slice, length, leb, ltb, u8, ◌==◌,
}
use bramka_setup.Shared.NodeProtocol.{MessageStruct, msg_id, msg_length, addr_gateway}
use bramka_setup.Rf.{
  tag_v2, reply_ack, Reception, is_data_tag, checksum_ok, message_of, load_nul, sealed, collect,
  bytes_eq,
}
use Reception.{ignored, fault, received}

-- MAX_RETRIES of rfEchoTx.c: one send and two more
abbrev pub max_retries : ℕ
max_retries = 2

-- gFactoryId, gNodeAddress, txSequenceNumber, rxMsg
pub record Node : Type 0 where
  pub factory_id : Bytes
  pub address : ℕ
  pub sequence : ℕ
  pub rx : Bytes

-- The uplink frame; none where the length field is above the message's size.
unfoldable pub uplink_of : Bytes → ℕ → MessageStruct → Option Bytes
uplink_of fid seq m =
    if leb (msg_length m) 44
    then some (sealed addr_gateway tag_v2 (msg_id m ∷ (fid ++ (take (msg_length m) m ++ seq ∷ []))))
    else none

-- `for (retry = 0; retry <= MAX_RETRIES; retry++)`, with the packets heard after the k-th send:
-- the number of sends, whether an ACK came, and the receive buffer.
unfoldable pub attempts : (ℕ → List Bytes) → ℕ → Bytes → ℕ → ℕ → Bytes → ℕ × Bool × Bytes
attempts heard me frame zero k rx = (k, false, rx)
attempts heard me frame (suc left) k rx =
    let r = collect me (byte frame 0) (byte frame (length frame - 1)) (heard k) rx false in
    let rest = attempts heard me frame left (suc k) r.0 in if r.1 then (suc k, true, r.0) else rest

-- One message of the radio queue.
unfoldable pub send_message :
    (ℕ → List Bytes) → MessageStruct → Node → Option (Bytes × ℕ × Bool × Node)
send_message heard m s =
    let seq = u8 (s.sequence + 1) in
    elim (uplink_of s.factory_id seq m) [
      | none ↦ none
      | some f ↦
          let r = attempts heard (msg_id m) f (suc max_retries) 0 s.rx in
          some (f, r.0, r.1, record s { sequence = seq; rx = r.2 })
    ]

-- The ACK sent, and the message handed to the controller task.
pub record Downlink : Type 0 where
  pub reply : Bytes
  pub message : MessageStruct

-- The message of an n-byte packet for this chip; none where the copy's length is negative or above
-- the message.
unfoldable pub extract : ℕ → Bytes → Option MessageStruct
extract n rx =
    if byte rx 1 == tag_v2
    then if leb 13 n
      then if leb (n - 13) 44 then some (message_of (slice 11 (n - 13) rx)) else none
      else some (message_of [])
    else if leb 5 n && leb (n - 5) 44
    then some (message_of (slice 3 (n - 5) rx))
    else none

-- `forUs`: a 'E' frame names the chip
abbrev pub for_us : Bytes → Bytes → Bool
for_us fid rx = if byte rx 1 == tag_v2 then bytes_eq (slice 3 8 rx) fid else true

unfoldable pub accept : Bytes → ℕ → Bytes → Reception Downlink
accept fid n rx =
    if for_us fid rx
    then elim (extract n rx) [
      | none ↦ fault
      | some m ↦
          received
            record { reply = byte rx 2 ∷ reply_ack ∷ byte rx 0 ∷ byte rx (n - 1) ∷ []; message = m }
    ]
    else ignored

-- n bytes of the receive buffer
unfoldable pub receive_from : Node → ℕ → Bytes → Reception Downlink
receive_from s n rx =
    if byte rx 0 == s.address
    then if is_data_tag rx
      then if ltb n 3 then fault else if checksum_ok n rx then accept s.factory_id n rx else ignored
      else ignored
    else ignored

-- One packet of the receive queue.
abbrev pub node_receive : Node → Bytes → Reception Downlink
node_receive s packet = receive_from s (length packet) (load_nul packet s.rx)
