-- ===== src/Shared/Protocol.antt =====
-- Shared/Protocol/protocol.h: the RPMsg wire format and its CRC.
pub mod RoundTrip
use bramka_setup.Base.{
  ℕ, zero, suc, ◌+◌, ◌*◌, ◌/◌, ◌%◌, bit_xor, bit_and, Bool, not, Option, none, some, [], ◌∷◌, ◌++◌,
  if◌then◌else◌, ◌==◌, ltb, leb, Bytes, byte, take, drop, slice, length, u8, u16,
}

abbrev pub max_payload_size : ℕ
max_payload_size = 480

abbrev pub max_pending_acks : ℕ
max_pending_acks = 8

abbrev pub max_retries : ℕ
max_retries = 3

abbrev pub ack_timeout_ms : ℕ
ack_timeout_ms = 1000

abbrev pub msg_header_size : ℕ
msg_header_size = 5

abbrev pub msg_crc_size : ℕ
msg_crc_size = 2

abbrev pub msg_overhead : ℕ
msg_overhead = msg_header_size + msg_crc_size

-- MSG_*
abbrev pub msg_hello : ℕ
msg_hello = 0x01

abbrev pub msg_hello_ack : ℕ
msg_hello_ack = 0x02

abbrev pub msg_ping : ℕ
msg_ping = 0x03

abbrev pub msg_data : ℕ
msg_data = 0x10

abbrev pub msg_ack : ℕ
msg_ack = 0x11

abbrev pub msg_event : ℕ
msg_event = 0x20

abbrev pub msg_error : ℕ
msg_error = 0xff

abbrev pub msg_debug_crash : ℕ
msg_debug_crash = 0xf0

abbrev pub msg_debug_hang : ℕ
msg_debug_hang = 0xf1

abbrev pub msg_rule_begin : ℕ
msg_rule_begin = 0x30

abbrev pub msg_rule_item : ℕ
msg_rule_item = 0x31

abbrev pub msg_rule_commit : ℕ
msg_rule_commit = 0x32

abbrev pub msg_node_cmd : ℕ
msg_node_cmd = 0x33

abbrev pub msg_time_sync : ℕ
msg_time_sync = 0x34

abbrev pub msg_arm_pending : ℕ
msg_arm_pending = 0x35

abbrev pub msg_node_telemetry : ℕ
msg_node_telemetry = 0x40

abbrev pub msg_node_state : ℕ
msg_node_state = 0x41

abbrev pub msg_rule_fired : ℕ
msg_rule_fired = 0x42

-- one of the eight rounds of `protocol_crc16`
unfoldable pub crc16_round : ℕ → ℕ
crc16_round crc = if bit_and crc 0x8000 == 0 then u16 (crc * 2) else u16 (bit_xor (crc * 2) 0x1021)

unfoldable pub crc16_rounds : ℕ → ℕ → ℕ
unfolding crc16_round
crc16_rounds zero crc = crc
crc16_rounds (suc b) crc = crc16_rounds b (crc16_round crc)

unfoldable pub crc16_loop : ℕ → Bytes → ℕ
unfolding crc16_rounds
crc16_loop crc [] = crc
crc16_loop crc (x ∷ xs) = crc16_loop (crc16_rounds 8 (u16 (bit_xor crc (x * 256)))) xs

-- `protocol_crc16`
unfoldable pub crc16 : Bytes → ℕ
unfolding crc16_loop
crc16 xs = crc16_loop 0xffff xs

-- `protocol_get_u16_be` at an offset, and `protocol_put_u16_be`
abbrev pub get_u16_be : Bytes → ℕ → ℕ
get_u16_be p i = byte p i * 256 + byte p (i + 1)

abbrev pub put_u16_be : ℕ → Bytes
put_u16_be v = u8 (v / 256) ∷ v % 256 ∷ []

-- header and payload: what the CRC covers. Without a payload pointer the bytes that were in the
-- buffer stay.
unfoldable pub body : Bytes → ℕ → ℕ → Option Bytes → ℕ → Bytes
body buf type seq none plen = type ∷ put_u16_be seq ++ put_u16_be plen ++ slice 5 plen buf
body buf type seq (some payload) plen =
    type ∷ put_u16_be seq ++ put_u16_be plen ++ take plen payload

-- `protocol_encode`: the bytes written to `buf`, or none for the return value 0
unfoldable pub encode : Bytes → ℕ → ℕ → Option Bytes → ℕ → Option Bytes
unfolding body
encode buf type seq payload plen =
    if ltb max_payload_size plen
    then none
    else some
        (body buf type seq payload plen ++ put_u16_be (crc16 (body buf type seq payload plen)))

pub data DecodeError : Type 0 where
  too_short bad_length bad_crc : DecodeError

pub record Message : Type 0 where
  pub type : ℕ
  pub seq : ℕ
  pub payload : Bytes

pub data Decoded : Type 0 where
  ok : Message → Decoded
  err : DecodeError → Decoded

-- `protocol_decode`
unfoldable pub decode : Bytes → Decoded
decode buf =
    if ltb (length buf) msg_overhead
    then err too_short
    else if ltb max_payload_size plen
    then err bad_length
    else if not (length buf == msg_header_size + plen + msg_crc_size)
    then err bad_length
    else if not
        (crc16 (take (msg_header_size + plen) buf) == get_u16_be buf (msg_header_size + plen))
    then err bad_crc
    else ok (record {
      type = byte buf 0;
      seq = get_u16_be buf 1;
      payload = slice msg_header_size plen buf;
    })
  where
    plen : ℕ
    plen = get_u16_be buf 3
