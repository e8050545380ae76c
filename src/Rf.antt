-- ===== src/Rf.antt =====
-- What the radio code of the gateway (Gateway/Firmware/CC1310/radio_task.c) and of the nodes
-- (Nodes/SolarControllerNode/Firmware/rfEchoTx.c and its LightSwitchNode copy) have in common.
pub mod Frames
pub mod Equality
use bramka_setup.Base.{
  ℕ, Bool, true, false, ◌&&◌, ◌||◌, List, [], length, drop, ◌+◌, ◌-◌, byte, slice, ◌∷◌, ◌++◌,
  bit_xor, u8, Bytes, take, replicate, ◌==◌,
}

-- RF_FRAME_TAG_* and RF_REPLY_*
abbrev pub tag_legacy : ℕ
tag_legacy = b'D'

abbrev pub tag_v2 : ℕ
tag_v2 = b'E'

abbrev pub reply_ack : ℕ
reply_ack = b'A'

abbrev pub reply_nack : ℕ
reply_nack = b'N'

-- `calcChecksum`: the xor of the bytes, from `crc` on
unfoldable pub checksum_from : ℕ → Bytes → ℕ
checksum_from crc [] = crc
checksum_from crc (b ∷ bs) = checksum_from (u8 (bit_xor crc b)) bs

abbrev pub checksum : Bytes → ℕ
checksum bs = checksum_from 0 bs

-- `memcmp(a, b, n) == 0` on equally long byte strings
unfoldable pub bytes_eq : Bytes → Bytes → Bool
bytes_eq [] [] = true
bytes_eq [] (b ∷ bs) = false
bytes_eq (a ∷ as_) [] = false
bytes_eq (a ∷ as_) (b ∷ bs) = a == b && bytes_eq as_ bs

-- A zeroed MessageStruct with some bytes copied to its front.
abbrev pub message_of : Bytes → Bytes
message_of bs = take 44 (bs ++ replicate 44 0)

-- `memcpy(rxMsg, packetDataPointer, packetLength)`: a shorter packet leaves the old bytes behind it.
abbrev pub load : Bytes → Bytes → Bytes
load packet rx = packet ++ drop (length packet) rx

-- ... and `rxMsg[packetLength] = '\0'`
abbrev pub load_nul : Bytes → Bytes → Bytes
load_nul packet rx = (packet ++ 0 ∷ []) ++ drop (length packet + 1) rx

-- The reply that a sender waits for: to `me`, an ACK, from `dest`, with the frame's checksum.
unfoldable pub is_ack : ℕ → ℕ → ℕ → Bytes → Bool
is_ack me dest crc rx =
    byte rx 0 == me && byte rx 1 == reply_ack && byte rx 2 == dest && byte rx 3 == crc

-- The packets of the receive queue, one after another, while waiting for the ACK.
unfoldable pub collect : ℕ → ℕ → ℕ → List Bytes → Bytes → Bool → Bytes × Bool
collect me dest crc [] rx acked = (rx, acked)
collect me dest crc (p ∷ ps) rx acked =
    let rx' = load_nul p rx in collect me dest crc ps rx' (acked || is_ack me dest crc rx')

-- A frame's body and the checksum that ends it: the checksum covers everything from the source
-- address on.
abbrev pub sealed : ℕ → ℕ → Bytes → Bytes
sealed dest tag body = dest ∷ tag ∷ body ++ checksum body ∷ []

-- What a receiver does with a packet: it ignores it, copies more bytes than the message has or
-- reads before the packet (`fault`: C leaves this undefined), or takes the message in, with the
-- reply that it sends.
pub data Reception {ℓ} (A : Type ℓ) : Type ℓ where
  ignored : Reception A
  fault : Reception A
  received : A → Reception A

-- The test on a packet of n bytes at the front of `rx`: its tag and its checksum. Below 3 bytes the
-- length that the checksum is given is negative.
abbrev pub is_data_tag : Bytes → Bool
is_data_tag rx = byte rx 1 == tag_legacy || byte rx 1 == tag_v2

abbrev pub checksum_ok : ℕ → Bytes → Bool
checksum_ok n rx = byte rx (n - 1) == checksum (slice 2 (n - 3) rx)
