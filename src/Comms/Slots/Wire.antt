-- ===== src/Comms/Slots/Wire.antt =====
-- What sendProtocolMsg and sendReliable put on the link.
use bramka_setup.Base.{ℕ, ◌<◌, ◌≤◌, ◌≡◌, ◌≢◌, refl, arith, true, [], Bytes, length, none, some}
use bramka_setup.Shared.Protocol.{decode, encode, body, Decoded, max_payload_size}
use bramka_setup.Shared.Protocol.RoundTrip.{decode-encode}
use bramka_setup.Comms.Slots.{Link, send_protocol_msg}

-- The link takes everything.
abbrev pub IsUp : Link → Type 0
IsUp link = (w : Bytes) → link w ≡ true

encode-empty : (t s : ℕ) → encode [] t s none 0 ≡ encode [] t s (some []) 0
unfolding encode body
encode-empty t s = refl

pub send_protocol_msg_lem :
    (link : Link) (ep type seq : ℕ) (p : Bytes)
    → IsUp link
    → ep ≢ 0
    → seq < 65536
    → length p ≤ max_payload_size
    → (wire : Bytes) × (send_protocol_msg link ep type seq (some p) (length p) ≡ some wire)
      × (decode wire ≡ Decoded.ok (record { type = type; seq = seq; payload = p }))
unfolding send_protocol_msg
send_protocol_msg_lem link ep type seq p up ne hs hp =
    let (wire, e, d) = decode-encode [] type seq p hs hp in
    let u = up wire in (wire, ground arith, d)

pub send_protocol_msg-bare :
    (link : Link) (ep type seq : ℕ)
    → IsUp link
    → ep ≢ 0
    → seq < 65536
    → (wire : Bytes) × (send_protocol_msg link ep type seq none 0 ≡ some wire)
      × (decode wire ≡ Decoded.ok (record { type = type; seq = seq; payload = [] }))
unfolding send_protocol_msg
send_protocol_msg-bare link ep type seq up ne hs =
    let (wire, e, d) = decode-encode [] type seq [] hs (omega arith) in
    let u = up wire in let e' = encode-empty type seq in (wire, ground arith, d)
