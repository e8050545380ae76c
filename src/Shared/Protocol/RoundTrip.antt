-- ===== src/Shared/Protocol/RoundTrip.antt =====
-- Encoding and decoding of protocol.h are inverse to each other.
use bramka_setup.Base.{
  ℕ, zero, suc, ◌+◌, ◌*◌, ◌/◌, ◌%◌, ◌≤◌, ◌<◌, ◌≡◌, refl, ap, ◌∙◌, arith, some, [], ◌∷◌, ◌++◌, Bytes,
  byte, take, length, AreBytes, length-append, take-append_self, get_or-append_right, take_all, ap₂,
  u8,
}
use bramka_setup.Shared.Protocol.{
  max_payload_size, crc16, crc16_loop, crc16_rounds, crc16_round, get_u16_be, put_u16_be, body,
  encode, decode, ok, Message,
}

crc16_round-lt : (crc : ℕ) → crc16_round crc < 65536
unfolding crc16_round
crc16_round-lt crc = ground arith

crc16_rounds-lt : (b crc : ℕ) → crc < 65536 → crc16_rounds b crc < 65536
unfolding crc16_rounds
crc16_rounds-lt zero crc h = h
crc16_rounds-lt (suc b) crc h = crc16_rounds-lt b (crc16_round crc) (crc16_round-lt crc)

crc16_loop-lt : (xs : Bytes) (crc : ℕ) → crc < 65536 → crc16_loop crc xs < 65536
unfolding crc16_loop
crc16_loop-lt [] crc h = h
crc16_loop-lt (x ∷ xs) crc h = crc16_loop-lt xs _ (crc16_rounds-lt 8 _ (omega arith))

-- The checksum is a 16-bit word.
pub crc16-lt : (xs : Bytes) → crc16 xs < 65536
unfolding crc16
crc16-lt xs = crc16_loop-lt xs 0xffff (omega arith)

get_u16_be-append :
    (xs : Bytes) (n a b : ℕ) → length xs ≡ n → get_u16_be (xs ++ a ∷ b ∷ []) n ≡ a * 256 + b
get_u16_be-append xs n a b h = rw (high, low)
  where
    high : byte (xs ++ a ∷ b ∷ []) n ≡ a
    high =
        ap (byte (xs ++ a ∷ b ∷ [])) {y = n + 0} (omega arith)
        ∙ get_or-append_right xs (a ∷ b ∷ []) n 0 0 h

    low : byte (xs ++ a ∷ b ∷ []) (n + 1) ≡ b
    low = get_or-append_right xs (a ∷ b ∷ []) n 1 0 h

abbrev frame : ℕ → ℕ → ℕ → ℕ → ℕ → Bytes → ℕ → ℕ → Bytes
frame b0 b1 b2 b3 b4 p c1 c0 = (b0 ∷ b1 ∷ b2 ∷ b3 ∷ b4 ∷ p) ++ c1 ∷ c0 ∷ []

decode-frame :
    (b0 b1 b2 b3 b4 : ℕ) (p : Bytes) (c1 c0 : ℕ)
    → length p ≡ b3 * 256 + b4
    → length p ≤ max_payload_size
    → crc16 (b0 ∷ b1 ∷ b2 ∷ b3 ∷ b4 ∷ p) ≡ c1 * 256 + c0
    → decode (frame b0 b1 b2 b3 b4 p c1 c0)
      ≡ ok (record { type = b0; seq = b1 * 256 + b2; payload = p })
unfolding decode
decode-frame b0 b1 b2 b3 b4 p c1 c0 hl hp hc =
    let head : Bytes = b0 ∷ b1 ∷ b2 ∷ b3 ∷ b4 ∷ p in
    ground (
      arith,
      length-append p (c1 ∷ c0 ∷ []),
      take-append_self (5 + (b3 * 256 + b4)) head (c1 ∷ c0 ∷ []) (omega arith),
      get_u16_be-append head (5 + (b3 * 256 + b4)) c1 c0 (omega arith),
      take-append_self (b3 * 256 + b4) p (c1 ∷ c0 ∷ []) hl,
    )

-- What `protocol_encode` writes for a payload of at most 480 bytes, `protocol_decode` accepts, and
-- returns the same type, sequence number and payload.
pub decode-encode :
    (buf : Bytes) (type seq : ℕ) (payload : Bytes)
    → seq < 65536
    → length payload ≤ max_payload_size
    → (wire : Bytes) × (encode buf type seq (some payload) (length payload) ≡ some wire)
      × (decode wire ≡ ok (record { type = type; seq = seq; payload = payload }))
unfolding encode decode
decode-encode buf type seq payload hs hp =
    let n = length payload in
    let b = body buf type seq (some payload) n in
    let c = crc16 b in
    (
      b ++ put_u16_be c,
      ground arith,
      rw (take_all n payload (omega arith)) (
          decode-frame type (u8 (seq / 256)) (seq % 256) (u8 (n / 256)) (n % 256) payload
            (u8
              (crc16 (type ∷ u8 (seq / 256) ∷ seq % 256 ∷ u8 (n / 256) ∷ n % 256 ∷ payload) / 256))
            (crc16 (type ∷ u8 (seq / 256) ∷ seq % 256 ∷ u8 (n / 256) ∷ n % 256 ∷ payload) % 256)
            (omega arith) hp
            (omega (
              arith,
              crc16-lt (type ∷ u8 (seq / 256) ∷ seq % 256 ∷ u8 (n / 256) ∷ n % 256 ∷ payload),
            ))
          ∙ ground arith),
    )

split_last :
    (n : ℕ) (w : Bytes)
    → length w ≡ n + 2
    → (p : Bytes) × (c1 : ℕ) × (c0 : ℕ) × (w ≡ p ++ c1 ∷ c0 ∷ []) × (length p ≡ n)
split_last zero (a ∷ b ∷ []) h = ([], a, b, refl, refl)
split_last zero [] h = absurd (omega arith)
split_last zero (a ∷ []) h = absurd (omega arith)
split_last zero (a ∷ b ∷ c ∷ w) h = absurd (omega arith)
split_last (suc n) [] h = absurd (omega arith)
split_last (suc n) (a ∷ w) h =
    let (p, c1, c0, e, l) = split_last n w (omega arith) in
    (a ∷ p, c1, c0, ap (λ t. a ∷ t) e, ap suc l)

decode_frame_inv :
    (b0 b1 b2 b3 b4 : ℕ) (p : Bytes) (c1 c0 : ℕ) {m : Message}
    → decode (frame b0 b1 b2 b3 b4 p c1 c0) ≡ ok m
    → length p ≡ b3 * 256 + b4
    → (crc16 (b0 ∷ b1 ∷ b2 ∷ b3 ∷ b4 ∷ p) ≡ c1 * 256 + c0)
      × (m ≡ record { type = b0; seq = b1 * 256 + b2; payload = p })
      × (length p ≤ max_payload_size)
unfolding decode
decode_frame_inv b0 b1 b2 b3 b4 p c1 c0 h hl =
    let head : Bytes = b0 ∷ b1 ∷ b2 ∷ b3 ∷ b4 ∷ p in
    ground (
      arith,
      length-append p (c1 ∷ c0 ∷ []),
      take-append_self (5 + (b3 * 256 + b4)) head (c1 ∷ c0 ∷ []) (omega arith),
      get_u16_be-append head (5 + (b3 * 256 + b4)) c1 c0 (omega arith),
      take-append_self (b3 * 256 + b4) p (c1 ∷ c0 ∷ []) hl,
    )

length-decode : (w : Bytes) {m : Message} → decode w ≡ ok m → length w ≡ 5 + get_u16_be w 3 + 2
unfolding decode
length-decode w h = ground arith

AreBytes-append : (xs ys : Bytes) → AreBytes (xs ++ ys) → AreBytes ys
AreBytes-append [] ys h = h
AreBytes-append (x ∷ xs) ys h = AreBytes-append xs ys h.1

put-get : (a b : ℕ) → a < 256 → b < 256 → put_u16_be (a * 256 + b) ≡ a ∷ b ∷ []
put-get a b ha hb = ap₂ (λ x y. x ∷ y ∷ []) (omega arith) (omega arith)

body_of :
    (buf : Bytes) (b0 b1 b2 b3 b4 : ℕ) (p : Bytes)
    → put_u16_be (b1 * 256 + b2) ≡ b1 ∷ b2 ∷ []
    → put_u16_be (length p) ≡ b3 ∷ b4 ∷ []
    → body buf b0 (b1 * 256 + b2) (some p) (length p) ≡ b0 ∷ b1 ∷ b2 ∷ b3 ∷ b4 ∷ p
unfolding body
body_of buf b0 b1 b2 b3 b4 p hs hl =
    cc (ap₂ (λ x y. b0 ∷ x ++ y ++ take (length p) p) hs hl, take_all (length p) p (omega arith))

encode-frame :
    (buf : Bytes) (b0 b1 b2 b3 b4 : ℕ) (p : Bytes) (c1 c0 : ℕ)
    → AreBytes (frame b0 b1 b2 b3 b4 p c1 c0)
    → length p ≡ b3 * 256 + b4
    → length p ≤ max_payload_size
    → crc16 (b0 ∷ b1 ∷ b2 ∷ b3 ∷ b4 ∷ p) ≡ c1 * 256 + c0
    → encode buf b0 (b1 * 256 + b2) (some p) (length p) ≡ some (frame b0 b1 b2 b3 b4 p c1 c0)
unfolding encode
encode-frame buf b0 b1 b2 b3 b4 p c1 c0 v hl hp hc =
    let w = AreBytes-append p (c1 ∷ c0 ∷ []) v.1.1.1.1.1 in
    let seq_put = put-get b1 b2 v.1.0 v.1.1.0 in
    let len_put = ap put_u16_be hl ∙ put-get b3 b4 v.1.1.1.0 v.1.1.1.1.0 in
    let b : body buf b0 (b1 * 256 + b2) (some p) (length p) ≡ b0 ∷ b1 ∷ b2 ∷ b3 ∷ b4 ∷ p =
      body_of buf b0 b1 b2 b3 b4 p seq_put len_put in
    let c = put-get c1 c0 w.0 w.1.0 in ground (arith, b, c, hc)

-- Every buffer of bytes that `protocol_decode` accepts is the one that `protocol_encode` writes for
-- the returned type, sequence number and payload: no two wire images decode to the same message.
pub encode-decode :
    (buf wire : Bytes) {m : Message}
    → AreBytes wire
    → decode wire ≡ ok m
    → encode buf m.type m.seq (some m.payload) (length m.payload) ≡ some wire
encode-decode buf [] v h = absurd (omega (arith, length-decode [] h))
encode-decode buf (a ∷ []) v h = absurd (omega (arith, length-decode (a ∷ []) h))
encode-decode buf (a ∷ b ∷ []) v h = absurd (omega (arith, length-decode (a ∷ b ∷ []) h))
encode-decode buf (a ∷ b ∷ c ∷ []) v h = absurd (omega (arith, length-decode (a ∷ b ∷ c ∷ []) h))
encode-decode buf (a ∷ b ∷ c ∷ d ∷ []) v h =
    absurd (omega (arith, length-decode (a ∷ b ∷ c ∷ d ∷ []) h))
encode-decode buf (b0 ∷ b1 ∷ b2 ∷ b3 ∷ b4 ∷ r) {m} v h =
    let (p, c1, c0, e, l) =
      split_last (b3 * 256 + b4) r (omega (arith, length-decode (b0 ∷ b1 ∷ b2 ∷ b3 ∷ b4 ∷ r) h)) in
    let (crc, same, small) = decode_frame_inv b0 b1 b2 b3 b4 p c1 c0 (rw e at h) l in
    let v' : AreBytes (frame b0 b1 b2 b3 b4 p c1 c0) = rw e at v in
    rw (same, e) (encode-frame buf b0 b1 b2 b3 b4 p c1 c0 v' l small crc)
