-- ===== src/Sensor/Radio/Sends.antt =====
-- How often the sensor node sends a message, and what it hears.
use bramka_setup.Base.{
  ℕ, zero, suc, ◌+◌, ◌-◌, ◌≤◌, ◌≡◌, ◌≢◌, refl, arith, ap, true, false, Option, none, some, List,
  Bytes, byte, length, u8, Option-cases, inl, inr,
}
use bramka_setup.Shared.NodeProtocol.{MessageStruct, msg_id, msg_length}
use bramka_setup.Sensor.Radio.{
  max_retries, frame_of, Heard, on_replies, attempts, Sent, send_message,
}

attempts_lem :
    (heard : ℕ → List Bytes) (me dest crc left k : ℕ) (h : Heard)
    → (let r = attempts heard me dest crc left k h in
        (k ≤ r.0)
        × (r.0 ≤ k + left)
        × (r.1.got ≡ false → r.0 ≡ k + left)
        × (1 ≤ left → suc k ≤ r.0))
unfolding attempts
attempts_lem heard me dest crc zero k h =
    (omega arith, omega arith, λ e. omega arith, λ l. absurd (omega arith))
attempts_lem heard me dest crc (suc left) k h =
    let h' : Heard = on_replies me dest crc (heard k) h in
    let (lo, hi, all, one) = attempts_lem heard me dest crc left (suc k) h' in
    (ground arith, ground arith, λ e. ground arith, λ l. ground arith)

frame_of-some :
    (dest : ℕ) (fid : Option Bytes) (seq : ℕ) (m : MessageStruct)
    → msg_length m ≤ 44
    → frame_of dest fid seq m ≢ none
unfolding frame_of
frame_of-some dest fid seq m h e = ground arith

-- the replies of a frame's first window
abbrev pub first_window : (ℕ → List Bytes) → ℕ → ℕ → Bytes → Heard
first_window heard me dest f =
    on_replies me dest (byte f (length f - 1)) (heard 0) (record { got = false; nack = 0 })

attempts-first :
    (heard : ℕ → List Bytes) (me dest crc left : ℕ) (h : Heard)
    → (on_replies me dest crc (heard 0) h).got ≡ true
    → attempts heard me dest crc (suc left) 0 h ≡ (1, on_replies me dest crc (heard 0) h)
unfolding attempts
attempts-first heard me dest crc left h g = simp g

module _ (heard : ℕ → List Bytes) (m : MessageStruct) (dest : ℕ) (fid : Option Bytes) (tx_seq : ℕ)
    (f : Bytes) (e : frame_of dest fid (u8 (tx_seq + 1)) m ≡ some f) where
  abbrev made : ℕ × Heard
  made =
      attempts heard (msg_id m) dest (byte f (length f - 1)) (suc max_retries) 0
        (record { got = false; nack = 0 })

  sent_as :
      send_message heard m dest fid tx_seq
      ≡ some (record { frame = f; sends = made.0; reply = made.1; tx_seq = u8 (tx_seq + 1) })
  unfolding send_message
  sent_as = ground arith

-- For a message whose length field is at most 44 the sensor node's send returns, whatever is
-- heard: one frame, made with the next sequence number, is sent at least once and at most
-- MAX_RETRIES + 1 times, exactly that often when no reply is heard, and once, with the first
-- window's outcome as the result, when that window brings a reply.
pub send_bounded :
    (heard : ℕ → List Bytes) (m : MessageStruct) (dest : ℕ) (fid : Option Bytes) (tx_seq : ℕ)
    → msg_length m ≤ 44
    → (r : Sent) × (send_message heard m dest fid tx_seq ≡ some r)
      × (frame_of dest fid (u8 (tx_seq + 1)) m ≡ some r.frame)
      × (r.tx_seq ≡ u8 (tx_seq + 1))
      × (1 ≤ r.sends)
      × (r.sends ≤ max_retries + 1)
      × (r.reply.got ≡ false → r.sends ≡ max_retries + 1)
      × ((first_window heard (msg_id m) dest r.frame).got ≡ true
          → (r.sends ≡ 1) × (r.reply ≡ first_window heard (msg_id m) dest r.frame))
send_bounded heard m dest fid tx_seq h =
    elim (Option-cases (frame_of dest fid (u8 (tx_seq + 1)) m)) [
      | inl n ↦ absurd (frame_of-some dest fid (u8 (tx_seq + 1)) m h n)
      | inr (f, e) ↦
          let crc : ℕ = byte f (length f - 1) in
          let start : Heard = record { got = false; nack = 0 } in
          let r : ℕ × Heard = attempts heard (msg_id m) dest crc (suc max_retries) 0 start in
          let (lo, hi, all, one) =
            attempts_lem heard (msg_id m) dest crc (suc max_retries) 0 start in
          let first = attempts-first heard (msg_id m) dest crc max_retries start in
          (
            record { frame = f; sends = r.0; reply = r.1; tx_seq = u8 (tx_seq + 1) },
            sent_as heard m dest fid tx_seq f e,
            e,
            refl,
            one (omega arith),
            hi,
            all,
            λ g. (ap (λ t. t.0) (first g), ap (λ t. t.1) (first g)),
          )
    ]
