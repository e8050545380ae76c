-- ===== src/Node/Attempts.antt =====
-- How often a node sends a message.
use bramka_setup.Base.{
  ℕ, zero, suc, ◌+◌, ◌-◌, ◌≤◌, ◌≡◌, ◌≢◌, refl, arith, Bool, false, none, some, List, Bytes, byte,
  length, u8, Option-cases, inl, inr,
}
use bramka_setup.Shared.NodeProtocol.{MessageStruct, msg_id, msg_length}
use bramka_setup.Rf.{collect}
use bramka_setup.Node.{Node, max_retries, uplink_of, attempts, send_message}

attempts_lem :
    (heard : ℕ → List Bytes) (me : ℕ) (f : Bytes) (left k : ℕ) (rx : Bytes)
    → (let r = attempts heard me f left k rx in
        (k ≤ r.0) × (r.0 ≤ k + left) × (r.1 ≡ false → r.0 ≡ k + left) × (1 ≤ left → suc k ≤ r.0))
unfolding attempts
attempts_lem heard me f zero k rx =
    (omega arith, omega arith, λ e. omega arith, λ h. absurd (omega arith))
attempts_lem heard me f (suc left) k rx =
    let c = collect me (byte f 0) (byte f (length f - 1)) (heard k) rx false in
    let (lo, hi, all, some_) = attempts_lem heard me f left (suc k) c.0 in
    (ground arith, ground arith, λ e. ground arith, λ h. ground arith)

uplink_of-some :
    (fid : Bytes) (seq : ℕ) (m : MessageStruct) → msg_length m ≤ 44 → uplink_of fid seq m ≢ none
unfolding uplink_of
uplink_of-some fid seq m h e = ground arith

-- For a message whose length field is at most 44 the node's send returns, whatever is heard: one
-- frame, made with the next sequence number, is sent at least once and at most MAX_RETRIES + 1
-- times, and exactly that often when no ACK is heard.
pub send_message_lem :
    (heard : ℕ → List Bytes) (m : MessageStruct) (s : Node)
    → msg_length m ≤ 44
    → (f : Bytes) × (sends : ℕ) × (acked : Bool) × (s' : Node) × (send_message heard m s
        ≡ some (f, sends, acked, s'))
      × (uplink_of s.factory_id (u8 (s.sequence + 1)) m ≡ some f)
      × (s'.sequence ≡ u8 (s.sequence + 1))
      × (1 ≤ sends)
      × (sends ≤ max_retries + 1)
      × (acked ≡ false → sends ≡ max_retries + 1)
unfolding send_message
send_message_lem heard m s h =
    elim (Option-cases (uplink_of s.factory_id (u8 (s.sequence + 1)) m)) [
      | inl n ↦ absurd (uplink_of-some s.factory_id (u8 (s.sequence + 1)) m h n)
      | inr (f, e) ↦
          let r = attempts heard (msg_id m) f (suc max_retries) 0 s.rx in
          let (lo, hi, all, one) = attempts_lem heard (msg_id m) f (suc max_retries) 0 s.rx in
          (
            f,
            r.0,
            r.1,
            record s { sequence = u8 (s.sequence + 1); rx = r.2 },
            ground arith,
            e,
            refl,
            one (omega arith),
            hi,
            all,
          )
    ]
