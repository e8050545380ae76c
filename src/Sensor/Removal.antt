-- ===== src/Sensor/Removal.antt =====
-- A node that the gateway has to remove: from the pending command to the shelf.
pub mod Unregistered
use bramka_setup.Base.{
  ℕ, suc, ◌+◌, ◌-◌, ◌≤◌, ◌≡◌, ◌⊎◌, refl, arith, ap, ap₂, sym, ◌∙◌, Bool, true, false, ◌||◌, ◌==◌,
  ==_self, Option, none, some, List, [], ◌∷◌, ◌++◌, Bytes, byte, inl, inr, replicate, length, u8,
  if◌then◌else◌,
}
use bramka_setup.Shared.NodeProtocol.{
  MessageStruct, msg_id, msg_cmd, msg_length, addr_gateway, addr_unprovisioned, cmd_remove,
  cmd_unregistered,
}
use bramka_setup.Base.{take}
use bramka_setup.Rf.{message_of, Reception, reply_ack, reply_nack}
use bramka_setup.Rf.Equality.{bytes_eq_self}
use bramka_setup.Node.{uplink_of}
use bramka_setup.Concentrator.Pending.{Table, empty, lookup, disarm}
use bramka_setup.Concentrator.Pending.Unique.{TableCall, run_table, lookup-disarm}
use bramka_setup.Concentrator.Receive.{Uplink, gateway_receive}
use bramka_setup.Concentrator.Exchange.{reply_for, uplink_lem}
use bramka_setup.Sensor.Radio.{Sent, frame_of, Heard, on_reply, on_replies}
use bramka_setup.Sensor.Radio.Sends.{send_bounded}
use bramka_setup.Sensor.Life.{
  Base, Window, send, Cycle, written, nvs_save_address, shelf, Sensor, enter, obey, stream_cycle,
  telemetry, confirmation, battery_of,
}
use bramka_setup.Sensor.Life.Address.{cleared}

some_inj : {a b : Bytes} → some a ≡ some b → a ≡ b
some_inj e = cc

-- The sensor node's 'E' frame is the one the solar node sends.
frame_of-uplink_of :
    (fid : Bytes) (seq : ℕ) (m : MessageStruct)
    → frame_of addr_gateway (some fid) seq m ≡ uplink_of fid seq m
unfolding frame_of uplink_of
frame_of-uplink_of fid seq m = refl

-- the NACK with a command
abbrev pub nack_for : ℕ → ℕ → Bytes
nack_for me cmd = me ∷ reply_nack ∷ addr_gateway ∷ cmd ∷ []

on_replies-nack :
    (me crc cmd : ℕ) (h : Heard)
    → on_replies me addr_gateway crc (nack_for me cmd ∷ []) h ≡ record { got = true; nack = cmd }
unfolding on_replies on_reply
on_replies-nack me crc cmd h = ground (arith, ==_self me)

-- A send whose first window brings a NACK goes out once, and gives the NACK's command.
pub send_told :
    (w : Window) (m : MessageStruct) (fid : Bytes) (b : Base) (cmd : ℕ)
    → msg_length m ≤ 44
    → w.opens ≡ true
    → w.heard 0 ≡ nack_for (msg_id m) cmd ∷ []
    → (f : Bytes) × (frame_of addr_gateway (some fid) (u8 (b.tx_seq + 1)) m ≡ some f)
      × (send w m (some fid) b
          ≡ some (cmd, record b { tx_seq = u8 (b.tx_seq + 1); air = b.air ++ f ∷ [] }))
unfolding send
send_told w m fid b cmd h up hear =
    let s = send_bounded w.heard m addr_gateway (some fid) b.tx_seq h in
    let f : Bytes = s.0.frame in
    let crc : ℕ = byte f (length f - 1) in
    let start : Heard = record { got = false; nack = 0 } in
    let told : on_replies (msg_id m) addr_gateway crc (w.heard 0) start
        ≡ record { got = true; nack = cmd } =
      ap (λ ps. on_replies (msg_id m) addr_gateway crc ps start) hear
      ∙ on_replies-nack (msg_id m) crc cmd start in
    let (once, what) = s.7 (ap (λ r. r.got) told) in
    let done : ℕ → ℕ → ℕ → Option (ℕ × Base) =
      λ cmd' seq n. some (cmd', record b { tx_seq = seq; air = b.air ++ replicate n f }) in
    (
      f,
      s.2,
      simp (up, s.1)
          (ap (λ q. done q s.0.tx_seq s.0.sends) (ap (λ r. r.nack) (what ∙ told))
            ∙ ap₂ (done cmd) s.3 once),
    )

-- A send goes out, whatever is heard.
pub send_goes_out :
    (w : Window) (m : MessageStruct) (fid : Bytes) (b : Base)
    → msg_length m ≤ 44
    → w.opens ≡ true
    → (f : Bytes) × (n : ℕ) × (cmd : ℕ) × (frame_of addr_gateway (some fid) (u8 (b.tx_seq + 1)) m
        ≡ some f)
      × (1 ≤ n)
      × (n ≤ 4)
      × (send w m (some fid) b
          ≡ some (cmd, record b { tx_seq = u8 (b.tx_seq + 1); air = b.air ++ replicate n f }))
unfolding send
send_goes_out w m fid b h up =
    let s = send_bounded w.heard m addr_gateway (some fid) b.tx_seq h in
    (
      s.0.frame,
      s.0.sends,
      s.0.reply.nack,
      s.2,
      s.4,
      s.5,
      simp (up, s.1)
          (ap
            (λ n. some (
              s.0.reply.nack,
              record b { tx_seq = n; air = b.air ++ replicate s.0.sends s.0.frame },
            ))
            s.3),
    )

-- The two commands that end a node's registration.
abbrev pub Unregisters : ℕ → Type 0
Unregisters cmd = (cmd ≡ cmd_remove) ⊎ (cmd ≡ cmd_unregistered)

-- The gateway takes the node's frame, and replies by its table.
pub gateway_hears :
    (t : Table) (buf fid : Bytes) (seq : ℕ) (m : MessageStruct) (f : Bytes)
    → length fid ≡ 8
    → length m ≡ 44
    → 3 ≤ msg_length m
    → msg_length m ≤ 44
    → frame_of addr_gateway (some fid) seq m ≡ some f
    → let r = reply_for t fid m (byte f (length f - 1)) in
      (g : Uplink) × (gateway_receive t buf f ≡ Reception.received g)
      × (g.reply ≡ some r.0)
      × (g.table ≡ r.1)
gateway_hears t buf fid seq m f hf hm h3 h44 e =
    let u = uplink_lem t buf seq fid m hf hm h3 h44 in
    let same : u.0 ≡ f = some_inj (sym u.1 ∙ sym (frame_of-uplink_of fid seq m) ∙ e) in
    let r : Bytes → Bytes × Table = λ x. reply_for t fid m (byte x (length x - 1)) in
    (
      record {
        reply = some (r u.0).0;
        frame = fid ++ message_of (take (msg_length m) m);
        table = (r u.0).1;
      },
      ap (gateway_receive t buf) (sym same) ∙ u.2,
      ap (λ x. some (r x).0) same,
      ap (λ x. (r x).1) same,
    )

pub reply_for-nack :
    (t : Table) (fid : Bytes) (m : MessageStruct) (crc : ℕ)
    → msg_cmd m ≡ 0
    → Unregisters (lookup fid t)
    → reply_for t fid m crc ≡ (nack_for (msg_id m) (lookup fid t), t)
reply_for-nack t fid m crc h (inl e) = ground (arith, e)
reply_for-nack t fid m crc h (inr e) = ground (arith, e)

pub reply_for-confirmed :
    (t : Table) (fid : Bytes) (m : MessageStruct) (crc : ℕ)
    → msg_cmd m ≡ lookup fid t
    → Unregisters (lookup fid t)
    → (reply_for t fid m crc).1 ≡ disarm fid t
reply_for-confirmed t fid m crc h (inl e) = ground (arith, e)
reply_for-confirmed t fid m crc h (inr e) = ground (arith, e)
