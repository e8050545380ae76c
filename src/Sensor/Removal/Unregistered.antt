-- ===== src/Sensor/Removal/Unregistered.antt =====
-- One cycle of a node whose removal is pending at the gateway.
use bramka_setup.Base.{
  ℕ, ◌+◌, ◌-◌, ◌≤◌, ◌≡◌, refl, arith, ap, ◌∙◌, true, ◌||◌, ◌==◌, some, List, [], ◌∷◌, ◌++◌, Bytes,
  byte, inl, inr, replicate, length, u8,
}
use bramka_setup.Shared.NodeProtocol.{
  addr_gateway, addr_unprovisioned, cmd_remove, cmd_unregistered,
}
use bramka_setup.Rf.{Reception}
use bramka_setup.Rf.Equality.{bytes_eq_self}
use bramka_setup.Concentrator.Pending.{Table, empty, lookup, disarm}
use bramka_setup.Concentrator.Pending.Unique.{TableCall, run_table, lookup-disarm}
use bramka_setup.Concentrator.Receive.{Uplink, gateway_receive}
use bramka_setup.Sensor.Radio.{frame_of}
use bramka_setup.Sensor.Life.{
  Base, send, Cycle, written, nvs_load_address, nvs_save_address, shelf, Sensor, enter, report,
  stream_cycle, telemetry, confirmation, battery_of,
}
use bramka_setup.Sensor.Life.Address.{cleared}
use bramka_setup.Sensor.Removal.{
  Unregisters, nack_for, send_told, send_goes_out, gateway_hears, reply_for-nack,
  reply_for-confirmed,
}

-- a chip whose command was confirmed has none
lookup-confirmed :
    (calls : List TableCall) (fid : Bytes) → lookup fid (disarm fid (run_table empty calls)) ≡ 0
lookup-confirmed calls fid = lookup-disarm calls fid fid ∙ simp (bytes_eq_self fid)

told : (cmd : ℕ) → Unregisters cmd → (cmd == cmd_unregistered || cmd == cmd_remove) ≡ true
told cmd (inl e) = ground (arith, e)
told cmd (inr e) = ground (arith, e)

reported :
    (fid : Bytes) (c : Cycle) (rd : ℕ × ℕ) (addr mv : ℕ) (b : Base)
    → c.reading ≡ some rd
    → report fid c addr mv b ≡ send c.window (telemetry addr rd mv) (some fid) b
reported fid c rd addr mv b read = ground arith

cycle_told :
    (fid : Bytes) (c : Cycle) (addr mv counter cmd x : ℕ) (b b1 b2 : Base)
    → Unregisters cmd
    → report fid c addr (battery_of c.battery mv counter) b ≡ some (cmd, b1)
    → send c.confirm (confirmation addr cmd) (some fid) b1 ≡ some (x, b2)
    → stream_cycle fid c addr mv counter b
      ≡ some (enter (record b2 { flash = nvs_save_address c.write addr_unprovisioned b2.flash }))
unfolding stream_cycle
cycle_told fid c addr mv counter cmd x b b1 b2 un first second = simp (first, told cmd un, second)

shelved : (b : Base) → nvs_load_address b.flash ≡ addr_unprovisioned → (enter b).phase ≡ shelf
unfolding enter
shelved b e = simp e

flash-enter : (b : Base) → (enter b).base ≡ b
unfolding enter
flash-enter b = refl

-- The node's side of the cycle: telemetry once, the confirmation, and the shelf.
cycle_obeys :
    (fid : Bytes) (c : Cycle) (rd : ℕ × ℕ) (addr mv counter cmd : ℕ) (b : Base)
    → Unregisters cmd
    → c.reading ≡ some rd
    → c.window.opens ≡ true
    → c.window.heard 0 ≡ nack_for addr cmd ∷ []
    → c.confirm.opens ≡ true
    → c.write ≡ written
    → (f : Bytes) × (seq : ℕ) × (f' : Bytes) × (seq' : ℕ) × (n : ℕ) × (s : Sensor) × (frame_of
          addr_gateway
          (some fid)
          seq
          (telemetry addr rd (battery_of c.battery mv counter))
        ≡ some f)
      × (frame_of addr_gateway (some fid) seq' (confirmation addr cmd) ≡ some f')
      × (stream_cycle fid c addr mv counter b ≡ some s)
      × (s.phase ≡ shelf)
      × (nvs_load_address s.base.flash ≡ addr_unprovisioned)
      × (s.base.air ≡ (b.air ++ f ∷ []) ++ replicate n f')
      × (1 ≤ n)
cycle_obeys fid c rd addr mv counter cmd b un read up hear up' w =
    let mv' : ℕ = battery_of c.battery mv counter in
    let t = send_told c.window (telemetry addr rd mv') fid b cmd (omega arith) up hear in
    let b' : Base = record b { tx_seq = u8 (b.tx_seq + 1); air = b.air ++ t.0 ∷ [] } in
    let k = send_goes_out c.confirm (confirmation addr cmd) fid b' (omega arith) up' in
    let b'' : Base = record b' { tx_seq = u8 (b'.tx_seq + 1); air = b'.air ++ replicate k.1 k.0 } in
    let b3 : Base = record b'' { flash = nvs_save_address c.write addr_unprovisioned b''.flash } in
    let clear : nvs_load_address b3.flash ≡ addr_unprovisioned =
      ap (λ v. nvs_load_address (nvs_save_address v addr_unprovisioned b''.flash)) w
      ∙ cleared b''.flash in
    (
      t.0,
      u8 (b.tx_seq + 1),
      k.0,
      u8 (b'.tx_seq + 1),
      k.1,
      enter b3,
      t.1,
      k.3,
      cycle_told fid c addr mv counter cmd k.2 b b' b'' un (reported fid c rd addr mv' b read ∙ t.2)
          k.6,
      shelved b3 clear,
      ap (λ x. nvs_load_address x.flash) (flash-enter b3) ∙ clear,
      ap (λ x. x.air) (flash-enter b3),
      k.4,
    )

-- Whatever was armed and disarmed before, when REMOVE or UNREGISTERED is pending for the chip at
-- the gateway, the sensor was read, the RF driver opens, the node's first window brings exactly
-- the NACK with that command, and the write of the address succeeds: the node sends its telemetry
-- once and a confirmation at least once, and ends the cycle on the shelf, without a stored
-- address. The gateway, whatever its receive buffer holds, answers the telemetry with exactly this
-- NACK, and after the confirmation has no command pending for the chip.
pub stream_cycle_removes :
    (calls : List TableCall) (buf buf' fid : Bytes) (c : Cycle) (rd : ℕ × ℕ) (addr mv counter : ℕ)
    (b : Base)
    → length fid ≡ 8
    → Unregisters (lookup fid (run_table empty calls))
    → c.reading ≡ some rd
    → c.window.opens ≡ true
    → c.window.heard 0 ≡ nack_for addr (lookup fid (run_table empty calls)) ∷ []
    → c.confirm.opens ≡ true
    → c.write ≡ written
    → let t = run_table empty calls in
      (f : Bytes) × (f' : Bytes) × (n : ℕ) × (s : Sensor) × (g : Uplink) × (g' : Uplink)
      × (stream_cycle fid c addr mv counter b ≡ some s)
      × (s.base.air ≡ (b.air ++ f ∷ []) ++ replicate n f')
      × (1 ≤ n)
      × (gateway_receive t buf f ≡ Reception.received g)
      × (g.reply ≡ some (nack_for addr (lookup fid t)))
      × (gateway_receive g.table buf' f' ≡ Reception.received g')
      × (lookup fid g'.table ≡ 0)
      × (s.phase ≡ shelf)
      × (nvs_load_address s.base.flash ≡ addr_unprovisioned)
stream_cycle_removes calls buf buf' fid c rd addr mv counter b hf un read up hear up' w =
    let t : Table = run_table empty calls in
    let cmd : ℕ = lookup fid t in
    let m : Bytes = telemetry addr rd (battery_of c.battery mv counter) in
    let k = cycle_obeys fid c rd addr mv counter cmd b un read up hear up' w in
    let f : Bytes = k.0 in
    let f' : Bytes = k.2 in
    let crc : ℕ = byte f (length f - 1) in
    let g = gateway_hears t buf fid k.1 m f hf refl (omega arith) (omega arith) k.6 in
    let g' =
      gateway_hears t buf' fid k.3 (confirmation addr cmd) f' hf refl (omega arith) (omega arith)
        k.7 in
    let nacked = reply_for-nack t fid m crc refl un in
    let same : g.0.table ≡ t = g.3 ∙ ap (λ r. r.1) nacked in
    (
      f,
      f',
      k.4,
      k.5,
      g.0,
      g'.0,
      k.8,
      k.11,
      k.12,
      g.1,
      g.2 ∙ ap (λ r. some r.0) nacked,
      ap (λ u. gateway_receive u buf' f') same ∙ g'.1,
      ap (lookup fid) (
            g'.3
            ∙ reply_for-confirmed t fid (confirmation addr cmd) (byte f' (length f' - 1)) refl un)
          ∙ lookup-confirmed calls fid,
      k.9,
      k.10,
    )
