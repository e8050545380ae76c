-- ===== src/Sensor/Gauge/Manual.antt =====
-- What sensors.c relies on of the BQ35100 gauge.
use bramka_setup.Base.{ℕ, ◌+◌, ◌*◌, ◌/◌, ◌%◌, ◌<◌, ◌≡◌, Bool, true, false, some, [], ◌∷◌, Bytes}
use bramka_setup.Sensor.Gauge.{I2c, accepted}

-- What is asked of the gauge: the design capacity, Operation Config A, whether it is sealed, and
-- the bytes last written to ManufacturerAccessControl and MACDataSum.
pub record View (D : Type 0) : Type 0 where
  pub cap : D → ℕ
  pub op : D → ℕ
  pub sealed : D → Bool
  pub mac : D → Bytes
  pub sum : D → ℕ

-- The settings are the same, and an unsealed gauge stays so.
pub record Keeps (D : Type 0) (v : View D) (d d' : D) : Type 0 where
  pub cap : v.cap d' ≡ v.cap d
  pub op : v.op d' ≡ v.op d
  pub unsealed : v.sealed d ≡ false → v.sealed d' ≡ false

-- The manual, for a gauge that acknowledges every transfer and reports no flash failure: reads and
-- sleeps change no setting; a write to ManufacturerAccessControl is heard, and of a data-flash
-- address 0x41.. or of a key it changes no setting by itself (other subcommands, as SEAL, may);
-- MACData then gives Operation Config A when its address was written; the two keys unseal; and when
-- the gauge is unsealed, a block with its checksum and its length is stored.
pub record IsGauge (D : Type 0) (bus : I2c D) (v : View D) : Type 0 where
  pub cap_read :
      (d : D) → (bus.transfer 0x55 (0x3c ∷ []) 2 d).0 ≡ some (v.cap d % 256 ∷ v.cap d / 256 ∷ [])
  pub cap_keeps : (d : D) → Keeps D v d (bus.transfer 0x55 (0x3c ∷ []) 2 d).1
  pub status_read :
      (d : D)
      → (lo : ℕ) × (hi : ℕ) × ((bus.transfer 0x55 (0 ∷ []) 2 d).0 ≡ some (lo ∷ hi ∷ []))
        × (lo < 256)
        × (hi < 128)
        × (v.sealed d ≡ true → hi / 32 ≡ 3)
  pub status_keeps : (d : D) → Keeps D v d (bus.transfer 0x55 (0 ∷ []) 2 d).1
  pub sleep_keeps :
      (n : ℕ) (d : D) → Keeps D v d (bus.sleep n d) × (v.mac (bus.sleep n d) ≡ v.mac d)
  pub mac_taken : (blk : Bytes) (d : D) → accepted (bus.transfer 0x55 (0x3e ∷ blk) 0 d).0 ≡ true
  pub flash_keeps :
      (lo : ℕ) (data_ : Bytes) (d : D)
      → Keeps D v d (bus.transfer 0x55 (0x3e ∷ lo ∷ 0x41 ∷ data_) 0 d).1
  pub key1_keeps : (d : D) → Keeps D v d (bus.transfer 0x55 (0x3e ∷ 0x04 ∷ 0x14 ∷ []) 0 d).1
  pub key2_keeps : (d : D) → Keeps D v d (bus.transfer 0x55 (0x3e ∷ 0x36 ∷ 0x72 ∷ []) 0 d).1
  pub mac_heard : (blk : Bytes) (d : D) → v.mac (bus.transfer 0x55 (0x3e ∷ blk) 0 d).1 ≡ blk
  pub keys :
      (d : D)
      → v.mac d ≡ 0x04 ∷ 0x14 ∷ []
      → v.sealed (bus.transfer 0x55 (0x3e ∷ 0x36 ∷ 0x72 ∷ []) 0 d).1 ≡ false
  pub op_read :
      (d : D)
      → v.mac d ≡ 0xb1 ∷ 0x41 ∷ []
      → (bus.transfer 0x55 (0x40 ∷ []) 1 d).0 ≡ some (v.op d ∷ [])
  pub op_keeps : (d : D) → Keeps D v d (bus.transfer 0x55 (0x40 ∷ []) 1 d).1
  pub sum_taken : (c : ℕ) (d : D) → accepted (bus.transfer 0x55 (0x60 ∷ c ∷ []) 0 d).0 ≡ true
  pub sum_keeps : (c : ℕ) (d : D) → Keeps D v d (bus.transfer 0x55 (0x60 ∷ c ∷ []) 0 d).1
  pub sum_heard :
      (c : ℕ) (d : D)
      → let d' = (bus.transfer 0x55 (0x60 ∷ c ∷ []) 0 d).1 in (v.sum d' ≡ c) × (v.mac d' ≡ v.mac d)
  pub len_taken : (n : ℕ) (d : D) → accepted (bus.transfer 0x55 (0x61 ∷ n ∷ []) 0 d).0 ≡ true
  pub stores_op :
      (x : ℕ) (d : D)
      → v.sealed d ≡ false
      → v.mac d ≡ 0xb1 ∷ 0x41 ∷ x ∷ []
      → (0xb1 + 0x41 + x + v.sum d) % 256 ≡ 255
      → let d' = (bus.transfer 0x55 (0x61 ∷ 5 ∷ []) 0 d).1 in
        (v.op d' ≡ x) × (v.cap d' ≡ v.cap d) × (v.sealed d' ≡ false)
  pub stores_cap :
      (hi lo : ℕ) (d : D)
      → v.sealed d ≡ false
      → v.mac d ≡ 0xfe ∷ 0x41 ∷ hi ∷ lo ∷ []
      → (0xfe + 0x41 + hi + lo + v.sum d) % 256 ≡ 255
      → let d' = (bus.transfer 0x55 (0x61 ∷ 6 ∷ []) 0 d).1 in
        (v.cap d' ≡ hi * 256 + lo) × (v.op d' ≡ v.op d) × (v.sealed d' ≡ false)
