-- ===== src/Sensor/Gauge.antt =====
-- Nodes/TempHumNode/Firmware/sensors.c: the BQ35100 gauge of the sensor node over I2C, and the raw
-- readings of the SHT35. The I2C driver and the passing of time are a parameter; the float formulas
-- of the readings are arguments.
pub mod Manual
pub mod Commissioning
use bramka_setup.Base.{
  ℕ, zero, suc, ◌+◌, ◌*◌, ◌-◌, ◌/◌, ◌%◌, ◌^◌, Bool, true, false, ◌&&◌, not, Option, none, some,
  List, [], ◌∷◌, ◌++◌, if◌then◌else◌, Bytes, byte, leb, ◌==◌, u8,
}

-- `I2C_transfer` of some bytes to an address, with a number of bytes read back; none when it fails.
-- And a sleep of some milliseconds.
pub record I2c (D : Type 0) : Type 0 where
  pub transfer : ℕ → Bytes → ℕ → D → Option Bytes × D
  pub sleep : ℕ → D → D

abbrev pub sht35_addr : ℕ
sht35_addr = 0x45

abbrev pub bq_addr : ℕ
bq_addr = 0x55

abbrev pub design_cap_mah : ℕ
design_cap_mah = 1500

-- BQ_CMD_*
abbrev pub bq_cmd_control : ℕ
bq_cmd_control = 0x00

abbrev pub bq_cmd_acc_cap : ℕ
bq_cmd_acc_cap = 0x02

abbrev pub bq_cmd_voltage : ℕ
bq_cmd_voltage = 0x08

abbrev pub bq_cmd_soh : ℕ
bq_cmd_soh = 0x2e

abbrev pub bq_cmd_design_cap : ℕ
bq_cmd_design_cap = 0x3c

abbrev pub bq_cmd_mac : ℕ
bq_cmd_mac = 0x3e

abbrev pub bq_cmd_mac_data : ℕ
bq_cmd_mac_data = 0x40

abbrev pub bq_cmd_mac_data_sum : ℕ
bq_cmd_mac_data_sum = 0x60

abbrev pub bq_cmd_mac_data_len : ℕ
bq_cmd_mac_data_len = 0x61

-- BQ_DF_*
abbrev pub bq_df_opconfig_a : ℕ
bq_df_opconfig_a = 0x41b1

abbrev pub bq_df_design_cap : ℕ
bq_df_design_cap = 0x41fe

abbrev pub accepted : Option Bytes → Bool
accepted none = false
accepted (some bs) = true

-- the sum of a block's bytes in a byte
unfoldable pub block_sum : ℕ → Bytes → ℕ
block_sum cks [] = cks
block_sum cks (b ∷ bs) = block_sum (u8 (cks + b)) bs

abbrev pub size : Bytes → ℕ
size [] = 0
size (b ∷ bs) = suc (size bs)

abbrev pub u16_of : Option Bytes → Option ℕ
u16_of none = none
u16_of (some bs) = some (byte bs 1 * 256 + byte bs 0)

-- `if (!...) return false;`
abbrev pub proceed {ℓ} : {D : Type ℓ} → Bool × D → (D → Bool × D) → Bool × D
proceed (true, d) next = next d
proceed (false, d) next = (false, d)

-- the tests of the design capacity and of the gauge's mode
abbrev pub cap_ok : Option ℕ → Bool
cap_ok none = false
cap_ok (some n) = n == design_cap_mah

abbrev pub mode_ok : Option Bytes → Bool
mode_ok none = false
mode_ok (some bs) = byte bs 0 % 4 == 0

-- the end of `bq_df_write`: the flash's failure bit
abbrev pub flash_ok {ℓ} : {D : Type ℓ} → Option ℕ × D → Bool × D
flash_ok (none, d) = (true, d)
flash_ok (some st, d) = (not (leb 0x8000 st), d)

-- BQ_SEALED in the status, which stays 0 when it is not read
abbrev pub is_sealed : Option ℕ → Bool
is_sealed none = false
is_sealed (some st) = (st / 0x2000) % 4 == 3

-- a bit of the status, when it is read
abbrev pub has_bit : ℕ → Option ℕ → Bool
has_bit mask none = false
has_bit mask (some st) = (st / mask) % 2 == 1

-- the charge used, the negated register in 32 bits
abbrev pub used_of : Option Bytes → Option ℕ
used_of none = none
used_of (some bs) =
    let raw = byte bs 0 + byte bs 1 * 0x100 + byte bs 2 * 0x1_0000 + byte bs 3 * 0x100_0000 in
    some ((2 ^ 32 - raw) % 2 ^ 32)

-- the formulas of `sensors_read_th` on the two raw values
abbrev pub th_of : (ℕ → ℕ) → (ℕ → ℕ) → Option Bytes → Option (ℕ × ℕ)
th_of temp hum none = none
th_of temp hum (some bs) =
    some (temp (byte bs 0 * 256 + byte bs 1), hum (byte bs 3 * 256 + byte bs 4))

module _ {D : Type 0} (bus : I2c D) where
  unfoldable pub bq_cmd_write : ℕ → Bytes → D → Bool × D
  bq_cmd_write reg data_ d = let r = bus.transfer bq_addr (reg ∷ data_) 0 d in (accepted r.0, r.1)

  unfoldable pub bq_cmd_read : ℕ → ℕ → D → Option Bytes × D
  bq_cmd_read reg len d = bus.transfer bq_addr (reg ∷ []) len d

  unfoldable pub bq_read_u16 : ℕ → D → Option ℕ × D
  bq_read_u16 reg d = let r = bq_cmd_read reg 2 d in (u16_of r.0, r.1)

  abbrev pub bq_subcmd : ℕ → D → Bool × D
  bq_subcmd sub d = bq_cmd_write bq_cmd_mac (sub % 256 ∷ sub / 256 ∷ []) d

  -- `bq_df_write`
  unfoldable pub bq_df_write : ℕ → Bytes → D → Bool × D
  bq_df_write addr data_ d =
      let blk = addr % 256 ∷ addr / 256 ∷ data_ in
      let cks = 0xff - block_sum 0 blk in
      proceed (bq_cmd_write bq_cmd_mac blk d) (λ d1.
        proceed (bq_cmd_write bq_cmd_mac_data_sum (cks ∷ []) d1) (λ d2.
          proceed (bq_cmd_write bq_cmd_mac_data_len (u8 (4 + size data_) ∷ []) d2)
            (λ d3. flash_ok (bq_read_u16 bq_cmd_control (bus.sleep 20 d3)))))

  -- `bq_df_read`
  abbrev pub read_after : Bool × D → ℕ → Option Bytes × D
  read_after (false, d) len = (none, d)
  read_after (true, d) len = bq_cmd_read bq_cmd_mac_data len (bus.sleep 5 d)

  unfoldable pub bq_df_read : ℕ → ℕ → D → Option Bytes × D
  bq_df_read addr len d = read_after (bq_cmd_write bq_cmd_mac (addr % 256 ∷ addr / 256 ∷ []) d) len

  -- capOk && modeOk, both of which are read
  unfoldable pub configured : D → Bool × D
  configured d =
      let c = bq_read_u16 bq_cmd_design_cap d in
      let m = bq_df_read bq_df_opconfig_a 1 c.1 in (cap_ok c.0 && mode_ok m.0, m.1)

  -- the keys
  unfoldable pub unseal : D → D
  unseal d =
      let st = bq_read_u16 bq_cmd_control d in
      if is_sealed st.0
      then bus.sleep 20
          (bq_cmd_write bq_cmd_mac (0x36 ∷ 0x72 ∷ [])
            (bq_cmd_write bq_cmd_mac (0x04 ∷ 0x14 ∷ []) st.1).1).1
      else st.1

  -- the gauge's mode, with the other bits of the byte
  abbrev pub set_mode : Option Bytes × D → D
  set_mode (none, d) = d
  set_mode (some bs, d) = (bq_df_write bq_df_opconfig_a ((byte bs 0 - byte bs 0 % 4) ∷ []) d).1

  -- `sensors_commission`
  unfoldable pub sensors_commission : D → Bool × D
  sensors_commission d =
      let first = configured d in
      let d1 = set_mode (bq_df_read bq_df_opconfig_a 1 (unseal first.1)) in
      let d2 =
        (bq_df_write bq_df_design_cap (design_cap_mah / 256 ∷ design_cap_mah % 256 ∷ []) d1).1 in
      if first.0 then (true, first.1) else configured d2

  -- the status polled every 10 ms until the bit is set
  unfoldable pub poll_status : ℕ → ℕ → D → Bool × D
  poll_status mask zero d = (false, d)
  poll_status mask (suc n) d =
      let r = bq_read_u16 bq_cmd_control d in
      elim (has_bit mask r.0) [ true ↦ (true, r.1) | false ↦ poll_status mask n (bus.sleep 10 r.1) ]

  -- `sensors_gauge_begin` (BQ_GA_MASK) and `sensors_gauge_end` (BQ_GDONE_MASK)
  abbrev pub sensors_gauge_begin : D → Bool × D
  sensors_gauge_begin d = poll_status 0x0001 100 (bq_subcmd 0x0011 d).1

  abbrev pub sensors_gauge_end : D → D
  sensors_gauge_end d = (poll_status 0x0040 200 (bq_subcmd 0x0012 d).1).1

  -- the readings, without one when I2C is not open
  abbrev pub sensors_read_batt_mv : Bool → D → Option ℕ × D
  sensors_read_batt_mv false d = (none, d)
  sensors_read_batt_mv true d = bq_read_u16 bq_cmd_voltage d

  abbrev pub sensors_read_soh : Bool → D → Option Bytes × D
  sensors_read_soh false d = (none, d)
  sensors_read_soh true d = bq_cmd_read bq_cmd_soh 1 d

  abbrev pub sensors_read_opconfig : Bool → D → Option Bytes × D
  sensors_read_opconfig false d = (none, d)
  sensors_read_opconfig true d = bq_df_read bq_df_opconfig_a 1 d

  abbrev pub sensors_read_used_uah : Bool → D → Option ℕ × D
  sensors_read_used_uah false d = (none, d)
  sensors_read_used_uah true d = let r = bq_cmd_read bq_cmd_acc_cap 4 d in (used_of r.0, r.1)

  abbrev pub sensors_read_th : (ℕ → ℕ) → (ℕ → ℕ) → Bool → D → Option (ℕ × ℕ) × D
  sensors_read_th temp hum false d = (none, d)
  sensors_read_th temp hum true d =
      let r = bus.transfer sht35_addr (0x2c ∷ 0x06 ∷ []) 6 d in (th_of temp hum r.0, r.1)
