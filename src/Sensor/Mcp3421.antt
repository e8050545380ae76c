-- ===== src/Sensor/Mcp3421.antt =====
-- Nodes/TempHumNode/Firmware/rev2/mcp3421.c: the 18-bit converter of the battery's voltage, with
-- the reading of the first revision in sensors.c of the folder above. A 32-bit integer is the
-- number of its bits; the float formulas are arguments.
pub mod Average
use bramka_setup.Base.{
  ℕ, zero, suc, ◌+◌, ◌*◌, ◌/◌, ◌%◌, ◌^◌, Bool, true, false, Option, none, some, List, [], ◌∷◌,
  ◌>>=◌, if◌then◌else◌, Bytes, byte, leb, ltb, ◌==◌, u64,
}
use bramka_setup.Sensor.Gauge.{I2c, accepted}

abbrev pub mcp3421_addr : ℕ
mcp3421_addr = 0x68

abbrev pub mcp3421_cfg_oneshot : ℕ
mcp3421_cfg_oneshot = 0x8c

-- the polls of one conversion
abbrev pub mcp3421_polls : ℕ
mcp3421_polls = 40

-- MCP3421_RDY_MASK, clear when the conversion is done
abbrev pub is_ready : Bytes → Bool
is_ready rd = ltb (byte rd 3 % 256) 0x80

-- the three data bytes, the first one's sign extended
abbrev pub raw_of : Bytes → ℕ
raw_of rd =
    let code = byte rd 0 * 0x1_0000 + byte rd 1 * 0x100 + byte rd 2 in
    if leb 0x80 (byte rd 0) then code + 0xff00_0000 else code

-- a 32-bit integer in 64 bits
abbrev pub widened : ℕ → ℕ
widened n = if leb 0x8000_0000 n then n + 0xffff_ffff_0000_0000 else n

-- `samples` within its bounds
abbrev pub clamped : ℕ → ℕ
clamped n = if ltb n 1 then 1 else if ltb 16 n then 16 else n

module _ {D : Type 0} (bus : I2c D) where
  -- the polls left; none when a transfer fails or when they run out
  unfoldable pub poll_ready : ℕ → D → Option ℕ × D
  poll_ready zero d = (none, d)
  poll_ready (suc n) d =
      let r = bus.transfer mcp3421_addr [] 4 (bus.sleep 10 d) in
      elim r.0 [
        | none ↦ (none, r.1)
        | some rd ↦ elim (is_ready rd) [ true ↦ (some (raw_of rd), r.1) | false ↦ poll_ready n r.1 ]
      ]

  abbrev pub once_started : Option Bytes × D → Option ℕ × D
  once_started (none, d) = (none, d)
  once_started (some rd, d) = poll_ready mcp3421_polls d

  -- the start of a conversion, and its result
  unfoldable pub convert : D → Option ℕ × D
  convert d = once_started (bus.transfer mcp3421_addr (mcp3421_cfg_oneshot ∷ []) 0 d)

  abbrev pub formula : (ℕ → ℕ) → Option ℕ × D → Option ℕ × D
  formula f (none, d) = (none, d)
  formula f (some raw, d) = (some (f raw), d)

  -- `mcp3421_read_uv`, without a reading when I2C is not open
  abbrev pub mcp3421_read_uv : (ℕ → ℕ) → Bool → D → Option ℕ × D
  mcp3421_read_uv uv false d = (none, d)
  mcp3421_read_uv uv true d = formula uv (convert d)

  abbrev pub sensors_read_mcp3421_mv : (ℕ → ℕ) → Bool → D → Option ℕ × D
  sensors_read_mcp3421_mv mv false d = (none, d)
  sensors_read_mcp3421_mv mv true d = formula mv (convert d)

  -- the sum of the samples left, in 64 bits
  unfoldable pub accumulate : (ℕ → ℕ) → Bool → ℕ → ℕ → D → Option ℕ × D
  accumulate uv is_open zero acc d = (some acc, d)
  accumulate uv is_open (suc n) acc d =
      let r = mcp3421_read_uv uv is_open d in
      elim r.0 [ none ↦ (none, r.1) | some x ↦ accumulate uv is_open n (u64 (acc + widened x)) r.1 ]

  -- `mcp3421_read_batt_mv`
  unfoldable pub mcp3421_read_batt_mv : (ℕ → ℕ) → (ℕ → ℕ → ℕ) → Bool → ℕ → D → Option ℕ × D
  mcp3421_read_batt_mv uv mv is_open samples d =
      formula (λ acc. mv acc (clamped samples)) (accumulate uv is_open (clamped samples) 0 d)
