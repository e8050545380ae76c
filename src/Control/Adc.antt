-- ===== src/Control/Adc.antt =====
-- Nodes/SolarControllerNode/Firmware/ads1256.c: the analog-to-digital converter of the solar
-- controller. The SPI driver, the DRDY pin, the reset pin and the passing of time are a parameter.
pub mod Channels
use bramka_setup.Base.{
  ℕ, zero, suc, ◌+◌, ◌*◌, ◌/◌, ◌%◌, Bool, true, false, Option, none, some, List, [], ◌∷◌, ◌++◌,
  ◌>>=◌, if◌then◌else◌, Bytes, byte, take, drop, leb, ◌==◌, u32,
}

-- The converter as the driver sees it: a transfer of some bytes, with those that come back unless
-- it fails; whether DRDY is low; a wait of some microseconds; and the pulse on nRESET.
pub record Device (D : Type 0) : Type 0 where
  pub transfer : Bytes → D → Option Bytes × D
  pub ready : D → Bool
  pub wait : ℕ → D → D
  pub reset : D → D

-- the converter, spiTxBuffer and spiRxBuffer
pub record Adc (D : Type 0) : Type 0 where
  pub device : D
  pub tx : Bytes
  pub rx : Bytes

abbrev pub cmd_wakeup : ℕ
cmd_wakeup = 0x00

abbrev pub cmd_rdata : ℕ
cmd_rdata = 0x01

abbrev pub cmd_rreg : ℕ
cmd_rreg = 0x10

abbrev pub cmd_wreg : ℕ
cmd_wreg = 0x50

abbrev pub cmd_sync : ℕ
cmd_sync = 0xfc

abbrev pub reg_status : ℕ
reg_status = 0

abbrev pub reg_mux : ℕ
reg_mux = 1

-- ADS1256_DRATE_E[ADS1256_15SPS]
abbrev pub drate_15sps : ℕ
drate_15sps = 0x33

-- the rounds of ADS1256_WaitDRDY
abbrev pub drdy_rounds : ℕ
drdy_rounds = 4000000

-- a 24-bit code in 32 bits: the bytes share no bit, and bit 23 is the sign
abbrev pub extended : ℕ → ℕ → ℕ → ℕ
extended hi mid lo =
    let read = hi * 65536 + mid * 256 + lo in
    if (read / 0x80_0000) % 2 == 1 then read + 0xff00_0000 else read

-- the polynomial of each channel on its unsigned value
abbrev pub each_channel : (ℕ → ℕ → ℕ) → ℕ → List ℕ → List ℕ
each_channel poly c [] = []
each_channel poly c (v ∷ vs) = poly c v ∷ each_channel poly (suc c) vs

module _ {D : Type 0} (dev : Device D) where
  -- what came back goes to the front of the receive buffer; a failed transfer leaves it
  abbrev pub answered : Adc D → ℕ → Option Bytes × D → Adc D
  answered s n (none, d) = record s { device = d }
  answered s n (some got, d) = record s { device = d; rx = got ++ drop n s.rx }

  -- bytes written to the front of the transmit buffer, and `SPI_transfer` of that many
  unfoldable pub send : ℕ → Bytes → Adc D → Adc D
  send n out s = answered (record s { tx = out ++ drop n s.tx }) n (dev.transfer out s.device)

  unfoldable pub usleep : ℕ → Adc D → Adc D
  usleep us s = record s { device = dev.wait us s.device }

  -- `ADS1256_WriteCmd`, `ADS1256_WriteReg`, `ADS1256_Read_data`
  abbrev pub write_cmd : ℕ → Adc D → Adc D
  write_cmd cmd s = send 1 (cmd ∷ []) s

  abbrev pub write_reg : ℕ → ℕ → Adc D → Adc D
  write_reg reg data_ s = send 3 ((cmd_wreg + reg) ∷ 0 ∷ data_ ∷ []) s

  abbrev pub read_data : ℕ → Adc D → ℕ × Adc D
  read_data reg s =
      let s' = send 1 (0xff ∷ []) (usleep 200 (send 2 ((cmd_rreg + reg) ∷ 0 ∷ []) s)) in
      (byte s'.rx 0, s')

  -- `ADS1256_WaitDRDY`, which goes on when the rounds are over
  unfoldable pub wait_drdy : ℕ → Adc D → Adc D
  wait_drdy zero s = s
  wait_drdy (suc n) s = elim (dev.ready s.device) [ true ↦ s | false ↦ wait_drdy n (usleep 1 s) ]

  -- `ADS1256_ReadChipID`
  unfoldable pub read_chip_id : Adc D → ℕ × Adc D
  read_chip_id s = let r = read_data reg_status (wait_drdy drdy_rounds s) in (r.0 / 16, r.1)

  -- `ADS1256_ConfigADC`: the four registers from STATUS on, in one transfer
  unfoldable pub config_adc : ℕ → ℕ → Adc D → Adc D
  config_adc gain drate s =
      usleep 1000 (send 6 (cmd_wreg ∷ 3 ∷ 4 ∷ 8 ∷ gain ∷ drate ∷ []) (wait_drdy drdy_rounds s))

  -- `ADS1256_Init`: the value 0 is success
  unfoldable pub init : Adc D → ℕ × Adc D
  init s =
      let r = read_chip_id (record s { device = dev.reset s.device }) in
      if r.0 == 3 then (0, config_adc 0 drate_15sps r.1) else (1, r.1)

  -- `ADS1256_SetChannel`
  unfoldable pub set_channel : ℕ → Adc D → Adc D
  set_channel c s = if leb 8 c then s else write_reg reg_mux (c * 16 + 8) s

  -- `ADS1256_Read_ADC_Data`
  unfoldable pub read_adc_data : Adc D → ℕ × Adc D
  read_adc_data s =
      let asked = usleep 1 (write_cmd cmd_rdata (wait_drdy drdy_rounds s)) in
      let s' = send 3 (0xff ∷ 0xff ∷ 0xff ∷ []) (wait_drdy drdy_rounds asked) in
      (extended (byte s'.rx 0) (byte s'.rx 1) (byte s'.rx 2), s')

  -- the wait that starts `ADS1256_GetChannelValue`, on fuel; none when the fuel is used up
  unfoldable pub wait_low : ℕ → Adc D → Option (Adc D)
  wait_low zero s = none
  wait_low (suc fuel) s = elim (dev.ready s.device) [
    | true ↦ some s
    | false ↦ wait_low fuel (usleep 1 s)
  ]

  -- ... and the rest of it, for a channel below 8
  abbrev pub convert : ℕ → Adc D → ℕ × Adc D
  convert c s = read_adc_data (
      usleep 25 (write_cmd cmd_wakeup (usleep 5 (write_cmd cmd_sync (usleep 5 (set_channel c s))))))

  -- `ADS1256_GetChannelValue`
  unfoldable pub get_channel_value : ℕ → ℕ → Adc D → Option (ℕ × Adc D)
  get_channel_value fuel c s = do
    s' ← wait_low fuel s
    some (if leb 8 c then (0, s') else convert c s')

  -- `ADS1256_GetAll` from channel `c` on, with the channels left
  unfoldable pub get_from : ℕ → ℕ → ℕ → Adc D → Option (List ℕ × Adc D)
  get_from fuel c zero s = some ([], s)
  get_from fuel c (suc left) s = do
    r ← get_channel_value fuel c s
    rest ← get_from fuel (suc c) left r.1
    some (r.0 ∷ rest.0, rest.1)

  abbrev pub get_all : ℕ → Adc D → Option (List ℕ × Adc D)
  get_all fuel s = get_from fuel 0 8 s

  -- `ADS1256_ReadTemperature`
  unfoldable pub read_temperature : (ℕ → ℕ → ℕ) → ℕ → Adc D → Option (List ℕ × Adc D)
  read_temperature poly fuel s = do r ← get_all fuel s; some (each_channel poly 0 r.0, r.1)
