-- ===== src/Sensor/Life.antt =====
-- Nodes/TempHumNode/Firmware/rfWsnNode.c, as it is configured (NODE_JOIN_TEST): the stored address,
-- the join, the measuring cycle, and the task's two phases. The sensors' values (the floats by their
-- bits), the packets heard, the JOIN button and the outcome of each driver call are inputs.
pub mod Address
pub mod Settled
pub mod Task
use bramka_setup.Base.{
  ℕ, ◌+◌, ◌/◌, ◌%◌, Bool, ◌&&◌, ◌||◌, Option, none, some, List, [], ◌∷◌, ◌++◌, if◌then◌else◌, Bytes,
  leb, u8, ◌==◌, replicate, ◌>>=◌,
}
use bramka_setup.Shared.NodeProtocol.{
  MessageStruct, message, addr_gateway, addr_unprovisioned, addr_pool_first, addr_pool_last,
  node_th_sensor, cmd_send_data_to_db, cmd_join_request, cmd_remove, cmd_unregistered,
}
use bramka_setup.Sensor.Radio.{Accepted, send_message, wait_join_accept}

-- ThIdentRec
pub record ThIdentRec : Type 0 where
  pub magic : ℕ
  pub addr : ℕ

abbrev pub th_ident_magic : ℕ
th_ident_magic = 0x54484e31

-- `nvs_load_address` on what NVS_read gives; none when the driver does not open or the read fails
unfoldable pub nvs_load_address : Option ThIdentRec → ℕ
nvs_load_address none = addr_unprovisioned
nvs_load_address (some rec) =
    if rec.magic == th_ident_magic && (leb addr_pool_first rec.addr && leb rec.addr addr_pool_last)
    then rec.addr
    else addr_unprovisioned

-- The outcome of NVS_open and NVS_write; a failed write leaves the flash as it may.
pub data NvsWrite : Type 0 where
  not_opened written : NvsWrite
  failed : Option ThIdentRec → NvsWrite

-- `nvs_save_address`: what the flash holds afterwards
unfoldable pub nvs_save_address : NvsWrite → ℕ → Option ThIdentRec → Option ThIdentRec
nvs_save_address not_opened a flash = flash
nvs_save_address written a flash = some (record { magic = th_ident_magic; addr = a })
nvs_save_address (failed left) a flash = left

-- txSeq, what the flash holds, and the frames that have gone out, each as often as it was sent
pub record Base : Type 0 where
  pub tx_seq : ℕ
  pub flash : Option ThIdentRec
  pub air : List Bytes

-- what one `radio_send_message` meets: whether the RF driver opens, and the packets heard
pub record Window : Type 0 where
  pub opens : Bool
  pub heard : ℕ → List Bytes

-- `radio_send_message` to the gateway, with the command of a NACK (0 without one)
unfoldable pub send : Window → MessageStruct → Option Bytes → Base → Option (ℕ × Base)
send w m fid b =
    if w.opens
    then (send_message w.heard m addr_gateway fid b.tx_seq >>= λ r.
        some
          (r.reply.nack, record b { tx_seq = r.tx_seq; air = b.air ++ replicate r.sends r.frame }))
    else some (0, b)

-- NODE_JOIN_WINDOW_S in ms
abbrev pub join_window_ms : ℕ
join_window_ms = 90000

-- fuel for the windows of 500 ms
abbrev pub join_fuel : ℕ
join_fuel = 181

abbrev pub join_request : Bytes → MessageStruct
join_request fid = message addr_unprovisioned node_th_sensor cmd_join_request 16 fid

-- what one JOIN meets
pub record Join : Type 0 where
  pub request : Window
  pub accept : Window
  pub write : NvsWrite

-- what is done with the end of the wait
abbrev pub adopt : NvsWrite → Base → ℕ × Option Accepted → Option ℕ × Base
adopt w b (k, none) = (none, b)
adopt w b (k, some a) = (
  some a.address,
  record b { flash = nvs_save_address w a.address b.flash; air = b.air ++ a.ack ∷ [] },
)

-- `provision_join`: the address, if one was assigned
unfoldable pub provision_join : Bytes → Join → Base → Option (Option ℕ × Base)
provision_join fid j b = do
  r ← send j.request (join_request fid) none b
  if j.accept.opens
      then (wait_join_accept fid j.accept.heard join_window_ms join_fuel >>= λ w.
          some (adopt j.write r.1 w))
      else some (none, r.1)

abbrev pub node_batt_every : ℕ
node_batt_every = 5

-- What a cycle meets: the reading of the SHT35 and of the battery, the windows of the telemetry and
-- of the confirmation, the write of the address, and the JOIN when the button was pressed.
pub record Cycle : Type 0 where
  pub reading : Option (ℕ × ℕ)
  pub battery : Option ℕ
  pub window : Window
  pub confirm : Window
  pub write : NvsWrite
  pub join : Option Join

-- a number in 4 bytes, the low one first
abbrev pub le4 : ℕ → Bytes
le4 n = n % 256 ∷ (n / 256) % 256 ∷ (n / 65536) % 256 ∷ (n / 16777216) % 256 ∷ []

-- the telemetry message; soh_pct and acc_uah stay 0
abbrev pub telemetry : ℕ → ℕ × ℕ → ℕ → MessageStruct
telemetry addr (t, h) mv =
    message addr node_th_sensor cmd_send_data_to_db 20
      (le4 t ++ le4 h ++ mv % 256 ∷ (mv / 256) % 256 ∷ [])

abbrev pub confirmation : ℕ → ℕ → MessageStruct
confirmation addr cmd = message addr node_th_sensor cmd 4 []

-- The task: its address while it streams, with the battery's cached value and counter.
pub data Phase : Type 0 where
  shelf : Phase
  streaming : (addr mv counter : ℕ) → Phase

pub record Sensor : Type 0 where
  pub phase : Phase
  pub base : Base

-- sBattMv and sBattCtr in a cycle
abbrev pub battery_of : Option ℕ → ℕ → ℕ → ℕ
battery_of read mv counter = if counter == 0 then elim read [ none ↦ mv | some v ↦ v ] else mv

-- telemetry, when the SHT35 was read
abbrev pub report : Bytes → Cycle → ℕ → ℕ → Base → Option (ℕ × Base)
report fid c addr mv b = elim c.reading [
  | none ↦ some (0, b)
  | some r ↦ send c.window (telemetry addr r mv) (some fid) b
]

-- The task's loop before it streams: with a valid stored address it streams, else it is on the shelf.
unfoldable pub enter : Base → Sensor
enter b =
    let a = nvs_load_address b.flash in
    record { phase = if a == addr_unprovisioned then shelf else streaming a 0 0; base = b }

-- REMOVE or UNREGISTERED in a NACK: confirm, clear the stored address, and start over
abbrev pub obey : Bytes → Cycle → ℕ → ℕ → Base → Option Sensor
obey fid c addr cmd b = do
  r ← send c.confirm (confirmation addr cmd) (some fid) b
  some (enter (record r.1 { flash = nvs_save_address c.write addr_unprovisioned r.1.flash }))

-- the sleep, which the JOIN button ends
abbrev pub sleep : Bytes → Cycle → ℕ → ℕ → ℕ → Base → Option Sensor
sleep fid c addr mv counter b = elim c.join [
  | none ↦ some record { phase = streaming addr mv counter; base = b }
  | some j ↦ do
    r ← provision_join fid j b
    some record {
      phase = elim r.0 [ none ↦ streaming addr mv counter | some a ↦ streaming a mv counter ];
      base = r.1;
    }
]

-- One round of the loop of `stream_telemetry`.
unfoldable pub stream_cycle : Bytes → Cycle → ℕ → ℕ → ℕ → Base → Option Sensor
stream_cycle fid c addr mv counter b = do
  let mv' = battery_of c.battery mv counter
  r ← report fid c addr mv' b
  if r.0 == cmd_unregistered || r.0 == cmd_remove
      then obey fid c addr r.0 r.1
      else sleep fid c addr mv' (u8 ((counter + 1) % node_batt_every)) r.1

-- A press of the button on the shelf: on an accept the node streams.
unfoldable pub shelf_join : Bytes → Join → Base → Option Sensor
shelf_join fid j b = do
  r ← provision_join fid j b
  some record { phase = elim r.0 [ none ↦ shelf | some a ↦ streaming a 0 0 ]; base = r.1 }
