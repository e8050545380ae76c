-- ===== src/Sensor/Events.antt =====
-- Nodes/TempHumNode/Firmware/rev2: th_sensor_task.c, the event-driven task of the second revision of
-- the sensor node, with th_sense_read_batt of th_sense.c. What the sensors give (the floats by their
-- bits, the battery in mV) and the outcome of each write of the address are inputs.
pub mod Quiet
use bramka_setup.Base.{
  ℕ, ◌+◌, ◌/◌, ◌%◌, Bool, true, false, ◌||◌, Option, none, some, List, [], ◌∷◌, ◌++◌, if◌then◌else◌,
  u8, ◌==◌,
}
use bramka_setup.Shared.NodeProtocol.{
  MessageStruct, msg_cmd, assigned_addr, addr_unprovisioned, node_th_sensor, cmd_send_data_to_db,
  cmd_join_accept, cmd_remove, cmd_unregistered,
}
use bramka_setup.Comms.Session.{queue_send}
use bramka_setup.Control.Identity.{IdentityRec, Write, identity_persist}
use bramka_setup.Control.Light.{radio_depth}
use bramka_setup.Battery.{battery_soc_pct}
use bramka_setup.Sensor.Life.{le4}

-- IDENTITY_MAGIC, "THN1"
abbrev pub identity_magic : ℕ
identity_magic = 0x54484e31

-- TH_BATT_EVERY
abbrev pub th_batt_every : ℕ
th_batt_every = 5

-- what th_sense_read_th and mcp3421_read_batt_mv give
pub record Reading : Type 0 where
  pub th : Option (ℕ × ℕ)
  pub batt : Option ℕ

-- `th_sense_read_batt`: the battery's voltage and its state of charge
unfoldable pub th_sense_read_batt : Option ℕ → Option (ℕ × ℕ)
th_sense_read_batt none = none
th_sense_read_batt (some mv) = some (mv, battery_soc_pct mv)

-- gNodeAddress, the flash, sBattMv, sSocPct, sBattCtr, the peripherals' rail and the radio queue
pub record Task : Type 0 where
  pub address : ℕ
  pub flash : Option IdentityRec
  pub batt_mv : ℕ
  pub soc_pct : ℕ
  pub batt_ctr : ℕ
  pub periph : Bool
  pub radio_queue : List MessageStruct

-- the task's start, with the address that the identity gives
abbrev pub at_boot : ℕ → Option IdentityRec → Task
at_boot a flash = record {
  address = a;
  flash = flash;
  batt_mv = 0;
  soc_pct = 0;
  batt_ctr = 0;
  periph = false;
  radio_queue = [];
}

-- the telemetry; the queue takes its 20 bytes
abbrev pub th_report : ℕ → ℕ × ℕ → ℕ → ℕ → MessageStruct
th_report addr (t, h) mv soc =
    (addr ∷ node_th_sensor ∷ cmd_send_data_to_db ∷ 20 ∷ [])
    ++ (le4 t ++ le4 h)
    ++ mv % 256 ∷ (mv / 256) % 256 ∷ soc ∷ 0 ∷ le4 0

-- the battery's part of `measureAndSend`
unfoldable pub refresh_batt : Option ℕ → Task → Task
refresh_batt batt s =
    let next = u8 ((s.batt_ctr + 1) % th_batt_every) in
    if s.batt_ctr == 0
    then elim (th_sense_read_batt batt) [
      | none ↦ record s { batt_ctr = next }
      | some r ↦ record s { batt_mv = r.0; soc_pct = r.1; batt_ctr = next }
    ]
    else record s { batt_ctr = next }

-- `measureAndSend`
unfoldable pub measure_and_send : Reading → Task → Task
measure_and_send r s =
    let s1 : Task = record (refresh_batt r.batt (record s { periph = true })) { periph = false } in
    elim r.th [
      | none ↦ s1
      | some th ↦ if s1.address == addr_unprovisioned then s1 else record s1 {
        radio_queue =
            queue_send radio_depth (th_report s1.address th s1.batt_mv s1.soc_pct) s1.radio_queue;
      }
    ]

unfoldable pub with_address : Write → ℕ → Task → Task
with_address w a s = record s {
  address = a;
  flash = (identity_persist identity_magic w a s.flash).1;
}

-- A command, with what its write and its measurement meet.
pub record Command : Type 0 where
  pub write : Write
  pub reading : Reading
  pub msg : MessageStruct

-- `handleCommand`
unfoldable pub handle_command : Command → Task → Task
handle_command c s =
    if msg_cmd c.msg == cmd_join_accept
    then measure_and_send c.reading
        (record (with_address c.write (assigned_addr c.msg) s) { batt_ctr = 0 })
    else if msg_cmd c.msg == cmd_remove || msg_cmd c.msg == cmd_unregistered
    then with_address c.write addr_unprovisioned s
    else s

-- the commands of the queue
unfoldable pub handle_commands : List Command → Task → Task
handle_commands [] s = s
handle_commands (c ∷ cs) s = handle_commands cs (handle_command c s)

-- What the task is woken by: EVENT_MEASURE with its reading, and the commands that
-- EVENT_RECEIVE_CMD finds in the queue.
pub record Events : Type 0 where
  pub measured : Option Reading
  pub commands : List Command

-- One round of the loop of `thSensorTaskFunction`.
unfoldable pub task_round : Events → Task → Task
task_round e s =
    handle_commands e.commands (elim e.measured [ none ↦ s | some r ↦ measure_and_send r s ])

-- the rounds of a run
unfoldable pub run_events : List Events → Task → Task
run_events [] s = s
run_events (e ∷ es) s = run_events es (task_round e s)
