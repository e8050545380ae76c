-- ===== src/Control/Light.antt =====
-- Nodes/LightSwitchNode/Firmware/node_app.c: the relay of the light. What the GPIO driver reads back
-- is an input.
pub mod Backlight
use bramka_setup.Base.{ℕ, ◌||◌, Option, List, [], ◌∷◌, if◌then◌else◌, take, ◌==◌}
use bramka_setup.Shared.NodeProtocol.{
  MessageStruct, message, msg_cmd, pump_state, assigned_addr, node_light_controller,
  addr_unprovisioned, cmd_join_accept, cmd_remove, cmd_unregistered, cmd_turn_pump_on_off,
  cmd_send_pump_status,
}
use bramka_setup.Comms.Session.{queue_send}
use bramka_setup.Control.Identity.{IdentityRec, Write, identity_persist}

-- What a pin reads after a write of a value, and after a toggle from a value.
pub record Gpio : Type 0 where
  pub level : ℕ → ℕ
  pub toggled : ℕ → ℕ

-- "LSN1"
abbrev pub light_magic : ℕ
light_magic = 0x4c534e31

-- mq_maxmsg of the node's radio queue (rfEchoTx.c)
abbrev pub radio_depth : ℕ
radio_depth = 10

-- gNodeAddress, the flash, what CONFIG_RELAY1 and CONFIG_GPIO_BLED read, and the radio queue
pub record Light : Type 0 where
  pub address : ℕ
  pub flash : Option IdentityRec
  pub relay : ℕ
  pub backlight : ℕ
  pub radio_queue : List MessageStruct

-- `syncBacklight`
unfoldable pub sync_backlight : Gpio → Light → Light
sync_backlight g s = record s { backlight = g.level s.relay }

-- `reportRelayState`; the queue takes the first m.length bytes
abbrev pub relay_report : ℕ → ℕ → MessageStruct
relay_report addr relay =
    take 5 (message addr node_light_controller cmd_send_pump_status 5 (relay ∷ []))

unfoldable pub report_relay_state : Light → Light
report_relay_state s = record s {
  radio_queue = queue_send radio_depth (relay_report s.address s.relay) s.radio_queue;
}

-- `app_relay_toggle`
unfoldable pub app_relay_toggle : Gpio → Light → Light
app_relay_toggle g s =
    report_relay_state (sync_backlight g (record s { relay = g.toggled s.relay }))

-- a new address, persisted
unfoldable pub with_address : Write → ℕ → Light → Light
with_address w a s = record s { address = a; flash = (identity_persist light_magic w a s.flash).1 }

-- One command of the loop of `appTaskFunction`.
unfoldable pub on_command : Gpio → Write → MessageStruct → Light → Light
on_command g w cmd s =
    if msg_cmd cmd == cmd_join_accept
    then report_relay_state (with_address w (assigned_addr cmd) s)
    else if msg_cmd cmd == cmd_remove || msg_cmd cmd == cmd_unregistered
    then with_address w addr_unprovisioned s
    else if msg_cmd cmd == cmd_turn_pump_on_off
    then report_relay_state (sync_backlight g (record s { relay = g.level (pump_state cmd) }))
    else s

-- the commands of the queue, each with the outcome of its write
unfoldable pub on_commands : Gpio → List (Write × MessageStruct) → Light → Light
on_commands g [] s = s
on_commands g ((w, cmd) ∷ cmds) s = on_commands g cmds (on_command g w cmd s)
