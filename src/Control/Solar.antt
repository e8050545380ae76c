-- ===== src/Control/Solar.antt =====
-- Nodes/SolarControllerNode/Firmware/solar_controller_task.c: the pump's control, the telemetry and
-- the commands. The float expressions, the measured temperatures and the GPIO driver are inputs.
pub mod Pump
pub mod Loop
use bramka_setup.Base.{
  ℕ, ◌+◌, ◌-◌, ◌/◌, ◌%◌, Bool, true, false, none, some, ◌&&◌, ◌||◌, Option, List, [], ◌∷◌, ◌++◌,
  if◌then◌else◌, Bytes, ltb, leb, ◌==◌,
}
use bramka_setup.Shared.NodeProtocol.{
  MessageStruct, msg_cmd, msg_type, pump_state, assigned_addr, node_solar_controller,
  addr_unprovisioned, cmd_join_accept, cmd_remove, cmd_unregistered, cmd_turn_pump_on_off,
  cmd_send_pump_status, cmd_send_data_to_db,
}
use bramka_setup.Comms.Session.{queue_send}
use bramka_setup.Control.Identity.{IdentityRec, Write, identity_persist}
use bramka_setup.Control.Light.{Gpio, radio_depth}

-- "SCN1"
abbrev pub solar_magic : ℕ
solar_magic = 0x53434e31

-- measuredTemp[0..7], by their bits
abbrev pub Temps : Type 0
Temps = ℕ → ℕ

-- The float tests on the temperatures and the flow, the energy sum and its cast to int.
pub record Floats : Type 0 where
  pub above_7 : Temps → Bool
  pub below_6 : Temps → Bool
  pub wants_more : Temps → ℕ → Bool
  pub wants_less : Temps → ℕ → Bool
  pub gain : ℕ → Temps → Temps → ℕ → ℕ
  pub to_int : ℕ → ℕ

pub record Solar : Type 0 where
  pub address : ℕ
  pub flash : Option IdentityRec
  pub relay1 : ℕ
  pub relay3 : ℕ
  pub flow_value : ℕ
  pub pwm_duty : ℕ
  pub update_pwm : ℕ
  pub temps : Temps
  pub energy_gain_float : ℕ
  pub send_flag : ℕ
  pub padding : Bytes
  pub radio_queue : List MessageStruct

-- the state when the task starts, with the address that the identity gives
abbrev pub at_boot : Gpio → ℕ → Option IdentityRec → Temps → Bytes → Solar
at_boot g a flash temps padding = record {
  address = a;
  flash = flash;
  relay1 = g.level 0;
  relay3 = g.level 0;
  flow_value = 0;
  pwm_duty = 0;
  update_pwm = 1;
  temps = temps;
  energy_gain_float = 0;
  send_flag = 11;
  padding = padding;
  radio_queue = [];
}

-- the pump's steps: on at 6 %, up and down by 6 %, off
unfoldable pub pump_control : Floats → Gpio → Temps → Solar → Solar
pump_control fl g t s =
    if fl.above_7 t && ltb s.flow_value 6
    then record s { flow_value = 6; pwm_duty = 234; relay3 = g.level 1 }
    else if fl.wants_more t s.flow_value && (leb 6 s.flow_value && leb s.flow_value 78)
    then record s { flow_value = s.flow_value + 6; pwm_duty = s.pwm_duty + 54 }
    else if fl.wants_less t s.flow_value && leb 12 s.flow_value
    then record s { flow_value = s.flow_value - 6; pwm_duty = s.pwm_duty - 54 }
    else if fl.below_6 t && s.flow_value == 6
    then record s { flow_value = 0; pwm_duty = 0; relay3 = g.level 0 }
    else s

-- every other measurement
unfoldable pub update_pump : Floats → Gpio → Temps → Solar → Solar
update_pump fl g t s =
    if s.update_pwm == 1
    then record (pump_control fl g t s) { update_pwm = 0 }
    else record s { update_pwm = 1 }

abbrev pub le4 : ℕ → Bytes
le4 n = n % 256 ∷ (n / 256) % 256 ∷ (n / 65536) % 256 ∷ (n / 16777216) % 256 ∷ []

-- the solarData message: Tin Tout T4 T3 T2 T1 Tcol energyGain flowRate pumpState, and the bytes of
-- the struct that are never written
abbrev pub solar_report : Floats → Temps → Solar → MessageStruct
solar_report fl t s =
    (s.address ∷ node_solar_controller ∷ cmd_send_data_to_db ∷ 44 ∷ [])
    ++ (le4 (t 0) ++ le4 (t 1) ++ le4 (t 2) ++ le4 (t 3) ++ le4 (t 4) ++ le4 (t 5) ++ le4 (t 6))
    ++ le4 (fl.to_int s.energy_gain_float)
    ++ le4 s.flow_value
    ++ s.relay1 ∷ s.padding

-- the telemetry of every twelfth measurement
unfoldable pub send_data : Floats → Temps → Solar → Solar
send_data fl t s =
    let sent =
      if s.address == addr_unprovisioned
      then s.radio_queue
      else queue_send radio_depth (solar_report fl t s) s.radio_queue in
    if leb 11 s.send_flag
    then record s { radio_queue = sent; energy_gain_float = 0; send_flag = 0 }
    else record s { send_flag = s.send_flag + 1 }

-- One EVENT_MEASURE_TEMPERATURE, on the temperatures that it measures.
unfoldable pub measure : Floats → Gpio → Temps → Solar → Solar
measure fl g t s =
    let s1 = update_pump fl g t (record s { temps = t }) in
    send_data fl t
      (record s1 { energy_gain_float = fl.gain s1.energy_gain_float s.temps t s1.flow_value })

-- the pump status; the queue takes its five bytes
abbrev pub pump_report : ℕ → ℕ → MessageStruct
pump_report addr relay = addr ∷ node_solar_controller ∷ cmd_send_pump_status ∷ 5 ∷ relay ∷ []

unfoldable pub send_pump_status : Solar → Solar
send_pump_status s = record s {
  radio_queue = queue_send radio_depth (pump_report s.address s.relay1) s.radio_queue;
}

unfoldable pub with_address : Write → ℕ → Solar → Solar
with_address w a s = record s { address = a; flash = (identity_persist solar_magic w a s.flash).1 }

-- One command of the queue.
unfoldable pub on_command : Gpio → Write → MessageStruct → Solar → Solar
on_command g w cmd s =
    if msg_cmd cmd == cmd_join_accept
    then send_pump_status (with_address w (assigned_addr cmd) s)
    else if msg_cmd cmd == cmd_remove || msg_cmd cmd == cmd_unregistered
    then with_address w addr_unprovisioned s
    else if msg_type cmd == node_solar_controller && msg_cmd cmd == cmd_turn_pump_on_off
    then send_pump_status (record s { relay1 = g.level (pump_state cmd) })
    else s

-- the commands of the queue, each with the outcome of its write
unfoldable pub on_commands : Gpio → List (Write × MessageStruct) → Solar → Solar
on_commands g [] s = s
on_commands g ((w, cmd) ∷ cmds) s = on_commands g cmds (on_command g w cmd s)

-- One round of the task's loop, with the events that it was woken by: the state, and the commands
-- that are left in the queue. A measurement leaves the commands for a later event.
unfoldable pub task_round :
    Floats
    → Gpio
    → Option Temps
    → Bool
    → List (Write × MessageStruct)
    → Solar
    → Solar × List (Write × MessageStruct)
task_round fl g (some t) received cmds s = (measure fl g t s, cmds)
task_round fl g none true cmds s = (on_commands g cmds s, [])
task_round fl g none false cmds s = (s, cmds)
