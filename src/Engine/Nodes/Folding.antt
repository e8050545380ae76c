-- ===== src/Engine/Nodes/Folding.antt =====
-- What `engine_update_node` of engine.c stores, as `getNodeParam` reads it back.
use bramka_setup.Base.{ℕ, ◌<◌, ◌≡◌, ◌≢◌, true, false, arith, if◌then◌else◌, ◌==◌, ◌&&◌, ◌||◌, Bool}
use bramka_setup.Shared.Automation.{
  param_pump_state, param_temperature, param_humidity, param_batt_mv,
}
use bramka_setup.Shared.NodeProtocol.{
  MessageStruct, node_solar_controller, node_bufor_controller, node_th_sensor, cmd_send_data_to_db,
  cmd_send_pump_status, msg_id, msg_type, msg_cmd, solar_t1, solar_t2, solar_t3, solar_t4,
  solar_tcol, solar_energy_gain, solar_flow_rate, solar_pump_state, pump_state, th_temperature,
  th_humidity, th_batt_mv,
}
use bramka_setup.Engine.State.{Engine}
use bramka_setup.Engine.Nodes.{Float32, update_node, get_node_param, solar_param, float_zero}

-- Which readings `engine_update_node` recognises.
abbrev pub recognised : MessageStruct → Bool
recognised m =
    (msg_type m == node_solar_controller
      && (msg_cmd m == cmd_send_data_to_db || msg_cmd m == cmd_send_pump_status))
    || (msg_type m == node_bufor_controller || msg_type m == node_th_sensor)

-- The value of a solar reading by parameter code, 0.0f for a code that is no solar parameter.
abbrev pub solar_reading : Float32 → MessageStruct → ℕ → ℕ
solar_reading fl m p =
    solar_param fl
      (record {
        w0 = solar_t1 m;
        w1 = solar_t2 m;
        w2 = solar_t3 m;
        w3 = solar_t4 m;
        w4 = solar_tcol m;
        w5 = solar_energy_gain m;
        w6 = solar_flow_rate m;
        w7 = solar_pump_state m;
      })
      p

-- `engine_update_node` returns true exactly for the recognised readings, leaves the record of
-- every other address alone, leaves the whole state alone where it returns false, and marks the
-- sender's record as in use where it returns true.
update_node_frame :
    (e : Engine) (m : MessageStruct)
    → let (e', ok) = update_node e m in
      (ok ≡ recognised m)
      × ((addr : ℕ) → addr ≢ msg_id m → e'.node addr ≡ e.node addr)
      × (ok ≡ false → e' ≡ e)
      × (ok ≡ true → (e'.node (msg_id m)).in_use ≡ 1)
unfolding update_node
update_node_frame e m =
    (ground arith, λ addr ne. ground arith, λ h. ground arith, λ h. ground arith)

-- After a full solar reading, with a pump state of one byte, each solar parameter of its sender
-- reads as the reading has it, and every other code as 0.0f.
pub get_node_param-update_node_solar :
    (fl : Float32) (e : Engine) (m : MessageStruct) (p : ℕ)
    → msg_type m ≡ node_solar_controller
    → msg_cmd m ≡ cmd_send_data_to_db
    → solar_pump_state m < 256
    → get_node_param fl (update_node e m).0.node (msg_id m) p ≡ solar_reading fl m p
unfolding update_node get_node_param
get_node_param-update_node_solar fl e m p t c b = ground arith

-- After a temperature and humidity reading, with a battery voltage of two bytes, the three
-- parameters of its sender read as the reading has them, and every other code as 0.0f.
pub get_node_param-update_node_th :
    (fl : Float32) (e : Engine) (m : MessageStruct) (p : ℕ)
    → msg_type m ≡ node_th_sensor
    → th_batt_mv m < 65536
    → get_node_param fl (update_node e m).0.node (msg_id m) p ≡ (
        if p == param_temperature
        then th_temperature m
        else if p == param_humidity
        then th_humidity m
        else if p == param_batt_mv
        then fl.of_i32 (th_batt_mv m)
        else float_zero)
unfolding update_node get_node_param
get_node_param-update_node_th fl e m p t b = ground arith

-- A pump status of one byte from a node whose record has the solar type changes what the node's
-- pump state reads as, and no other parameter of it.
pub get_node_param-update_node_pump :
    (fl : Float32) (e : Engine) (m : MessageStruct) (p : ℕ)
    → msg_type m ≡ node_solar_controller
    → msg_cmd m ≡ cmd_send_pump_status
    → (e.node (msg_id m)).type ≡ node_solar_controller
    → pump_state m < 256
    → get_node_param fl (update_node e m).0.node (msg_id m) p ≡ (
        if p == param_pump_state
        then fl.of_i32 (pump_state m)
        else get_node_param fl e.node (msg_id m) p)
unfolding update_node get_node_param
get_node_param-update_node_pump fl e m p t c s b = ground arith
