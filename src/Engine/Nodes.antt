-- ===== src/Engine/Nodes.antt =====
-- engine.c, the per-node live state: `engine_update_node` and `getNodeParam`.
pub mod Folding
use bramka_setup.Base.{ℕ, ◌+◌, ◌*◌, ◌/◌, ◌%◌, Bool, true, false, ◌&&◌, if◌then◌else◌, ◌==◌}
use bramka_setup.Shared.Automation.{
  param_t1, param_t2, param_t3, param_t4, param_sbuf_temp, param_tcol, param_energy_gain,
  param_flow_rate, param_pump_state, param_temperature, param_humidity, param_batt_mv,
}
use bramka_setup.Shared.NodeProtocol.{
  MessageStruct, node_solar_controller, node_bufor_controller, node_th_sensor, cmd_send_data_to_db,
  cmd_send_pump_status, msg_id, msg_type, msg_cmd, solar_t1, solar_t2, solar_t3, solar_t4,
  solar_tcol, solar_energy_gain, solar_flow_rate, solar_pump_state, pump_state, bufor_temp,
  th_temperature, th_humidity, th_batt_mv,
}
use bramka_setup.Engine.State.{NodeUnion, NodeRec, Engine, update}

-- stores to the low byte and the low half of a word of the union
abbrev pub with_low8 : ℕ → ℕ → ℕ
with_low8 w v = w / 256 * 256 + v % 256

abbrev pub with_low16 : ℕ → ℕ → ℕ
with_low16 w v = w / 65536 * 65536 + v % 65536

-- the four folding branches, on the record of the sender
abbrev pub fold_solar : MessageStruct → NodeRec → NodeRec
fold_solar m nd = record {
  in_use = 1;
  type = node_solar_controller;
  d = record {
    w0 = solar_t1 m;
    w1 = solar_t2 m;
    w2 = solar_t3 m;
    w3 = solar_t4 m;
    w4 = solar_tcol m;
    w5 = solar_energy_gain m;
    w6 = solar_flow_rate m;
    w7 = with_low8 nd.d.w7 (solar_pump_state m);
  };
}

abbrev pub fold_pump : MessageStruct → NodeRec → NodeRec
fold_pump m nd = record {
  in_use = 1;
  type = node_solar_controller;
  d = record nd.d { w7 = with_low8 nd.d.w7 (pump_state m) };
}

abbrev pub fold_bufor : MessageStruct → NodeRec → NodeRec
fold_bufor m nd = record {
  in_use = 1;
  type = node_bufor_controller;
  d = record nd.d { w0 = bufor_temp m };
}

abbrev pub fold_th : MessageStruct → NodeRec → NodeRec
fold_th m nd = record {
  in_use = 1;
  type = node_th_sensor;
  d = record nd.d {
    w0 = th_temperature m;
    w1 = th_humidity m;
    w2 = with_low16 nd.d.w2 (th_batt_mv m);
  };
}

abbrev pub store_node : Engine → MessageStruct → (NodeRec → NodeRec) → Engine × Bool
store_node e m f = (record e { node = update e.node (msg_id m) (f (e.node (msg_id m))) }, true)

-- The message pointer is never NULL in the callers, so that guard has no counterpart.
unfoldable pub update_node : Engine → MessageStruct → Engine × Bool
update_node e m =
    if msg_type m == node_solar_controller && msg_cmd m == cmd_send_data_to_db
    then store_node e m (fold_solar m)
    else if msg_type m == node_solar_controller && msg_cmd m == cmd_send_pump_status
    then store_node e m (fold_pump m)
    else if msg_type m == node_bufor_controller
    then store_node e m (fold_bufor m)
    else if msg_type m == node_th_sensor
    then store_node e m (fold_th m)
    else (e, false)

-- The C `float` arithmetic of the target: IEEE single precision, on bit patterns.
pub record Float32 : Type 0 where
  pub lt : ℕ → ℕ → Bool
  pub le : ℕ → ℕ → Bool
  pub sub : ℕ → ℕ → ℕ
  pub of_i32 : ℕ → ℕ

-- the bit patterns of 0.0f and 0.5f
abbrev pub float_zero : ℕ
float_zero = 0

abbrev pub float_half : ℕ
float_half = 0x3f00_0000

abbrev pub solar_param : Float32 → NodeUnion → ℕ → ℕ
solar_param fl d p =
    if p == param_t1
    then d.w0
    else if p == param_t2
    then d.w1
    else if p == param_t3
    then d.w2
    else if p == param_t4
    then d.w3
    else if p == param_tcol
    then d.w4
    else if p == param_energy_gain
    then fl.of_i32 d.w5
    else if p == param_flow_rate
    then fl.of_i32 d.w6
    else if p == param_pump_state
    then fl.of_i32 (d.w7 % 256)
    else float_zero

abbrev pub th_param : Float32 → NodeUnion → ℕ → ℕ
th_param fl d p =
    if p == param_temperature
    then d.w0
    else if p == param_humidity
    then d.w1
    else if p == param_batt_mv
    then fl.of_i32 (d.w2 % 65536)
    else float_zero

-- `getNodeParam`
unfoldable pub get_node_param : Float32 → (ℕ → NodeRec) → ℕ → ℕ → ℕ
get_node_param fl node addr p =
    if nd.type == node_solar_controller
    then solar_param fl nd.d p
    else if nd.type == node_bufor_controller
    then (if p == param_sbuf_temp then nd.d.w0 else float_zero)
    else if nd.type == node_th_sensor
    then th_param fl nd.d p
    else float_zero
  where
    nd : NodeRec
    nd = node addr
