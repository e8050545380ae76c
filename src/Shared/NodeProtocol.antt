-- ===== src/Shared/NodeProtocol.antt =====
-- Shared/Protocol/node_protocol.h: MessageStruct (44 B), NodeFrame (52 B) and PendingCtrl (10 B) as
-- the bytes that cross SPI and RPMsg, with the payload union's members at their offsets.
use bramka_setup.Base.{ℕ, ◌∷◌, ◌++◌, Bytes, byte, take, drop, le16, le32, replicate}

-- NODE_*
abbrev pub node_solar_controller : ℕ
node_solar_controller = 0

abbrev pub node_bufor_controller : ℕ
node_bufor_controller = 1

abbrev pub node_light_controller : ℕ
node_light_controller = 3

abbrev pub node_th_sensor : ℕ
node_th_sensor = 6

-- CMD_*
abbrev pub cmd_send_data_to_db : ℕ
cmd_send_data_to_db = 0

abbrev pub cmd_send_pump_status : ℕ
cmd_send_pump_status = 1

abbrev pub cmd_turn_pump_on_off : ℕ
cmd_turn_pump_on_off = 2

abbrev pub cmd_send_text_msg : ℕ
cmd_send_text_msg = 3

abbrev pub cmd_join_request : ℕ
cmd_join_request = 4

abbrev pub cmd_join_accept : ℕ
cmd_join_accept = 5

abbrev pub cmd_remove : ℕ
cmd_remove = 6

abbrev pub cmd_unregistered : ℕ
cmd_unregistered = 7

abbrev pub node_text_max : ℕ
node_text_max = 30

abbrev pub node_factory_id_len : ℕ
node_factory_id_len = 8

-- ADDR_*
abbrev pub addr_gateway : ℕ
addr_gateway = 0x00

abbrev pub addr_unprovisioned : ℕ
addr_unprovisioned = 0xff

abbrev pub addr_pool_first : ℕ
addr_pool_first = 0x10

abbrev pub addr_pool_last : ℕ
addr_pool_last = 0xef

-- MessageStruct
abbrev pub MessageStruct : Type 0
MessageStruct = Bytes

abbrev pub sizeof_message : ℕ
sizeof_message = 44

abbrev pub msg_id : MessageStruct → ℕ
msg_id m = byte m 0

abbrev pub msg_type : MessageStruct → ℕ
msg_type m = byte m 1

abbrev pub msg_cmd : MessageStruct → ℕ
msg_cmd m = byte m 2

abbrev pub msg_length : MessageStruct → ℕ
msg_length m = byte m 3

-- payload.solarData: Tin Tout T4 T3 T2 T1 Tcol energyGain flowRate pumpState
abbrev pub solar_t4 : MessageStruct → ℕ
solar_t4 m = le32 m 12

abbrev pub solar_t3 : MessageStruct → ℕ
solar_t3 m = le32 m 16

abbrev pub solar_t2 : MessageStruct → ℕ
solar_t2 m = le32 m 20

abbrev pub solar_t1 : MessageStruct → ℕ
solar_t1 m = le32 m 24

abbrev pub solar_tcol : MessageStruct → ℕ
solar_tcol m = le32 m 28

abbrev pub solar_energy_gain : MessageStruct → ℕ
solar_energy_gain m = le32 m 32

abbrev pub solar_flow_rate : MessageStruct → ℕ
solar_flow_rate m = le32 m 36

abbrev pub solar_pump_state : MessageStruct → ℕ
solar_pump_state m = byte m 40

-- payload.pumpData, payload.buforData, payload.thData
abbrev pub pump_state : MessageStruct → ℕ
pump_state m = byte m 4

abbrev pub bufor_temp : MessageStruct → ℕ
bufor_temp m = le32 m 4

abbrev pub th_temperature : MessageStruct → ℕ
th_temperature m = le32 m 4

abbrev pub th_humidity : MessageStruct → ℕ
th_humidity m = le32 m 8

abbrev pub th_batt_mv : MessageStruct → ℕ
th_batt_mv m = le16 m 12

-- payload.joinAcceptData.assigned_addr
abbrev pub assigned_addr : MessageStruct → ℕ
assigned_addr m = byte m 12

-- A message built by `memset` to 0 and writes to the header and the front of the payload.
abbrev pub message : ℕ → ℕ → ℕ → ℕ → Bytes → MessageStruct
message id type cmd length payload = id ∷ type ∷ cmd ∷ length ∷ take 40 (payload ++ replicate 40 0)

-- NodeFrame: factory id, then message
abbrev pub NodeFrame : Type 0
NodeFrame = Bytes

abbrev pub sizeof_node_frame : ℕ
sizeof_node_frame = 52

abbrev pub frame_factory_id : NodeFrame → Bytes
frame_factory_id nf = take 8 nf

abbrev pub frame_msg : NodeFrame → MessageStruct
frame_msg nf = drop 8 nf

-- PendingCtrl: op, cmd, factory id
abbrev pub PendingCtrl : Type 0
PendingCtrl = Bytes

abbrev pub sizeof_pending_ctrl : ℕ
sizeof_pending_ctrl = 10

abbrev pub ctrl_op_arm : ℕ
ctrl_op_arm = 1

abbrev pub ctrl_op_disarm : ℕ
ctrl_op_disarm = 2
