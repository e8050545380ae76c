-- ===== src/Lib.antt =====
-- The firmware of the bramka home gateway: the automation engine and the link to Linux on its
-- Cortex-M4F core, the radio concentrator on its CC1310, the SPI link between the two cores, the
-- radio and the control tasks of the solar and light nodes, and the temperature and humidity node
-- with its battery gauge.
--
-- How the parts interact. A node sends a frame by radio
-- (Nodes/SolarControllerNode/Firmware/rfEchoTx.c); the concentrator
-- (Gateway/Firmware/CC1310/radio_task.c) checks it, answers with an ACK or with a pending command
-- in a NACK, and hands the message on over SPI (Gateway/Firmware/CC1310/spi_slave_task.c,
-- Gateway/Firmware/M4F/spi_master.c), which also brings the node commands and the changes of the
-- pending-command table from the M4F. On the M4F the ENGINE task
-- (Gateway/Firmware/M4F/ipc_rpmsg_echo.c) passes each message to the outbox as telemetry, folds it
-- into the node records and evaluates the rules (engine.c); the COMMS task of the same file owns
-- the link to Linux: it answers Linux's messages, gives those of the rule push and the node
-- commands to engine_rpmsg.c, drains the outbox and resends what is not acknowledged.
--
-- Files. Base: names, list and word lemmas shared by all. Shared.Automation, Shared.NodeProtocol
-- and Shared.Protocol: the headers of Shared/Protocol, structs as bytes with accessors at the C
-- offsets, and the RPMsg codec. Engine.State, Clock, Nodes, Conditions, Evaluate and Ruleset:
-- engine.c, function by function (engine_update_node is update_node, and so on); the static
-- variables are the record Engine, calls of the action callback are a list of results, and
-- readings of the clock are arguments. Rpmsg: engine_rpmsg.c, with the callbacks' calls as
-- effects. Comms.Ring, Slots, Session, Tasks and Loop: ipc_rpmsg_echo.c, and Comms.System: its
-- tasks and callbacks as a step relation, with the ENGINE task's place in its iteration as a
-- state, so that the COMMS task preempts it between any two of its steps; what a step of it reads
-- while it is preempted is some engine. Rf: what both radios share; Concentrator.Pending, Transmit
-- and Receive: radio_task.c; Node: rfEchoTx.c, with its task's loop in Node.Task. Spi.Frame:
-- Shared/Protocol/spi_frame.h and the frame helpers of both sides; Spi.Master: spi_master.c, with
-- the wiring of its interrupt in Spi.Master.Irq; Spi.Slave: spi_slave_task.c, with its transfer in
-- Spi.Slave.Port. Sensor.Radio and Sensor.Life: radio.c and rfWsnNode.c of
-- Nodes/TempHumNode/Firmware; Sensor.Events: rev2/th_sensor_task.c, and Battery:
-- rev2/battery_soc.c, of the same folder; Sensor.Gauge: sensors.c; Sensor.Mcp3421: rev2/mcp3421.c.
-- Control.Solar: solar_controller_task.c; Control.Identity: node_identity.c; Control.Adc:
-- ads1256.c; Control.Light and Control.Touch: node_app.c and gpiointerrupt.c of
-- Nodes/LightSwitchNode/Firmware. Commands, Uplink and Joining compose these parts along the paths
-- from and to Linux. The child modules of these files hold their theorems, and Tests the examples.
--
-- Conventions. C integers are natural numbers with the wrap-around written out (u8, u16, u32,
-- u64). Arrays are lists or functions of the index. A receive buffer keeps the old bytes behind a
-- shorter packet. Where C leaves the behaviour undefined (a copy of negative length or past the
-- end of a message) the radio models return `fault` or none. Recursion is structural everywhere:
-- the rule loop runs over the number of live rules, the send loop over the queue, a node's
-- attempts over MAX_RETRIES + 1, the SPI master's polling over its 250 samples. Fuel have only the
-- wait for a JOIN_ACCEPT (Sensor.Radio.wait_from): 181 for its 90 s, which is 180 windows of 500
-- ms; the RX loop (Comms.Loop.drain_rx): 4 for the three messages that the ring holds at most; the
-- wait for the SPI task at shutdown: 1001 for at most hundred delays; and the wait for DRDY
-- (Control.Adc.wait_low), which C bounds by nothing: any fuel above the rounds in which the
-- converter gets ready.
--
-- Parameters. The comparison and conversion of floats (Engine.Nodes.Float32,
-- Control.Solar.Floats), what GPIO pins read back (Control.Light.Gpio), the success of
-- RPMessage_send on given bytes (Comms.Slots.Link), the packets heard while waiting for an ACK,
-- the readings of the handshake pins and the outcome of SPI transfers (Spi.Master.Bus), the values
-- of the sensors, the outcome of flash writes, the JOIN button, the converter behind SPI
-- (Control.Adc.Device), the I2C bus (Sensor.Gauge.I2c), the SPI driver of the CC1310
-- (Spi.Slave.Port.SpiDriver), what the drivers answer to the wiring of the interrupt, and the
-- clock. One handler call reads the clock once: the model uses one reading where the C code may
-- take several in a row.
--
-- Not modelled: driver set-up, display and trace output, start-up, callbacks and posts to the SPI
-- task in the middle of a COMMS round, vendored and generated code, and the programs on Linux.
pub mod Base
pub mod Shared
pub mod Engine
pub mod Rpmsg
pub mod Comms
pub mod Rf
pub mod Concentrator
pub mod Node
pub mod Spi
pub mod Commands
pub mod Joining
pub mod Uplink
pub mod Control
pub mod Sensor
pub mod Battery
mod Tests
