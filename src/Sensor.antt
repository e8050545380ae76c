-- ===== src/Sensor.antt =====
-- The temperature and humidity node (Nodes/TempHumNode/Firmware): its radio and its life cycle.
pub mod Radio
pub mod Life
pub mod Removal
pub mod Events
pub mod Gauge
pub mod Mcp3421
