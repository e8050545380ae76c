-- ===== src/Tests.antt =====
-- Examples: each main theorem at a concrete input.
mod Data
mod EngineRules
mod EngineState
mod Radio
mod Linux
mod Sensors
mod Spi
mod SensorNode
mod Paths
mod System
mod Joins
mod Converter
mod Gauges
mod Transfers
