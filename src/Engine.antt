-- ===== src/Engine.antt =====
-- Gateway/Firmware/M4F/engine.c: the automation engine of the M4F core.
pub mod State
pub mod Nodes
pub mod Clock
pub mod Conditions
pub mod Evaluate
pub mod Ruleset
