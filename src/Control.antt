-- ===== src/Control.antt =====
-- The control tasks of the nodes that switch something.
pub mod Touch
pub mod Adc
pub mod Identity
pub mod Light
pub mod Solar
