-- ===== src/Spi.antt =====
-- The SPI link between the M4F core (master) and the CC1310 (slave).
pub mod Frame
pub mod Master
pub mod Slave
pub mod Delivery
pub mod Exchange
