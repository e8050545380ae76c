-- ===== src/Concentrator.antt =====
-- Gateway/Firmware/CC1310/radio_task.c: the gateway's radio processor.
pub mod Pending
pub mod Transmit
pub mod Receive
pub mod Exchange
