-- ===== src/Comms.antt =====
-- ipc_rpmsg_echo.c: the COMMS task, which owns the link to Linux, and the ENGINE task.
pub mod Slots
pub mod Ring
pub mod Session
pub mod Tasks
pub mod Loop
pub mod System
